-- ===== src/Types.antt =====
-- The enumerations and structures of flashdb/inc/fdb_def.h that the modelled code uses, and the
-- write granularity and address arithmetic of flashdb/inc/fdb_low_lvl.h.
use flashdb_rs.Prelude.{ℕ, zero, suc, Bool, true, false, List, ◌^◌, ◌+◌, ◌-◌, ◌*◌, ◌/◌, ◌%◌}

-- `fdb_err_t`
pub data FdbErr : Type 0 where
  no_err erase_err read_err write_err part_not_found : FdbErr
  kv_name_err kv_name_exist saved_full init_failed : FdbErr

-- The test `result == FDB_NO_ERR`.
abbrev pub is_ok : FdbErr → Bool
is_ok no_err = true
is_ok _ = false

-- `enum fdb_kv_status`
pub data KvStatus : Type 0 where
  unused pre_write write pre_delete deleted err_hdr : KvStatus

-- `enum fdb_tsl_status`
pub data TslStatus : Type 0 where
  unused pre_write write user_status1 deleted user_status2 : TslStatus

-- `enum fdb_sector_store_status`
pub data StoreStatus : Type 0 where
  unused empty using full : StoreStatus

-- `enum fdb_sector_dirty_status`
pub data DirtyStatus : Type 0 where
  unused clean dirty gc : DirtyStatus

-- The values of the enumerations, which index a status table, and the casts back.
abbrev pub kv_index : KvStatus → ℕ
kv_index KvStatus.unused = 0
kv_index KvStatus.pre_write = 1
kv_index KvStatus.write = 2
kv_index KvStatus.pre_delete = 3
kv_index KvStatus.deleted = 4
kv_index KvStatus.err_hdr = 5

abbrev pub kv_status : ℕ → KvStatus
kv_status zero = KvStatus.unused
kv_status (suc zero) = KvStatus.pre_write
kv_status (suc (suc zero)) = KvStatus.write
kv_status (suc (suc (suc zero))) = KvStatus.pre_delete
kv_status (suc (suc (suc (suc zero)))) = KvStatus.deleted
kv_status _ = KvStatus.err_hdr

abbrev pub tsl_index : TslStatus → ℕ
tsl_index TslStatus.unused = 0
tsl_index TslStatus.pre_write = 1
tsl_index TslStatus.write = 2
tsl_index TslStatus.user_status1 = 3
tsl_index TslStatus.deleted = 4
tsl_index TslStatus.user_status2 = 5

abbrev pub tsl_status : ℕ → TslStatus
tsl_status zero = TslStatus.unused
tsl_status (suc zero) = TslStatus.pre_write
tsl_status (suc (suc zero)) = TslStatus.write
tsl_status (suc (suc (suc zero))) = TslStatus.user_status1
tsl_status (suc (suc (suc (suc zero)))) = TslStatus.deleted
tsl_status _ = TslStatus.user_status2

abbrev pub store_index : StoreStatus → ℕ
store_index StoreStatus.unused = 0
store_index StoreStatus.empty = 1
store_index StoreStatus.using = 2
store_index StoreStatus.full = 3

abbrev pub store_status : ℕ → StoreStatus
store_status zero = StoreStatus.unused
store_status (suc zero) = StoreStatus.empty
store_status (suc (suc zero)) = StoreStatus.using
store_status _ = StoreStatus.full

abbrev pub dirty_index : DirtyStatus → ℕ
dirty_index DirtyStatus.unused = 0
dirty_index DirtyStatus.clean = 1
dirty_index DirtyStatus.dirty = 2
dirty_index DirtyStatus.gc = 3

abbrev pub dirty_status : ℕ → DirtyStatus
dirty_status zero = DirtyStatus.unused
dirty_status (suc zero) = DirtyStatus.clean
dirty_status (suc (suc zero)) = DirtyStatus.dirty
dirty_status _ = DirtyStatus.gc

-- `fdb_storage_type`
pub data StorageType : Type 0 where
  fal file custom : StorageType

-- `fdb_db_type`
pub data DbType : Type 0 where
  kv ts : DbType

-- `FDB_WRITE_GRAN`, in bits: the values that fdb_kvdb.c accepts.
pub data Gran : Type 0 where
  g1 g8 g32 g64 g128 : Gran

abbrev pub bits : Gran → ℕ
bits g1 = 1
bits g8 = 8
bits g32 = 32
bits g64 = 64
bits g128 = 128

-- `FDB_WRITE_GRAN` as fdb_def.h sets it; the crate's build defines no other.
abbrev pub write_gran : Gran
write_gran = g1

abbrev pub byte_erased : ℕ
byte_erased = 0xff

abbrev pub byte_written : ℕ
byte_written = 0x00

-- `FDB_DATA_UNUSED`, `FDB_FAILED_ADDR` and `FAILED_ADDR`
abbrev pub data_unused : ℕ
data_unused = 0xffff_ffff

abbrev pub failed_addr : ℕ
failed_addr = 0xffff_ffff

abbrev pub u32 : ℕ → ℕ
u32 n = n % 2 ^ 32

-- `FDB_ALIGN`
abbrev pub align : ℕ → ℕ → ℕ
align size a = size + a - 1 - (size + a - 1) % a

-- `FDB_WG_ALIGN`
abbrev pub wg_align : ℕ → ℕ
wg_align size = align size ((bits write_gran + 7) / 8)

-- `FDB_ALIGN_DOWN`
abbrev pub align_down : ℕ → ℕ → ℕ
align_down size a = size / a * a

-- `FDB_WG_ALIGN_DOWN`
abbrev pub wg_align_down : ℕ → ℕ
wg_align_down size = align_down size ((bits write_gran + 7) / 8)

-- `struct fdb_db`, without the name, the callbacks and the file table.
pub record Db : Type 0 where
  pub type : DbType
  pub mode : StorageType
  pub sec_size : ℕ
  pub max_size : ℕ
  pub oldest_addr : ℕ
  pub init_ok : Bool
  pub file_mode : Bool
  pub not_formatable : Bool

-- `struct fdb_blob`: the buffer's bytes stand for the pointer `buf`.
pub record Blob : Type 0 where
  pub buf : List ℕ
  pub size : ℕ
  pub meta_addr : ℕ
  pub addr : ℕ
  pub len : ℕ
