-- ===== src/Kvdb.antt =====
-- The key-value database, flashdb/fdb_kvdb.c: its structures, and the offsets of the structures on
-- flash with one bit of write granularity.
pub mod Cache
pub mod Walk
pub mod Pairs
pub mod Search
pub mod Alloc
pub mod Delete
pub mod Gc
pub mod Create
pub mod Store
pub mod Load
pub mod Iterate
use flashdb_rs.Prelude.{ℕ, Bool, List}
use flashdb_rs.Types.{Db, KvStatus, StoreStatus, DirtyStatus}

-- `struct fdb_kv` without `magic`, which the code does not use; `start` and `value` are the fields of `addr`.
pub record Kv : Type 0 where
  pub status : KvStatus
  pub crc_is_ok : Bool
  pub name_len : ℕ
  pub len : ℕ
  pub value_len : ℕ
  pub name : List ℕ
  pub start : ℕ
  pub value : ℕ

-- `struct kvdb_sec_info`; `store` and `dirty` are the fields of `status`.
pub record KvSecInfo : Type 0 where
  pub check_ok : Bool
  pub store : StoreStatus
  pub dirty : DirtyStatus
  pub addr : ℕ
  pub magic : ℕ
  pub combined : ℕ
  pub remain : ℕ
  pub empty_kv : ℕ

-- `struct kv_cache_node`
pub record KvCacheNode : Type 0 where
  pub name_crc : ℕ
  pub active : ℕ
  pub addr : ℕ

-- `struct fdb_default_kv_node`
pub record DefaultKvNode : Type 0 where
  pub key : List ℕ
  pub value : List ℕ
  pub value_len : ℕ

-- `struct fdb_kvdb`, without `user_data`; `default_kvs` stands for the array with its length.
pub record Kvdb : Type 0 where
  pub db : Db
  pub default_kvs : List DefaultKvNode
  pub gc_request : Bool
  pub in_recovery_check : Bool
  pub cur_kv : Kv
  pub cur_sector : KvSecInfo
  pub last_is_complete_del : Bool
  pub kv_cache_table : List KvCacheNode
  pub sector_cache_table : List KvSecInfo

abbrev pub kv_cache_table_size : ℕ
kv_cache_table_size = 64

abbrev pub kv_name_max : ℕ
kv_name_max = 64

abbrev pub kv_magic_word : ℕ
kv_magic_word = 0x3030_564b

-- `SECTOR_MAGIC_WORD`
abbrev pub kv_sector_magic_word : ℕ
kv_sector_magic_word = 0x3042_4446

abbrev pub kv_status_num : ℕ
kv_status_num = 6

abbrev pub sector_combined : ℕ
sector_combined = 0

abbrev pub sector_not_combined : ℕ
sector_not_combined = 0xffff_ffff

-- The sizes of `struct sector_hdr_data` and `struct kv_hdr_data`.
abbrev pub kv_sector_hdr_size : ℕ
kv_sector_hdr_size = 16

abbrev pub kv_hdr_data_size : ℕ
kv_hdr_data_size = 24

abbrev pub kv_magic_offset : ℕ
kv_magic_offset = 4

abbrev pub sector_store_status_num : ℕ
sector_store_status_num = 4

abbrev pub sector_dirty_status_num : ℕ
sector_dirty_status_num = 4
