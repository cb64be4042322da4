-- ===== src/Kvdb/Load.antt =====
-- Opening, recovering and configuring a key-value database: `_fdb_kv_load` with its callbacks,
-- `fdb_kvdb_control`, `fdb_kvdb_init` and `fdb_kvdb_deinit` of flashdb/fdb_kvdb.c.
use flashdb_rs.Prelude.{
  ℕ, zero, suc, ◌+◌, ◌/◌, ◌%◌, ◌^◌, Bool, true, false, Option, none, some, List, ◌==◌, ltb, not,
  ◌&&◌, ◌||◌, if◌then◌else◌, take, map, ◌>>=◌,
}
use flashdb_rs.Types.{
  FdbErr, no_err, read_err, is_ok, DbType, KvStatus, StoreStatus, DirtyStatus, kv_index,
  store_index, dirty_index, data_unused, failed_addr, Db,
}
use flashdb_rs.Flash.{Driver}
use flashdb_rs.Status.{write_status}
use flashdb_rs.Init.{init_ex, init_finish, deinit}
use flashdb_rs.Kvdb.{
  Kv, KvSecInfo, Kvdb, KvCacheNode, DefaultKvNode, kv_status_num, sector_not_combined,
}
use flashdb_rs.Kvdb.Cache.{update_kv_cache}
use flashdb_rs.Kvdb.Search.{kv_iterator}
use flashdb_rs.Kvdb.Alloc.{kv_sector_iterator, format_kv_sector, gc_empty_sec_threshold}
use flashdb_rs.Kvdb.Delete.{move_kv}
use flashdb_rs.Kvdb.Gc.{gc_collect}
use flashdb_rs.Kvdb.Store.{fdb_kv_set_default}

-- `fdb_kvdb_control`'s commands, with what they read through `arg`.
pub data KvCommand : Type 0 where
  set_sec_size set_max_size : ℕ → KvCommand
  get_sec_size set_lock set_unlock : KvCommand
  set_file_mode set_not_format : Bool → KvCommand

-- An option that must be set before the initialization.
unfoldable pub configure_kv : Kvdb → Db → Option (Option ℕ × Kvdb)
configure_kv t db = if t.db.init_ok then none else some (none, record t { db = db })

-- What is written through `arg`, if anything. The assertions on `init_ok` stop the program.
unfoldable pub fdb_kvdb_control : KvCommand → Kvdb → Option (Option ℕ × Kvdb)
fdb_kvdb_control command t = elim command [
  | set_sec_size size ↦ configure_kv t (record (t.db) { sec_size = size })
  | get_sec_size ↦ some (some t.db.sec_size, t)
  | set_lock ↦ some (none, t)
  | set_unlock ↦ some (none, t)
  | set_file_mode on ↦ some (none, t)
  | set_max_size size ↦ configure_kv t (record (t.db) { max_size = size })
  | set_not_format on ↦ configure_kv t (record (t.db) { not_formatable = on })
]

unfoldable pub fdb_kvdb_deinit : Kvdb → Kvdb
fdb_kvdb_deinit t = record t { db = deinit t.db }

-- The caches as `fdb_kvdb_init` sets them.
unfoldable pub clear_caches : Kvdb → Kvdb
clear_caches t =
    let forget = λ (node : KvCacheNode). record node { addr = data_unused } in
    let free = λ (sector : KvSecInfo). record sector {
      check_ok = false;
      empty_kv = failed_addr;
      addr = data_unused;
    } in
    record t {
      sector_cache_table = map free t.sector_cache_table;
      kv_cache_table = map forget t.kv_cache_table;
    }

-- What the local structures hold before they are written.
module _ {S : Type 0} (d : Driver S) (local_sector : KvSecInfo) (local_kv : Kv) where
  -- The state is the oldest address and the last sector's status.
  unfoldable pub check_oldest_addr_cb :
      KvSecInfo → ℕ × StoreStatus → Kvdb → S → Option (Bool × (ℕ × StoreStatus) × Kvdb × S)
  check_oldest_addr_cb sector (sector_oldest_addr, last_sector_status) t s =
      let status = store_index sector.store in
      let first =
        (store_index last_sector_status == store_index StoreStatus.empty)
        && ((status == store_index StoreStatus.full)
            || (status == store_index StoreStatus.using)) in
      some (false, ((if first then sector.addr else sector_oldest_addr), sector.store), t, s)

  -- The state is `check_failed_count`.
  unfoldable pub check_kv_sec_hdr_cb : KvSecInfo → ℕ → Kvdb → S → Option (Bool × ℕ × Kvdb × S)
  check_kv_sec_hdr_cb sector failed_count t s = elim sector.check_ok [
    | true ↦ some (false, failed_count, t, s)
    | false ↦
        let count = (failed_count + 1) % 2 ^ 64 in
        elim t.db.not_formatable [
          | true ↦ some (true, count, t, s)
          | false ↦ do
            (_, t, s) ← format_kv_sector d sector.addr sector_not_combined t s
            some (false, count, t, s)
        ]
  ]

  unfoldable pub check_and_recovery_gc_cb :
      KvSecInfo → Unit {0} → Kvdb → S → Option (Bool × Unit {0} × Kvdb × S)
  check_and_recovery_gc_cb sector a t s =
      elim (sector.check_ok && (dirty_index sector.dirty == dirty_index DirtyStatus.gc)) [
        | false ↦ some (false, a, t, s)
        | true ↦ do
          (t, s) ← gc_collect d local_sector local_kv (record t { gc_request = true }) s
          some (false, a, t, s)
      ]

  unfoldable pub check_and_recovery_kv_cb :
      Kv → Unit {0} → Kvdb → S → Option (Bool × Unit {0} × Kvdb × S)
  check_and_recovery_kv_cb kv a t s =
      let status = kv_index kv.status in
      elim (kv.crc_is_ok && (status == kv_index KvStatus.pre_delete)) [
        | true ↦ do
          (e, t, s) ← move_kv d local_sector local_kv kv t s
          some (not (is_ok e), a, t, s)
        | false ↦ elim (status == kv_index KvStatus.pre_write) [
          | true ↦
              let (_, s) =
                write_status d t.db.mode kv.start kv_status_num (kv_index KvStatus.err_hdr) true
                  s in
              some (true, a, t, s)
          | false ↦
              let table = update_kv_cache t.kv_cache_table (take kv.name_len kv.name) kv.start in
              let alive = kv.crc_is_ok && (status == kv_index KvStatus.write) in
              some (false, a, (if alive then record t { kv_cache_table = table } else t), s)
        ]
      ]

  -- `__retry`: the pairs are checked until no collection is asked for. Nothing bounds the rounds;
  -- they are the fuel.
  unfoldable pub recover_kvs : ℕ → Kvdb → S → Option (Kvdb × S)
  recover_kvs zero t s = none
  recover_kvs (suc rounds) t s =
      elim (kv_iterator d check_and_recovery_kv_cb local_sector local_kv tt t s) [
        | none ↦ none
        | some (_, _, t, s) ↦ elim t.gc_request [
          | false ↦ some (t, s)
          | true ↦ elim (gc_collect d local_sector local_kv t s) [
            | none ↦ none
            | some (t, s) ↦ recover_kvs rounds t s
          ]
        ]
      ]

  -- `_fdb_kv_load`
  unfoldable pub kv_load : ℕ → Kvdb → S → Option (FdbErr × Kvdb × S)
  kv_load rounds t s = do
    let t : Kvdb = record t { in_recovery_check = true }
    (sector, check_failed_count, t, s) ←
        kv_sector_iterator d StoreStatus.unused check_kv_sec_hdr_cb false local_kv local_sector 0 t
          s
    elim (t.db.not_formatable && ltb 0 check_failed_count) [
      | true ↦ some (read_err, t, s)
      | false ↦ do
        (_, t, s) ←
            if check_failed_count == t.db.max_size / t.db.sec_size
            then fdb_kv_set_default d local_sector local_kv t s
            else some (no_err, t, s)
        (_, _, t, s) ←
            kv_sector_iterator d StoreStatus.unused check_and_recovery_gc_cb false local_kv sector
              tt t s
        (t, s) ← recover_kvs rounds t s
        some (no_err, record t { in_recovery_check = false }, s)
    ]

  -- `fdb_kvdb_init` behind `_fdb_init_ex`. The defaults are those of the argument.
  unfoldable pub init_kvs : ℕ → List DefaultKvNode → Kvdb → S → Option (FdbErr × Kvdb × S)
  init_kvs rounds default_kv t s = do
    let t : Kvdb = record t {
      gc_request = false;
      in_recovery_check = false;
      default_kvs = default_kv;
      db = record (t.db) { oldest_addr = 0 };
    }
    (_, (sector_oldest_addr, _), t, s) ←
        kv_sector_iterator d StoreStatus.unused check_oldest_addr_cb false local_kv local_sector
          (0, StoreStatus.unused) t s
    let t : Kvdb = record t { db = record (t.db) { oldest_addr = sector_oldest_addr } }
    elim (ltb gc_empty_sec_threshold (t.db.max_size / t.db.sec_size)) [
      | true ↦ kv_load rounds (clear_caches t) s
      | false ↦ none
    ]

  -- `fdb_kvdb_init`; the rounds are those of the recovery.
  unfoldable pub fdb_kvdb_init : ℕ → List DefaultKvNode → Kvdb → S → Option (FdbErr × Kvdb × S)
  fdb_kvdb_init rounds default_kv t s = do
    (e, db) ← init_ex DbType.kv t.db
    (result, t, s) ←
        if is_ok e
        then init_kvs rounds default_kv (record t { db = db }) s
        else some (e, record t { db = db }, s)
    some (result, record t { db = init_finish result t.db }, s)
