-- ===== src/Kvdb/Alloc.antt =====
-- Room for a new pair: `sector_iterator`, `update_sec_status`, `format_sector` and `alloc_kv` of
-- flashdb/fdb_kvdb.c.
pub mod Status
pub mod Format
use flashdb_rs.Prelude.{
  ℕ, zero, suc, ◌+◌, ◌-◌, ◌/◌, ◌%◌, ◌^◌, Bool, true, false, Option, none, some, List, [], ◌∷◌, ◌++◌,
  ◌==◌, ltb, not, ◌&&◌, ◌||◌, if◌then◌else◌, replicate,
}
use flashdb_rs.Prelude.Bytes.{le_bytes}
use flashdb_rs.Types.{
  FdbErr, no_err, is_ok, StoreStatus, DirtyStatus, store_index, dirty_index, write_gran,
  failed_addr, data_unused, u32,
}
use flashdb_rs.Flash.{Driver, flash_write, flash_erase}
use flashdb_rs.Status.{set_status, write_status}
use flashdb_rs.Kvdb.{
  Kv, KvSecInfo, Kvdb, kv_name_max, kv_hdr_data_size, kv_sector_magic_word, sector_not_combined,
  sector_store_status_num, sector_dirty_status_num,
}
use flashdb_rs.Kvdb.Cache.{update_sector_cache, update_sector_status_store_cache}
use flashdb_rs.Kvdb.Walk.{get_next_kv_sector_addr}
use flashdb_rs.Kvdb.Search.{read_kv_sector_info}

-- `FDB_SEC_REMAIN_THRESHOLD`
abbrev pub sec_remain_threshold : ℕ
sec_remain_threshold = kv_hdr_data_size + kv_name_max

-- `FDB_GC_EMPTY_SEC_THRESHOLD`
abbrev pub gc_empty_sec_threshold : ℕ
gc_empty_sec_threshold = 1

-- The header that `format_sector` writes.
abbrev pub sector_hdr_bytes : ℕ → List ℕ
sector_hdr_bytes combined_value =
    let store = (set_status write_gran sector_store_status_num (store_index StoreStatus.empty)).0 in
    let dirty = (set_status write_gran sector_dirty_status_num (dirty_index DirtyStatus.clean)).0 in
    store
    ++ (dirty
        ++ (replicate 2 0xff
            ++ (le_bytes 4 kv_sector_magic_word
                ++ (le_bytes 4 combined_value ++ le_bytes 4 data_unused))))

module _ {S : Type 0} (d : Driver S) where
  -- `sector_iterator`; `kv` is what the local object of `read_sector_info` holds.
  module _ {A : Type 0} (status : StoreStatus)
      (callback : KvSecInfo → A → Kvdb → S → Option (Bool × A × Kvdb × S)) (traversal_kv : Bool)
      (kv : Kv) where
    -- The body of the loop.
    unfoldable pub visit_kv_sector :
        ℕ → KvSecInfo → A → Kvdb → S → Option (Bool × KvSecInfo × A × Kvdb × S)
    visit_kv_sector sec_addr sector a t s =
        elim (read_kv_sector_info d t s sec_addr kv sector false) [
          | none ↦ none
          | some (_, sector, t, s) ↦
              elim ((store_index status == store_index StoreStatus.unused)
                || (store_index status == store_index sector.store)) [
                  | false ↦ some (false, sector, a, t, s)
                  | true ↦
                      elim (if traversal_kv
                        then read_kv_sector_info d t s sec_addr kv sector true
                        else some (no_err, sector, t, s)) [
                          | none ↦ none
                          | some (_, sector, t, s) ↦ elim (callback sector a t s) [
                            | none ↦ none
                            | some (stop, a, t, s) ↦ some (stop, sector, a, t, s)
                          ]
                        ]
                ]
        ]

    -- The loop, with its rounds as fuel.
    unfoldable pub kv_sectors_loop :
        ℕ → ℕ → ℕ → KvSecInfo → A → Kvdb → S → Option (KvSecInfo × A × Kvdb × S)
    kv_sectors_loop zero sec_addr traversed_len sector a t s = none
    kv_sectors_loop (suc fuel) sec_addr traversed_len sector a t s =
        let traversed_len = u32 (traversed_len + t.db.sec_size) in
        elim (visit_kv_sector sec_addr sector a t s) [
          | none ↦ none
          | some (stop, sector, a, t, s) ↦
              let next = get_next_kv_sector_addr t sector traversed_len in
              elim (stop || (next == failed_addr)) [
                | true ↦ some (sector, a, t, s)
                | false ↦ kv_sectors_loop fuel next traversed_len sector a t s
              ]
        ]

    unfoldable pub kv_sector_iterator : KvSecInfo → A → Kvdb → S → Option (KvSecInfo × A × Kvdb × S)
    kv_sector_iterator sector a t s =
        kv_sectors_loop (suc (t.db.max_size / t.db.sec_size)) t.db.oldest_addr 0 sector a t s

  -- The numbers of empty sectors and of sectors in use.
  unfoldable pub sector_statistics_cb :
      KvSecInfo → ℕ × ℕ → Kvdb → S → Option (Bool × (ℕ × ℕ) × Kvdb × S)
  sector_statistics_cb sector (empty_sector, using_sector) t s =
      if sector.check_ok && (store_index sector.store == store_index StoreStatus.empty)
      then some (false, ((empty_sector + 1) % 2 ^ 64, using_sector), t, s)
      else if sector.check_ok && (store_index sector.store == store_index StoreStatus.using)
      then some (false, (empty_sector, (using_sector + 1) % 2 ^ 64), t, s)
      else some (false, (empty_sector, using_sector), t, s)

  -- The state is `*empty_kv`.
  unfoldable pub alloc_kv_cb : ℕ → KvSecInfo → ℕ → Kvdb → S → Option (Bool × ℕ × Kvdb × S)
  alloc_kv_cb kv_size sector empty_kv t s =
      let dirty = dirty_index sector.dirty in
      let allowed =
        (dirty == dirty_index DirtyStatus.clean)
        || ((dirty == dirty_index DirtyStatus.dirty) && not t.gc_request) in
      if (sector.check_ok && ltb (kv_size + sec_remain_threshold) sector.remain) && allowed
      then some (true, sector.empty_kv, t, s)
      else some (false, empty_kv, t, s)

  -- A search for room among the sectors with a status, unless it was found already.
  unfoldable pub alloc_in :
      StoreStatus → Kv → ℕ → KvSecInfo → ℕ → Kvdb → S → Option (KvSecInfo × ℕ × Kvdb × S)
  alloc_in status kv kv_size sector empty_kv t s =
      kv_sector_iterator status (alloc_kv_cb kv_size) true kv sector empty_kv t s

  -- `alloc_kv`: the address, and the sector that it leaves.
  unfoldable pub alloc_kv : Kv → KvSecInfo → ℕ → Kvdb → S → Option (ℕ × KvSecInfo × Kvdb × S)
  alloc_kv kv sector kv_size t s =
      elim (kv_sector_iterator StoreStatus.unused sector_statistics_cb false kv sector (0, 0) t s) [
        | none ↦ none
        | some (sector, (empty_sector, using_sector), t, s) ↦
            elim (if ltb 0 using_sector
              then alloc_in StoreStatus.using kv kv_size sector failed_addr t s
              else some (sector, failed_addr, t, s)) [
                | none ↦ none
                | some (sector, empty_kv, t, s) ↦
                    elim (ltb 0 empty_sector && (empty_kv == failed_addr)) [
                      | false ↦ some (empty_kv, sector, t, s)
                      | true ↦ elim (ltb gc_empty_sec_threshold empty_sector || t.gc_request) [
                        | false ↦ some (empty_kv, sector, record t { gc_request = true }, s)
                        | true ↦ elim (alloc_in StoreStatus.empty kv kv_size sector empty_kv t s) [
                          | none ↦ none
                          | some (sector, empty_kv, t, s) ↦ some (empty_kv, sector, t, s)
                        ]
                      ]
                    ]
              ]
      ]

  -- `update_sec_status`; the Boolean is `*is_full`, where it is written.
  unfoldable pub update_kv_sec_status : KvSecInfo → ℕ → Bool → Kvdb → S → FdbErr × Bool × Kvdb × S
  update_kv_sec_status sector new_kv_len is_full t s =
      let write = λ (status : StoreStatus).
        write_status d t.db.mode sector.addr sector_store_status_num (store_index status) true s in
      let cached =
        λ (status : StoreStatus). update_sector_status_store_cache t sector.addr status in
      let left = (sector.remain + 2 ^ 64 - new_kv_len) % 2 ^ 64 in
      elim sector.store [
        | StoreStatus.empty ↦
            let (e, s) = write StoreStatus.using in (e, is_full, cached StoreStatus.using, s)
        | StoreStatus.using ↦
            elim (ltb sector.remain sec_remain_threshold || ltb left sec_remain_threshold) [
              | true ↦ let (e, s) = write StoreStatus.full in (e, true, cached StoreStatus.full, s)
              | false ↦ (no_err, false, t, s)
            ]
        | _ ↦ (no_err, is_full, t, s)
      ]

  -- `format_sector`
  unfoldable pub format_kv_sector : ℕ → ℕ → Kvdb → S → Option (FdbErr × Kvdb × S)
  format_kv_sector addr combined_value t s =
      let forgotten : KvSecInfo = record {
        check_ok = false;
        store = StoreStatus.unused;
        dirty = DirtyStatus.unused;
        addr = addr;
        magic = 0;
        combined = 0;
        remain = 0;
        empty_kv = failed_addr;
      } in
      let table = update_sector_cache t.sector_cache_table forgotten in
      elim (addr % t.db.sec_size == 0) [
        | false ↦ none
        | true ↦
            let (e, s) = flash_erase d t.db.mode addr t.db.sec_size s in
            elim (is_ok e) [
              | false ↦ some (e, t, s)
              | true ↦
                  let (e, s) =
                    flash_write d t.db.mode addr (sector_hdr_bytes combined_value) true s in
                  some (e, record t { sector_cache_table = table }, s)
            ]
      ]
