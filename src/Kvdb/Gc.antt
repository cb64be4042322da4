-- ===== src/Kvdb/Gc.antt =====
-- Garbage collection of flashdb/fdb_kvdb.c, and `new_kv`, which collects when there is no room.
use flashdb_rs.Prelude.{
  ℕ, zero, suc, ◌+◌, ◌%◌, ◌^◌, Bool, true, false, Option, none, some, ◌==◌, ltb, leb, ◌&&◌, ◌||◌,
  if◌then◌else◌, ◌>>=◌,
}
use flashdb_rs.Types.{
  is_ok, KvStatus, StoreStatus, DirtyStatus, kv_index, dirty_index, failed_addr, u32, wg_align,
}
use flashdb_rs.Flash.{Driver}
use flashdb_rs.Status.{write_status}
use flashdb_rs.Kvdb.{
  Kv, KvSecInfo, Kvdb, kv_hdr_data_size, kv_sector_hdr_size, sector_not_combined,
  sector_dirty_status_num,
}
use flashdb_rs.Kvdb.Walk.{get_next_kv_addr, get_next_kv_sector_addr}
use flashdb_rs.Kvdb.Pairs.{read_kv}
use flashdb_rs.Kvdb.Search.{read_kv_sector_info}
use flashdb_rs.Kvdb.Alloc.{kv_sector_iterator, alloc_kv, format_kv_sector, gc_empty_sec_threshold}
use flashdb_rs.Kvdb.Delete.{sector_dirty_offset, move_kv}

-- What the local structures hold before they are written.
module _ {S : Type 0} (d : Driver S) (local_sector : KvSecInfo) (local_kv : Kv) where
  -- The state is the number of empty sectors and the address of one.
  unfoldable pub gc_check_cb : KvSecInfo → ℕ × ℕ → Kvdb → S → Option (Bool × (ℕ × ℕ) × Kvdb × S)
  gc_check_cb sector (empty_sec_num, empty_sec_addr) t s =
      if sector.check_ok
      then some (false, ((empty_sec_num + 1) % 2 ^ 64, sector.addr), t, s)
      else some (false, (empty_sec_num, empty_sec_addr), t, s)

  -- The loop of `do_gc` over the pairs of a sector, with its rounds as fuel.
  unfoldable pub gc_loop : KvSecInfo → ℕ → Kv → Kvdb → S → Option (Kvdb × S)
  gc_loop sector zero kv t s = none
  gc_loop sector (suc fuel) kv t s = elim (read_kv d t kv s) [
    | none ↦ none
    | some (_, kv, s) ↦
        let alive =
          kv.crc_is_ok
          && ((kv_index kv.status == kv_index KvStatus.write)
              || (kv_index kv.status == kv_index KvStatus.pre_delete)) in
        let moved : Option (Kvdb × S) =
          if alive
          then (do (_, t, s) ← move_kv d local_sector local_kv kv t s; some (t, s))
          else some (t, s) in
        elim moved [
          | none ↦ none
          | some (t, s) ↦ elim (get_next_kv_addr d t s sector kv) [
            | none ↦ none
            | some next ↦ elim (next == failed_addr) [
              | true ↦ some (t, s)
              | false ↦ gc_loop sector fuel (record kv { start = next }) t s
            ]
          ]
        ]
  ]

  -- What `do_gc` does at a sector with garbage. The state is `last_gc_sec_addr`.
  unfoldable pub collect_sector : ℕ → KvSecInfo → ℕ → Kvdb → S → Option (Bool × ℕ × Kvdb × S)
  collect_sector setting_free_size sector last_gc_sec_addr t s = do
    let (_, s) =
        write_status d t.db.mode (u32 (sector.addr + sector_dirty_offset)) sector_dirty_status_num
          (dirty_index DirtyStatus.gc) true s
    let first = record local_kv { start = u32 (sector.addr + kv_sector_hdr_size) }
    (t, s) ← gc_loop sector (suc t.db.sec_size) first t s
    (_, t, s) ← format_kv_sector d sector.addr sector_not_combined t s
    let next = get_next_kv_sector_addr t sector 0
    let t : Kvdb = record t { db = record (t.db) { oldest_addr = next } }
    (e, last, t, s) ← read_kv_sector_info d t s last_gc_sec_addr local_kv local_sector true
    some (is_ok e && ltb setting_free_size last.remain, sector.addr, t, s)

  unfoldable pub do_gc : ℕ → KvSecInfo → ℕ → Kvdb → S → Option (Bool × ℕ × Kvdb × S)
  do_gc setting_free_size sector last_gc_sec_addr t s =
      let dirty = dirty_index sector.dirty in
      let has_garbage =
        (dirty == dirty_index DirtyStatus.dirty) || (dirty == dirty_index DirtyStatus.gc) in
      if sector.check_ok && has_garbage
      then collect_sector setting_free_size sector last_gc_sec_addr t s
      else some (false, last_gc_sec_addr, t, s)

  unfoldable pub gc_collect_by_free_size : ℕ → Kvdb → S → Option (Kvdb × S)
  gc_collect_by_free_size free_size t s = do
    (sector, (empty_sec_num, empty_sec_addr), t, s) ←
        kv_sector_iterator d StoreStatus.empty gc_check_cb false local_kv local_sector (0, 0) t s
    (_, _, t, s) ←
        if leb empty_sec_num gc_empty_sec_threshold
        then kv_sector_iterator d StoreStatus.unused (do_gc free_size) false local_kv sector
            empty_sec_addr t s
        else some (sector, empty_sec_addr, t, s)
    some (record t { gc_request = false }, s)

  unfoldable pub gc_collect : Kvdb → S → Option (Kvdb × S)
  gc_collect t s = gc_collect_by_free_size t.db.max_size t s

  -- `new_kv`: one retry after a collection.
  unfoldable pub new_kv : KvSecInfo → ℕ → Kvdb → S → Option (ℕ × KvSecInfo × Kvdb × S)
  new_kv sector kv_size t s = do
    (empty_kv, sector, t, s) ← alloc_kv d local_kv sector kv_size t s
    elim ((empty_kv == failed_addr) && t.gc_request) [
      | false ↦ some (empty_kv, sector, t, s)
      | true ↦ do
        (t, s) ← gc_collect_by_free_size kv_size t s
        (empty_kv, sector, t, s) ← alloc_kv d local_kv sector kv_size t s
        let t = if empty_kv == failed_addr then record t { gc_request = false } else t
        some (empty_kv, sector, t, s)
    ]

  unfoldable pub new_kv_ex : KvSecInfo → ℕ → ℕ → Kvdb → S → Option (ℕ × KvSecInfo × Kvdb × S)
  new_kv_ex sector key_len buf_len t s =
      new_kv sector (kv_hdr_data_size + wg_align key_len + wg_align buf_len) t s
