-- ===== src/Kvdb/Delete.antt =====
-- Deleting and moving a pair: `del_kv` and `move_kv` of flashdb/fdb_kvdb.c.
pub mod Dirty
pub mod Deleted
pub mod Marked
pub mod Copied
pub mod Moved
pub mod ReadBack
use flashdb_rs.Prelude.{
  ℕ, zero, suc, ◌+◌, ◌-◌, Bool, true, false, Option, none, some, List, [], ◌∷◌, ◌==◌, ltb, not,
  ◌&&◌, if◌then◌else◌, take, replicate, ◌>>=◌,
}
use flashdb_rs.Types.{
  FdbErr, no_err, saved_full, kv_name_err, is_ok, KvStatus, DirtyStatus, kv_index, dirty_index,
  data_unused, failed_addr, u32, align_down, wg_align,
}
use flashdb_rs.Flash.{Driver, flash_read, flash_write}
use flashdb_rs.Status.{read_status, write_status}
use flashdb_rs.Kvdb.{
  Kv, KvSecInfo, Kvdb, kv_name_max, kv_hdr_data_size, kv_magic_offset, kv_status_num,
  sector_dirty_status_num,
}
use flashdb_rs.Kvdb.Cache.{change_sector, update_kv_cache, update_sector_empty_addr_cache}
use flashdb_rs.Kvdb.Search.{find_kv, find_kv_no_cache}
use flashdb_rs.Kvdb.Alloc.{alloc_kv, update_kv_sec_status}

-- `SECTOR_DIRTY_OFFSET`
abbrev pub sector_dirty_offset : ℕ
sector_dirty_offset = 1

-- The local `struct fdb_kv kv = { .status = FDB_KV_UNUSED }`.
abbrev pub unused_kv : Kv
unused_kv = record {
  status = KvStatus.unused;
  crc_is_ok = false;
  name_len = 0;
  len = 0;
  value_len = 0;
  name = replicate kv_name_max 0;
  start = 0;
  value = 0;
}

-- `strncpy` of `n` bytes into a zeroed buffer, read as a string: up to the first NUL.
unfoldable pub c_string : ℕ → List ℕ → List ℕ
c_string zero name = []
c_string (suc n) [] = []
c_string (suc n) (c ∷ name) = if c == 0 then [] else c ∷ c_string n name

module _ {S : Type 0} (d : Driver S) where
  -- The end of `del_kv`: the sector's dirty status, on flash and in the cache.
  unfoldable pub mark_sector_dirty : ℕ → FdbErr → Kvdb → S → FdbErr × Kvdb × S
  mark_sector_dirty start result t s =
      let sec_addr = align_down start t.db.sec_size in
      let dirty_status_addr = u32 (sec_addr + sector_dirty_offset) in
      let status = read_status d t.db.mode s dirty_status_addr sector_dirty_status_num in
      let mark = λ (sector : KvSecInfo). record sector { dirty = DirtyStatus.dirty } in
      elim (is_ok result && (status == dirty_index DirtyStatus.clean)) [
        | false ↦ (result, t, s)
        | true ↦
            let (e, s) =
              write_status d t.db.mode dirty_status_addr sector_dirty_status_num
                (dirty_index DirtyStatus.dirty) true s in
            let table = change_sector mark t.sector_cache_table sec_addr in
            (e, record t { sector_cache_table = table }, s)
      ]

  -- `del_kv` once the pair is known.
  unfoldable pub del_found : Option (List ℕ) → Kv → Bool → Kvdb → S → FdbErr × Kvdb × S
  del_found key old_kv complete_del t s = elim complete_del [
    | false ↦
        let (e, s) =
          write_status d t.db.mode old_kv.start kv_status_num (kv_index KvStatus.pre_delete) false
            s in
        mark_sector_dirty old_kv.start e (record t { last_is_complete_del = true }) s
    | true ↦
        let (e, s) =
          write_status d t.db.mode old_kv.start kv_status_num (kv_index KvStatus.deleted) true s in
        let name : List ℕ = elim key [ none ↦ take old_kv.name_len old_kv.name | some key ↦ key ] in
        let table =
          if not t.last_is_complete_del && is_ok e
          then update_kv_cache t.kv_cache_table name data_unused
          else t.kv_cache_table in
        mark_sector_dirty old_kv.start e
          (record t { kv_cache_table = table; last_is_complete_del = false }) s
  ]

  -- The loop of `move_kv`, 32 bytes at a time, with its rounds as fuel.
  unfoldable pub copy_kv : Kvdb → (from to kv_len fuel len : ℕ) → FdbErr → S → FdbErr × S
  copy_kv t from to kv_len zero len result s = (result, s)
  copy_kv t from to kv_len (suc fuel) len result s = elim (ltb len kv_len) [
    | false ↦ (result, s)
    | true ↦
        let size = if ltb (len + 32) kv_len then 32 else kv_len - len in
        let source = u32 (from + kv_magic_offset + len) in
        let buf = (flash_read d t.db.mode s source (wg_align size)).1 in
        let target = u32 (to + kv_magic_offset + len) in
        let (e, s) = flash_write d t.db.mode target (take size buf) true s in
        copy_kv t from to kv_len fuel (len + size) e s
  ]

  -- The pair's copy, and what the caches are told of it. A pair that was read has a length of at
  -- least its header's.
  unfoldable pub move_data : Kv → ℕ → KvSecInfo → Kvdb → S → FdbErr × Kvdb × S
  move_data kv kv_addr sector t s =
      let (_, _, t, s) = update_kv_sec_status d sector kv.len false t s in
      let mode = t.db.mode in
      let (_, s) =
        write_status d mode kv_addr kv_status_num (kv_index KvStatus.pre_write) false s in
      let kv_len = kv.len - kv_magic_offset in
      let (e, s) = copy_kv t kv.start kv_addr kv_len (suc kv_len) 0 no_err s in
      let (_, s) = write_status d mode kv_addr kv_status_num (kv_index KvStatus.write) true s in
      let end = u32 (kv_addr + kv_hdr_data_size + wg_align kv.name_len + wg_align kv.value_len) in
      let t = update_sector_empty_addr_cache t (align_down kv_addr t.db.sec_size) end in
      let table = update_kv_cache t.kv_cache_table (take kv.name_len kv.name) kv_addr in
      (e, record t { kv_cache_table = table }, s)

  -- What the local structures hold before they are written.
  module _ (local_sector : KvSecInfo) (local_kv : Kv) where
    -- `del_kv`; no key is NULL, no pair is a NULL `old_kv`. One of the two is there.
    unfoldable pub del_kv :
        Option (List ℕ) → Option Kv → Bool → Kvdb → S → Option (FdbErr × Kvdb × S)
    del_kv key (some old_kv) complete_del t s = some (del_found key old_kv complete_del t s)
    del_kv none none complete_del t s = none
    del_kv (some key) none complete_del t s = elim (find_kv d local_sector key unused_kv t s) [
      | none ↦ none
      | some (found, kv, t, s) ↦
          some (if found then del_found (some key) kv complete_del t s else (kv_name_err, t, s))
    ]

    -- `move_kv`
    unfoldable pub move_kv : Kv → Kvdb → S → Option (FdbErr × Kvdb × S)
    move_kv kv t s = do
      let is_write = kv_index kv.status == kv_index KvStatus.write
      let is_deleted = kv_index kv.status == kv_index KvStatus.pre_delete
      (_, t, s) ← if is_write then del_kv none (some kv) false t s else some (no_err, t, s)
      (kv_addr, sector, t, s) ← alloc_kv d local_kv local_sector kv.len t s
      let name = c_string kv.name_len kv.name
      elim (kv_addr == failed_addr) [
        | true ↦ some (saved_full, t, s)
        | false ↦ do
          (found, _, t, s) ←
              if t.in_recovery_check && is_deleted
              then find_kv_no_cache d local_sector name local_kv t s
              else some (false, local_kv, t, s)
          let (result, t, s) = if found then (no_err, t, s) else move_data kv kv_addr sector t s
          (_, t, s) ← del_kv none (some kv) true t s
          some (result, t, s)
      ]
