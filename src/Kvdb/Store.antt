-- ===== src/Kvdb/Store.antt =====
-- Setting and deleting pairs: `set_kv`, `fdb_kv_del`, `fdb_kv_set_blob`, `fdb_kv_set` and
-- `fdb_kv_set_default` of flashdb/fdb_kvdb.c.
pub mod Added
pub mod Replaced
use flashdb_rs.Prelude.{
  ℕ, zero, suc, ◌+◌, ◌/◌, true, false, Option, none, some, List, [], ◌∷◌, ◌==◌, ltb, ◌&&◌,
  if◌then◌else◌, length, map, ◌>>=◌,
}
use flashdb_rs.Types.{
  FdbErr, no_err, init_failed, saved_full, is_ok, data_unused, failed_addr, u32, wg_align,
}
use flashdb_rs.Flash.{Driver}
use flashdb_rs.Kvdb.{
  Kv, KvSecInfo, Kvdb, KvCacheNode, DefaultKvNode, kv_hdr_data_size, sector_not_combined,
}
use flashdb_rs.Kvdb.Search.{find_kv}
use flashdb_rs.Kvdb.Alloc.{format_kv_sector}
use flashdb_rs.Kvdb.Delete.{c_string, del_kv}
use flashdb_rs.Kvdb.Gc.{gc_collect_by_free_size, new_kv_ex}
use flashdb_rs.Kvdb.Create.{create_kv_blob}

-- What the local structures hold before they are written.
module _ {S : Type 0} (d : Driver S) (local_sector : KvSecInfo) (local_kv : Kv) where
  -- `create_kv_blob` in `&db->cur_sector`
  unfoldable pub create_in_cur_sector : List ℕ → List ℕ → ℕ → Kvdb → S → Option (FdbErr × Kvdb × S)
  create_in_cur_sector key value len t s = do
    (e, cur_sector, t, s) ← create_kv_blob d local_sector local_kv t.cur_sector key value len t s
    some (e, record t { cur_sector = cur_sector }, s)

  -- `set_kv` once there is room: the old pair is prepared for deletion, the new one is created, and
  -- the old one is deleted.
  unfoldable pub replace_kv : List ℕ → List ℕ → ℕ → Kvdb → S → Option (FdbErr × Kvdb × S)
  replace_kv key value len t s = do
    let key_arg : Option (List ℕ) = some key
    (kv_is_found, cur_kv, t, s) ← find_kv d local_sector key t.cur_kv t s
    let t : Kvdb = record t { cur_kv = cur_kv }
    (e, t, s) ←
        if kv_is_found
        then del_kv d local_sector local_kv key_arg (some cur_kv) false t s
        else some (no_err, t, s)
    (e, t, s) ← if is_ok e then create_in_cur_sector key value len t s else some (e, t, s)
    elim (kv_is_found && is_ok e) [
      | true ↦ del_kv d local_sector local_kv key_arg (some cur_kv) true t s
      | false ↦ some (e, t, s)
    ]

  -- `set_kv`; no value is NULL.
  unfoldable pub set_kv : List ℕ → Option (List ℕ) → ℕ → Kvdb → S → Option (FdbErr × Kvdb × S)
  set_kv key none len t s = del_kv d local_sector local_kv (some key) none true t s
  set_kv key (some value) len t s = do
    (addr, cur_sector, t, s) ← new_kv_ex d local_sector local_kv t.cur_sector (length key) len t s
    let t : Kvdb = record t { cur_sector = cur_sector }
    elim (addr == failed_addr) [
      | true ↦ some (saved_full, t, s)
      | false ↦ do
        (e, t, s) ← replace_kv key value len t s
        (t, s) ←
            if t.gc_request
            then gc_collect_by_free_size d local_sector local_kv
                (kv_hdr_data_size + wg_align (length key) + wg_align len) t s
            else some (t, s)
        some (e, t, s)
    ]

  unfoldable pub fdb_kv_del : List ℕ → Kvdb → S → Option (FdbErr × Kvdb × S)
  fdb_kv_del key t s =
      if t.db.init_ok
      then del_kv d local_sector local_kv (some key) none true t s
      else some (init_failed, t, s)

  -- `fdb_kv_set_blob`; no value is a NULL buffer of the blob.
  unfoldable pub fdb_kv_set_blob :
      List ℕ → Option (List ℕ) → ℕ → Kvdb → S → Option (FdbErr × Kvdb × S)
  fdb_kv_set_blob key value size t s =
      if t.db.init_ok then set_kv key value size t s else some (init_failed, t, s)

  -- `fdb_kv_set` of a string, which has no NUL.
  unfoldable pub fdb_kv_set : List ℕ → Option (List ℕ) → Kvdb → S → Option (FdbErr × Kvdb × S)
  fdb_kv_set key none t s = fdb_kv_del key t s
  fdb_kv_set key (some value) t s = fdb_kv_set_blob key (some value) (length value) t s

  -- The loop that formats all sectors, with its rounds as fuel.
  unfoldable pub format_all : ℕ → ℕ → Kvdb → S → Option (FdbErr × Kvdb × S)
  format_all zero addr t s = none
  format_all (suc fuel) addr t s = elim (ltb addr t.db.max_size) [
    | false ↦ some (no_err, t, s)
    | true ↦ elim (format_kv_sector d addr sector_not_combined t s) [
      | none ↦ none
      | some (e, t, s) ↦ elim (is_ok e) [
        | false ↦ some (e, t, s)
        | true ↦ format_all fuel (u32 (addr + t.db.sec_size)) t s
      ]
    ]
  ]

  -- The loop that creates the default pairs. What `create_kv_blob` returns is not looked at.
  unfoldable pub create_defaults : List DefaultKvNode → Kvdb → S → Option (Kvdb × S)
  create_defaults [] t s = some (t, s)
  create_defaults (node ∷ kvs) t s =
      let string = length (c_string (length node.value) node.value) in
      let value_len = u32 (if node.value_len == 0 then string else node.value_len) in
      let sector : KvSecInfo = record local_sector { empty_kv = failed_addr } in
      elim (create_kv_blob d local_sector local_kv sector node.key node.value value_len t s) [
        | none ↦ none
        | some (_, _, t, s) ↦ create_defaults kvs t s
      ]

  unfoldable pub fdb_kv_set_default : Kvdb → S → Option (FdbErr × Kvdb × S)
  fdb_kv_set_default t s = do
    let forget = λ (node : KvCacheNode). record node { addr = data_unused }
    let t : Kvdb = record t { kv_cache_table = map forget t.kv_cache_table }
    (e, t, s) ← format_all (suc (t.db.max_size / t.db.sec_size)) 0 t s
    (t, s) ← if is_ok e then create_defaults t.default_kvs t s else some (t, s)
    some (e, record t { db = record (t.db) { oldest_addr = 0 } }, s)
