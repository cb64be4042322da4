-- ===== src/Kvdb/Iterate.antt =====
-- Going through all pairs: `fdb_kv_iterator_init`, `fdb_kv_iterate`, `fdb_kvdb_check` of
-- flashdb/fdb_kvdb.c; and `fdb_kv_get`.
pub mod Sector
pub mod Steps
pub mod Yields
use flashdb_rs.Prelude.{
  ℕ, zero, suc, ◌+◌, ◌/◌, ◌%◌, ◌^◌, Bool, true, false, Option, none, some, List, ◌==◌, ltb, not,
  ◌&&◌, ◌||◌, if◌then◌else◌, take, ◌>>=◌,
}
use flashdb_rs.Types.{
  FdbErr, init_failed, is_ok, Blob, KvStatus, StoreStatus, kv_index, store_index, failed_addr, u32,
}
use flashdb_rs.Flash.{Driver}
use flashdb_rs.Init.{fdb_blob_make}
use flashdb_rs.Kvdb.{Kv, KvSecInfo, Kvdb, kv_sector_hdr_size}
use flashdb_rs.Kvdb.Walk.{get_next_kv_addr, get_next_kv_sector_addr}
use flashdb_rs.Kvdb.Pairs.{read_kv}
use flashdb_rs.Kvdb.Search.{read_kv_sector_info, fdb_is_str, fdb_kv_get_blob}

-- `struct fdb_kv_iterator`
pub record KvIterator : Type 0 where
  pub curr_kv : Kv
  pub iterated_cnt : ℕ
  pub iterated_obj_bytes : ℕ
  pub iterated_value_bytes : ℕ
  pub sector_addr : ℕ
  pub traversed_len : ℕ

unfoldable pub fdb_kv_iterator_init : Kvdb → KvIterator → KvIterator
fdb_kv_iterator_init t itr = record {
  curr_kv = record (itr.curr_kv) { start = 0 };
  iterated_cnt = 0;
  iterated_obj_bytes = 0;
  iterated_value_bytes = 0;
  sector_addr = t.db.oldest_addr;
  traversed_len = 0;
}

-- `FDB_STR_KV_VALUE_MAX_SIZE`
abbrev pub str_kv_value_max_size : ℕ
str_kv_value_max_size = 128

-- The test that a sector has pairs.
abbrev pub has_kv : KvSecInfo → Bool
has_kv sector =
    (store_index sector.store == store_index StoreStatus.using)
    || (store_index sector.store == store_index StoreStatus.full)

module _ {S : Type 0} (d : Driver S) where
  -- The inner loop of `fdb_kv_iterate`, with its rounds as fuel: whether a pair was found, and the
  -- last one that was read.
  unfoldable pub next_kv_loop : KvSecInfo → ℕ → Kv → Kvdb → S → Option (Bool × Kv × S)
  next_kv_loop sector zero kv t s = none
  next_kv_loop sector (suc fuel) kv t s = elim (read_kv d t kv s) [
    | none ↦ none
    | some (_, kv, s) ↦ elim ((kv_index kv.status == kv_index KvStatus.write) && kv.crc_is_ok) [
      | true ↦ some (true, kv, s)
      | false ↦ elim (get_next_kv_addr d t s sector kv) [
        | none ↦ none
        | some next ↦ elim (next == failed_addr) [
          | true ↦ some (false, record kv { start = next }, s)
          | false ↦ next_kv_loop sector fuel (record kv { start = next }) t s
        ]
      ]
    ]
  ]

  -- A sector with pairs: the search goes on behind the last pair, or starts at the first one.
  unfoldable pub next_in_sector : KvSecInfo → Kv → Kvdb → S → Option (Bool × Kv × S)
  next_in_sector sector kv t s = do
    start ←
        if kv.start == 0
        then some (u32 (sector.addr + kv_sector_hdr_size))
        else get_next_kv_addr d t s sector kv
    elim (not (kv.start == 0) && (start == failed_addr)) [
      | true ↦ some (false, record kv { start = start }, s)
      | false ↦ next_kv_loop sector (suc t.db.sec_size) (record kv { start = start }) t s
    ]

  -- The outer loop, with its rounds as fuel. The sector is the local structure.
  unfoldable pub iterate_loop :
      ℕ → KvSecInfo → KvIterator → Kvdb → S → Option (Bool × KvIterator × Kvdb × S)
  iterate_loop zero sector itr t s = none
  iterate_loop (suc fuel) sector itr t s =
      elim (read_kv_sector_info d t s itr.sector_addr itr.curr_kv sector false) [
        | none ↦ none
        | some (e, sector, t, s) ↦
            elim (if is_ok e && has_kv sector
              then next_in_sector sector itr.curr_kv t s
              else some (false, itr.curr_kv, s)) [
                | none ↦ none
                | some (found, kv, s) ↦
                    let len = u32 (itr.traversed_len + t.db.sec_size) in
                    let next = get_next_kv_sector_addr t sector len in
                    let on = record itr {
                      curr_kv = record kv { start = 0 };
                      traversed_len = len;
                      sector_addr = next;
                    } in
                    elim found [
                      | true ↦ some (
                        true,
                        record itr {
                          curr_kv = kv;
                          iterated_cnt = u32 (itr.iterated_cnt + 1);
                          iterated_obj_bytes = (itr.iterated_obj_bytes + kv.len) % 2 ^ 64;
                          iterated_value_bytes = (itr.iterated_value_bytes + kv.value_len) % 2 ^ 64;
                        },
                        t,
                        s,
                      )
                      | false ↦ elim (next == failed_addr) [
                        | true ↦ some (false, on, t, s)
                        | false ↦ iterate_loop fuel sector on t s
                      ]
                    ]
              ]
      ]

  unfoldable pub fdb_kv_iterate :
      KvSecInfo → KvIterator → Kvdb → S → Option (Bool × KvIterator × Kvdb × S)
  fdb_kv_iterate sector itr t s = iterate_loop (suc (t.db.max_size / t.db.sec_size)) sector itr t s

  -- The inner loop of `fdb_kvdb_check`, with its rounds as fuel.
  unfoldable pub check_kv_loop : KvSecInfo → ℕ → Kv → Kvdb → S → Option (FdbErr × Kv × S)
  check_kv_loop sector zero kv t s = none
  check_kv_loop sector (suc fuel) kv t s = elim (read_kv d t kv s) [
    | none ↦ none
    | some (e, kv, s) ↦ elim (get_next_kv_addr d t s sector kv) [
      | none ↦ none
      | some next ↦ elim ((next == failed_addr) || not (is_ok e)) [
        | true ↦ some (e, record kv { start = next }, s)
        | false ↦ check_kv_loop sector fuel (record kv { start = next }) t s
      ]
    ]
  ]

  -- Its outer loop, with its rounds as fuel.
  unfoldable pub check_loop :
      (fuel sec_addr traversed_len : ℕ) → KvSecInfo → Kv → Kvdb → S → Option (FdbErr × Kvdb × S)
  check_loop zero sec_addr traversed_len sector kv t s = none
  check_loop (suc fuel) sec_addr traversed_len sector kv t s =
      let traversed_len = u32 (traversed_len + t.db.sec_size) in
      elim (read_kv_sector_info d t s sec_addr kv sector false) [
        | none ↦ none
        | some (e, sector, t, s) ↦
            let first = record kv { start = u32 (sector.addr + kv_sector_hdr_size) } in
            elim (if is_ok e && has_kv sector
              then check_kv_loop sector (suc t.db.sec_size) first t s
              else some (e, kv, s)) [
                | none ↦ none
                | some (e, kv, s) ↦
                    let next = get_next_kv_sector_addr t sector traversed_len in
                    elim (is_ok e) [
                      | false ↦ some (e, t, s)
                      | true ↦ elim (next == failed_addr) [
                        | true ↦ some (e, t, s)
                        | false ↦ check_loop fuel next traversed_len sector kv t s
                      ]
                    ]
              ]
      ]

  unfoldable pub fdb_kvdb_check : KvSecInfo → Kv → Kvdb → S → Option (FdbErr × Kvdb × S)
  fdb_kvdb_check sector kv t s =
      if t.db.init_ok
      then check_loop (suc (t.db.max_size / t.db.sec_size)) t.db.oldest_addr 0 sector kv t s
      else some (init_failed, t, s)

  -- `fdb_kv_get`: the string, or NULL. The buffer is the static one.
  unfoldable pub fdb_kv_get :
      KvSecInfo → Kv → List ℕ → List ℕ → Blob → Kvdb → S → Option (Option (List ℕ) × Kvdb × S)
  fdb_kv_get sector kv buffer key blob t s = do
    (get_size, blob, t, s) ←
        fdb_kv_get_blob d sector key kv (fdb_blob_make blob buffer str_kv_value_max_size) t s
    let value = take get_size blob.buf
    some ((if ltb 0 get_size && fdb_is_str value then some value else none), t, s)
