-- ===== src/Kvdb/Search.antt =====
-- Finding and getting a pair: `read_sector_info`, `kv_iterator`, `find_kv` and `get_kv` of
-- flashdb/fdb_kvdb.c.
pub mod Found
pub mod Headers
pub mod Ends
pub mod LongKey
use flashdb_rs.Prelude.{
  ℕ, zero, suc, ◌+◌, ◌-◌, ◌/◌, ◌%◌, ◌^◌, Bool, true, false, Option, none, some, List, [], ◌∷◌, ◌++◌,
  ◌==◌, ltb, leb, not, ◌&&◌, ◌||◌, if◌then◌else◌, length, take, drop,
}
use flashdb_rs.Prelude.Bytes.{field, sub32}
use flashdb_rs.Types.{
  FdbErr, no_err, read_err, init_failed, is_ok, Blob, KvStatus, StoreStatus, DirtyStatus, kv_index,
  store_index, store_status, dirty_status, write_gran, failed_addr, u32,
}
use flashdb_rs.Flash.{Driver, flash_read}
use flashdb_rs.Status.{get_status}
use flashdb_rs.FreeSpace.{continue_ff_addr}
use flashdb_rs.Kvdb.{
  Kv, KvSecInfo, Kvdb, kv_sector_hdr_size, kv_sector_magic_word, sector_not_combined,
  sector_combined, sector_store_status_num, sector_dirty_status_num,
}
use flashdb_rs.Kvdb.Cache.{
  update_sector_cache, get_sector_from_cache, update_kv_cache, get_kv_from_cache, starts_with,
}
use flashdb_rs.Kvdb.Walk.{get_next_kv_addr, get_next_kv_sector_addr}
use flashdb_rs.Kvdb.Pairs.{read_kv, traverse_kvs}

module _ {S : Type 0} (d : Driver S) where
  -- The rest of a sector in use, once its pairs were counted: where the erased bytes begin.
  unfoldable pub check_clean : Kvdb → KvSecInfo → S → Option KvSecInfo
  check_clean t sector s =
      elim (continue_ff_addr d t.db.mode s sector.empty_kv (u32 (sector.addr + t.db.sec_size))) [
        | none ↦ none
        | some ff_addr ↦ some (
            if sector.empty_kv == ff_addr then sector else record sector {
              empty_kv = ff_addr;
              remain = sub32 t.db.sec_size (sub32 ff_addr sector.addr);
            })
      ]

  -- The sector's room, by a walk over its pairs; `kv` is what the local object holds.
  unfoldable pub measure : Kvdb → Kv → KvSecInfo → S → Option (FdbErr × KvSecInfo × S)
  measure t kv sector s =
      let first = u32 (sector.addr + kv_sector_hdr_size) in
      let room = t.db.sec_size - kv_sector_hdr_size in
      let fresh = record sector { remain = 0; empty_kv = first } in
      elim sector.store [
        | StoreStatus.empty ↦ some (no_err, record fresh { remain = room }, s)
        | StoreStatus.using ↦
            elim (traverse_kvs d t (suc t.db.sec_size) (record kv { start = first })
              (record fresh { remain = room }) s) [
                | none ↦ none
                | some (e, sector, s) ↦ elim (check_clean t sector s) [
                  | none ↦ none
                  | some sector ↦ some (e, sector, s)
                ]
              ]
        | _ ↦ some (no_err, fresh, s)
      ]

  -- What is cached after a header was read without its pairs.
  unfoldable pub cache_header : Kvdb → KvSecInfo → KvSecInfo × Kvdb
  cache_header t sector = elim (get_sector_from_cache t.sector_cache_table sector.addr) [
    | some cached ↦ (sector, t)
    | none ↦
        let sector = record sector { empty_kv = failed_addr; remain = 0 } in
        (sector, record t { sector_cache_table = update_sector_cache t.sector_cache_table sector })
  ]

  -- What `read_sector_info` makes of a header; `sector` is what the structure holds before the call.
  unfoldable pub check_kv_sector_header :
      List ℕ → Kvdb → S → ℕ → Kv → KvSecInfo → Bool → Option (FdbErr × KvSecInfo × Kvdb × S)
  check_kv_sector_header buf t s addr kv sector traversal =
      let magic = field 4 4 buf in
      let combined = field 8 4 buf in
      let named = record sector {
        store = StoreStatus.unused;
        dirty = DirtyStatus.unused;
        addr = addr;
        magic = magic;
      } in
      let header = record named {
        check_ok = true;
        combined = combined;
        store = store_status (get_status write_gran (take 1 buf) sector_store_status_num);
        dirty = dirty_status (get_status write_gran (take 1 (drop 1 buf)) sector_dirty_status_num);
      } in
      let good =
        (magic == kv_sector_magic_word)
        && ((combined == sector_not_combined) || (combined == sector_combined)) in
      elim good [
        | false ↦
            some
              (init_failed, record named { check_ok = false; combined = sector_not_combined }, t, s)
        | true ↦ elim traversal [
          | false ↦ let (sector, t) = cache_header t header in some (no_err, sector, t, s)
          | true ↦ elim (measure t kv header s) [
            | none ↦ none
            | some (e, sector, s) ↦
                let table = update_sector_cache t.sector_cache_table sector in
                some (e, sector, record t { sector_cache_table = table }, s)
          ]
        ]
      ]

  -- `read_sector_info` past the cache
  unfoldable pub read_kv_sector_header :
      Kvdb → S → ℕ → Kv → KvSecInfo → Bool → Option (FdbErr × KvSecInfo × Kvdb × S)
  read_kv_sector_header t s addr kv sector traversal =
      check_kv_sector_header (flash_read d t.db.mode s addr kv_sector_hdr_size).1 t s addr kv sector
        traversal

  -- `read_sector_info`
  unfoldable pub read_kv_sector_info :
      Kvdb → S → ℕ → Kv → KvSecInfo → Bool → Option (FdbErr × KvSecInfo × Kvdb × S)
  read_kv_sector_info t s addr kv sector traversal = elim (addr % t.db.sec_size == 0) [
    | false ↦ none
    | true ↦ elim (get_sector_from_cache t.sector_cache_table addr) [
      | none ↦ read_kv_sector_header t s addr kv sector traversal
      | some cached ↦ elim (not traversal || not (cached.empty_kv == failed_addr)) [
        | true ↦ some (no_err, cached, t, s)
        | false ↦ read_kv_sector_header t s addr kv sector traversal
      ]
    ]
  ]

  -- The callback of `kv_iterator`: whether to stop, and what it changed. `none` is a failed
  -- assertion or a loop out of fuel.
  abbrev pub KvCallback : Type 0 → Type 0
  KvCallback A = Kv → A → Kvdb → S → Option (Bool × A × Kvdb × S)

  module _ {A : Type 0} (callback : KvCallback A) where
    -- The inner loop of `kv_iterator`, with its rounds as fuel.
    unfoldable pub kv_loop : KvSecInfo → ℕ → Kv → A → Kvdb → S → Option (Bool × Kv × A × Kvdb × S)
    kv_loop sector zero kv a t s = none
    kv_loop sector (suc fuel) kv a t s = elim (read_kv d t kv s) [
      | none ↦ none
      | some (_, kv, s) ↦ elim (callback kv a t s) [
        | none ↦ none
        | some (stop, a, t, s) ↦ elim stop [
          | true ↦ some (true, kv, a, t, s)
          | false ↦ elim (get_next_kv_addr d t s sector kv) [
            | none ↦ none
            | some next ↦ elim (next == failed_addr) [
              | true ↦ some (false, record kv { start = next }, a, t, s)
              | false ↦ kv_loop sector fuel (record kv { start = next }) a t s
            ]
          ]
        ]
      ]
    ]

    -- What `kv_iterator` does at one sector whose header was read.
    unfoldable pub kv_sector :
        FdbErr → KvSecInfo → Kv → A → Kvdb → S → Option (Bool × Kv × A × Kvdb × S)
    kv_sector e sector kv a t s =
        let has_kv =
          (store_index sector.store == store_index StoreStatus.using)
          || (store_index sector.store == store_index StoreStatus.full) in
        elim (is_ok e && has_kv) [
          | false ↦ some (false, kv, a, t, s)
          | true ↦
              kv_loop sector (suc t.db.sec_size)
                (record kv { start = u32 (sector.addr + kv_sector_hdr_size) }) a t s
        ]

    -- Its outer loop, with its rounds as fuel.
    unfoldable pub kv_sector_loop :
        ℕ → ℕ → ℕ → KvSecInfo → Kv → A → Kvdb → S → Option (Kv × A × Kvdb × S)
    kv_sector_loop zero sec_addr traversed_len sector kv a t s = none
    kv_sector_loop (suc fuel) sec_addr traversed_len sector kv a t s =
        let traversed_len = u32 (traversed_len + t.db.sec_size) in
        elim (read_kv_sector_info t s sec_addr kv sector false) [
          | none ↦ none
          | some (e, sector, t, s) ↦ elim (kv_sector e sector kv a t s) [
            | none ↦ none
            | some (stop, kv, a, t, s) ↦
                let next = get_next_kv_sector_addr t sector traversed_len in
                elim (stop || (next == failed_addr)) [
                  | true ↦ some (kv, a, t, s)
                  | false ↦ kv_sector_loop fuel next traversed_len sector kv a t s
                ]
          ]
        ]

    -- `kv_iterator` with a callback that is not NULL
    unfoldable pub kv_iterator : KvSecInfo → Kv → A → Kvdb → S → Option (Kv × A × Kvdb × S)
    kv_iterator sector kv a t s =
        kv_sector_loop (suc (t.db.max_size / t.db.sec_size)) t.db.oldest_addr 0 sector kv a t s

  -- The key has no NUL; its length is `strlen`.
  unfoldable pub find_kv_cb : List ℕ → KvCallback Bool
  find_kv_cb key kv find_ok t s =
      if not (length key == kv.name_len)
      then some (false, find_ok, t, s)
      else if (kv.crc_is_ok && (kv_index kv.status == kv_index KvStatus.write))
          && starts_with key kv.name
      then some (true, true, t, s)
      else some (false, find_ok, t, s)

  unfoldable pub find_kv_no_cache :
      KvSecInfo → List ℕ → Kv → Kvdb → S → Option (Bool × Kv × Kvdb × S)
  find_kv_no_cache sector key kv t s = elim (kv_iterator (find_kv_cb key) sector kv false t s) [
    | none ↦ none
    | some (kv, find_ok, t, s) ↦ some (find_ok, kv, t, s)
  ]

  unfoldable pub find_kv : KvSecInfo → List ℕ → Kv → Kvdb → S → Option (Bool × Kv × Kvdb × S)
  find_kv sector key kv t s =
      let (hit, cached) = get_kv_from_cache d t s key in
      elim hit [
        | some addr ↦ elim (read_kv d cached (record kv { start = addr }) s) [
          | none ↦ none
          | some (_, kv, s) ↦ some (true, kv, cached, s)
        ]
        | none ↦ elim (find_kv_no_cache sector key kv cached s) [
          | none ↦ none
          | some (find_ok, kv, t, s) ↦
              let table = update_kv_cache t.kv_cache_table key kv.start in
              some (find_ok, kv, (if find_ok then record t { kv_cache_table = table } else t), s)
        ]
      ]

  -- `fdb_kv_get_obj`: no object where the database is not initialized or the key is not found.
  unfoldable pub fdb_kv_get_obj : KvSecInfo → List ℕ → Kv → Kvdb → S → Option (Option Kv × Kvdb × S)
  fdb_kv_get_obj sector key kv t s = elim t.db.init_ok [
    | false ↦ some (none, t, s)
    | true ↦ elim (find_kv sector key kv t s) [
      | none ↦ none
      | some (find_ok, kv, t, s) ↦ some (if find_ok then some kv else none, t, s)
    ]
  ]

  -- `get_kv` into a buffer: the length, the bytes that were read and `value_len`.
  unfoldable pub get_kv :
      KvSecInfo → List ℕ → Kv → ℕ → Kvdb → S → Option (ℕ × List ℕ × ℕ × Kvdb × S)
  get_kv sector key kv buf_len t s = elim (find_kv sector key kv t s) [
    | none ↦ none
    | some (find_ok, kv, t, s) ↦
        let read_len = if ltb kv.value_len buf_len then kv.value_len else buf_len in
        some (
          if find_ok
          then (read_len, (flash_read d t.db.mode s kv.value read_len).1, kv.value_len, t, s)
          else (0, [], 0, t, s))
  ]

  -- `fdb_kv_get_blob`
  unfoldable pub fdb_kv_get_blob :
      KvSecInfo → List ℕ → Kv → Blob → Kvdb → S → Option (ℕ × Blob × Kvdb × S)
  fdb_kv_get_blob sector key kv blob t s = elim t.db.init_ok [
    | false ↦ some (0, blob, t, s)
    | true ↦ elim (get_kv sector key kv blob.size t s) [
      | none ↦ none
      | some (read_len, bytes, value_len, t, s) ↦ some (
        read_len,
        record blob { buf = bytes ++ drop (length bytes) blob.buf; len = value_len },
        t,
        s,
      )
    ]
  ]

-- `__is_print`, where the difference is taken at `unsigned int`.
abbrev is_print : ℕ → Bool
is_print ch = ltb ((ch + 2 ^ 32 - 32) % 2 ^ 32) 95

unfoldable pub fdb_is_str : List ℕ → Bool
fdb_is_str [] = true
fdb_is_str (ch ∷ value) = if is_print ch then fdb_is_str value else false

-- `fdb_kv_to_blob`
unfoldable pub fdb_kv_to_blob : Kv → Blob → Blob
fdb_kv_to_blob kv blob = record blob { meta_addr = kv.start; addr = kv.value; len = kv.value_len }
