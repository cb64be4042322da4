-- ===== src/Kvdb/Cache.antt =====
-- The caches of flashdb/fdb_kvdb.c: the sectors' information, and the addresses of pairs by the
-- checksum of their names.
pub mod Sectors
pub mod Pairs
use flashdb_rs.Prelude.{
  ℕ, suc, ◌+◌, ◌-◌, ◌/◌, ◌%◌, ◌^◌, Bool, true, false, Option, none, some, ◌⊎◌, inl, inr, List, [],
  ◌∷◌, ◌==◌, ltb, leb, not, ◌&&◌, ◌||◌, if◌then◌else◌, length, set, get_elem?,
}
use flashdb_rs.Prelude.Bytes.{sub32}
use flashdb_rs.Types.{StoreStatus, data_unused, u32}
use flashdb_rs.Crc.{calc_crc32}
use flashdb_rs.Flash.{Driver, flash_read}
use flashdb_rs.Kvdb.{
  Kvdb, KvSecInfo, KvCacheNode, kv_cache_table_size, kv_name_max, kv_hdr_data_size,
}

-- The loop of `update_sector_cache`: the entry of the sector, or else the last free one.
unfoldable pub find_slot : ℕ → ℕ → Option ℕ → List KvSecInfo → ℕ ⊎ Option ℕ
find_slot addr i empty_index [] = inr empty_index
find_slot addr i empty_index (entry ∷ table) =
    if entry.addr == addr
    then inl i
    else find_slot addr (suc i) (if entry.addr == data_unused then some i else empty_index) table

-- The entry at an index is given up.
unfoldable pub release : List KvSecInfo → ℕ → List KvSecInfo
release table i = elim (get_elem? table i) [
  | none ↦ table
  | some entry ↦ set table i (record entry { addr = data_unused })
]

unfoldable pub update_sector_cache : List KvSecInfo → KvSecInfo → List KvSecInfo
update_sector_cache table sector = elim (find_slot sector.addr 0 none table) [
  | inl i ↦ if sector.check_ok then set table i sector else release table i
  | inr none ↦ table
  | inr (some i) ↦ if sector.check_ok then set table i sector else table
]

unfoldable pub get_sector_from_cache : List KvSecInfo → ℕ → Option KvSecInfo
get_sector_from_cache [] sec_addr = none
get_sector_from_cache (entry ∷ table) sec_addr =
    if entry.addr == sec_addr then some entry else get_sector_from_cache table sec_addr

-- What the source does through the pointer that `get_sector_from_cache` returns.
unfoldable pub change_sector : (KvSecInfo → KvSecInfo) → List KvSecInfo → ℕ → List KvSecInfo
change_sector f [] sec_addr = []
change_sector f (entry ∷ table) sec_addr =
    if entry.addr == sec_addr then f entry ∷ table else entry ∷ change_sector f table sec_addr

unfoldable pub update_sector_empty_addr_cache : Kvdb → ℕ → ℕ → Kvdb
update_sector_empty_addr_cache t sec_addr empty_addr =
    let update = λ (sector : KvSecInfo). record sector {
      empty_kv = empty_addr;
      remain = sub32 t.db.sec_size (sub32 empty_addr sector.addr);
    } in
    record t { sector_cache_table = change_sector update t.sector_cache_table sec_addr }

unfoldable pub update_sector_status_store_cache : Kvdb → ℕ → StoreStatus → Kvdb
update_sector_status_store_cache t sec_addr status =
    let update = λ (sector : KvSecInfo). record sector { store = status } in
    record t { sector_cache_table = change_sector update t.sector_cache_table sec_addr }

-- The checksum that stands for a name.
abbrev pub name_crc_of : List ℕ → ℕ
name_crc_of name = calc_crc32 0 name / 2 ^ 16 % 2 ^ 16

-- The loop of `update_kv_cache`: whether it returned, the free entry, the least active one, and
-- the table.
unfoldable pub age_nodes :
    (name_crc addr i : ℕ)
    → (empty_index min_index : Option ℕ) → (min_activity : ℕ) → List KvCacheNode
    → Bool × Option ℕ × Option ℕ × List KvCacheNode
age_nodes name_crc addr i empty_index min_index min_activity [] =
    (false, empty_index, min_index, [])
age_nodes name_crc addr i empty_index min_index min_activity (node ∷ table) =
    elim (node.name_crc == name_crc) [
      | true ↦
          let node : KvCacheNode =
            if addr == data_unused
            then record node { addr = data_unused; active = 0 }
            else record node { addr = addr } in
          (true, empty_index, min_index, node ∷ table)
      | false ↦
          let unused = node.addr == data_unused in
          let active = node.active - 1 in
          let least = not unused && ltb active min_activity in
          let idle = addr == data_unused in
          let empty =
            if idle || not unused
            then empty_index
            else elim empty_index [ none ↦ some i | some j ↦ some j ] in
          let (hit, empty, min, table) =
            age_nodes name_crc addr (suc i) empty
              (if idle then min_index else if least then some i else min_index)
              (if idle then min_activity else if least then active else min_activity) table in
          (
            hit,
            empty,
            min,
            (if idle || unused then node else record node { active = active }) ∷ table,
          )
    ]

-- `update_kv_cache`
unfoldable pub update_kv_cache : List KvCacheNode → List ℕ → ℕ → List KvCacheNode
update_kv_cache table name addr =
    let name_crc = name_crc_of name in
    let fresh : KvCacheNode = record {
      name_crc = name_crc;
      active = kv_cache_table_size;
      addr = addr;
    } in
    let (hit, empty, min, table) = age_nodes name_crc addr 0 none none 0xffff table in
    elim hit [
      | true ↦ table
      | false ↦ elim empty [
        | some i ↦ set table i fresh
        | none ↦ elim min [ some i ↦ set table i fresh | none ↦ table ]
      ]
    ]

-- `!strncmp(name, saved_name, name_len)`, where the name has no NUL.
unfoldable pub starts_with : List ℕ → List ℕ → Bool
starts_with [] saved = true
starts_with (c ∷ name) [] = false
starts_with (c ∷ name) (b ∷ saved) = (c == b) && starts_with name saved

module _ {S : Type 0} (d : Driver S) where
  -- The loop of `get_kv_from_cache`; `name_crc` is that of the name.
  unfoldable pub lookup_kv : Kvdb → S → List ℕ → ℕ → List KvCacheNode → Option ℕ × List KvCacheNode
  lookup_kv t s name name_crc [] = (none, [])
  lookup_kv t s name name_crc (node ∷ table) =
      let (found, rest) = lookup_kv t s name name_crc table in
      let saved_name =
        (flash_read d t.db.mode s (u32 (node.addr + kv_hdr_data_size)) kv_name_max).1 in
      let active =
        if leb (0xffff - kv_cache_table_size) node.active
        then 0xffff
        else node.active + kv_cache_table_size in
      if not (node.addr == data_unused)
        && (node.name_crc == name_crc)
        && starts_with name saved_name
      then (some node.addr, record node { active = active } ∷ table)
      else (found, node ∷ rest)

  unfoldable pub get_kv_from_cache : Kvdb → S → List ℕ → Option ℕ × Kvdb
  get_kv_from_cache t s name =
      let (found, table) = lookup_kv t s name (name_crc_of name) t.kv_cache_table in
      (found, record t { kv_cache_table = table })
