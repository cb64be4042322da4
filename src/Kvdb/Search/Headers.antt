-- ===== src/Kvdb/Search/Headers.antt =====
-- What `read_sector_info` of flashdb/fdb_kvdb.c gives of a sector's header, without its pairs.
use flashdb_rs.Prelude.{
  ℕ, zero, suc, ◌%◌, ◌≡◌, refl, sym, subst, ◌⊎◌, inl, inr, Bool, true, false, Bool-cases,
  Option-cases, Option, none, some, List, [], ◌∷◌, arith, ◌==◌, ◌&&◌, ◌||◌, if◌then◌else◌, take,
  drop, set, get_elem?,
}
use flashdb_rs.Prelude.Bytes.{field}
use flashdb_rs.Types.{
  FdbErr, no_err, init_failed, StoreStatus, DirtyStatus, data_unused, store_status, dirty_status,
  write_gran,
}
use flashdb_rs.Flash.{Driver, flash_read}
use flashdb_rs.Status.{get_status}
use flashdb_rs.Kvdb.{Kv, KvSecInfo, Kvdb, sector_not_combined, kv_sector_magic_word}
use flashdb_rs.Kvdb.Walk.Ring.{IsCombined}
use flashdb_rs.Kvdb.Cache.{find_slot, release, update_sector_cache, get_sector_from_cache}
use flashdb_rs.Kvdb.Search.{
  cache_header, check_kv_sector_header, read_kv_sector_header, read_kv_sector_info,
}

-- The value of `combined` is one that is defined, in each entry of the cache.
abbrev pub AreCombined : List KvSecInfo → Type 0
AreCombined [] = Unit {0}
AreCombined (entry ∷ table) = IsCombined entry.combined × AreCombined table

set-AreCombined :
    (table : List KvSecInfo) (i : ℕ) (entry : KvSecInfo)
    → AreCombined table
    → IsCombined entry.combined
    → AreCombined (set table i entry)
set-AreCombined [] i entry h k = h
set-AreCombined (e ∷ table) zero entry h k = (k, h.1)
set-AreCombined (e ∷ table) (suc i) entry h k = (h.0, set-AreCombined table i entry h.1 k)

get_elem?-IsCombined :
    (table : List KvSecInfo) (i : ℕ) (entry : KvSecInfo)
    → AreCombined table
    → get_elem? table i ≡ some entry
    → IsCombined entry.combined
get_elem?-IsCombined [] i entry h e = absurd (ground arith)
get_elem?-IsCombined (e ∷ table) zero entry h f =
    let same : e ≡ entry = cc in subst (λ (x : KvSecInfo). IsCombined x.combined) same h.0
get_elem?-IsCombined (e ∷ table) (suc i) entry h f = get_elem?-IsCombined table i entry h.1 f

release-AreCombined :
    (table : List KvSecInfo) (i : ℕ) → AreCombined table → AreCombined (release table i)
unfolding release
release-AreCombined table i h = elim (Option-cases (get_elem? table i)) [
  | inl out ↦ rw (out, release) h
  | inr (entry, e) ↦
      rw (e, release)
        (set-AreCombined table i (record entry { addr = data_unused }) h
          (get_elem?-IsCombined table i entry h e))
]

-- The branches of `update_sector_cache`.
slot-AreCombined :
    (table : List KvSecInfo) (sector : KvSecInfo)
    → AreCombined table
    → IsCombined sector.combined
    → (ok : Bool) (slot : ℕ ⊎ Option ℕ)
    → AreCombined (elim slot [
      | inl i ↦ if ok then set table i sector else release table i
      | inr none ↦ table
      | inr (some i) ↦ if ok then set table i sector else table
    ])
slot-AreCombined table sector h k true (inl i) = set-AreCombined table i sector h k
slot-AreCombined table sector h k false (inl i) = release-AreCombined table i h
slot-AreCombined table sector h k ok (inr none) = h
slot-AreCombined table sector h k true (inr (some i)) = set-AreCombined table i sector h k
slot-AreCombined table sector h k false (inr (some i)) = h

pub update_sector_cache-AreCombined :
    (table : List KvSecInfo) (sector : KvSecInfo)
    → AreCombined table
    → IsCombined sector.combined
    → AreCombined (update_sector_cache table sector)
unfolding update_sector_cache
update_sector_cache-AreCombined table sector h k =
    slot-AreCombined table sector h k sector.check_ok (find_slot sector.addr 0 none table)

get_sector_from_cache-IsCombined :
    (table : List KvSecInfo) (addr : ℕ) (sector : KvSecInfo)
    → AreCombined table
    → get_sector_from_cache table addr ≡ some sector
    → (sector.addr ≡ addr) × IsCombined sector.combined
unfolding get_sector_from_cache
get_sector_from_cache-IsCombined [] addr sector h e = absurd (ground arith)
get_sector_from_cache-IsCombined (entry ∷ table) addr sector h e =
    elim (Bool-cases (entry.addr == addr)) [
      | inl hit ↦
          let same : entry ≡ sector = ground arith in
          subst (λ (x : KvSecInfo). (x.addr ≡ addr) × IsCombined x.combined) same
            (ground arith, h.0)
      | inr miss ↦ get_sector_from_cache-IsCombined table addr sector h.1 (ground arith)
    ]

module _ {S : Type 0} (d : Driver S) (t : Kvdb) (s : S) (addr : ℕ) (kv : Kv)
    (sector : KvSecInfo) where
  -- The call returns the information on the sector at `addr`. The device and the database's
  -- description are as they were, and so is the property of the cache.
  abbrev pub IsRead : Option (FdbErr × KvSecInfo × Kvdb × S) → Type 0
  IsRead o =
      (e : FdbErr) × (found : KvSecInfo) × (t2 : Kvdb) × (o ≡ some (e, found, t2, s))
      × (found.addr ≡ addr)
      × IsCombined found.combined
      × (t2.db ≡ t.db)
      × AreCombined t2.sector_cache_table

  cache_header-keeps :
      (header : KvSecInfo)
      → AreCombined t.sector_cache_table
      → IsCombined header.combined
      → let r = cache_header d t header in
        (r.0.addr ≡ header.addr)
        × (r.0.combined ≡ header.combined)
        × (r.1.db ≡ t.db)
        × AreCombined r.1.sector_cache_table
  unfolding cache_header
  cache_header-keeps header h k =
      elim (Option-cases (get_sector_from_cache t.sector_cache_table header.addr)) [
        | inr (cached, e) ↦ rw (e, cache_header) (refl, refl, refl, h)
        | inl e ↦
            let new : KvSecInfo = record header { empty_kv = 0xffff_ffff; remain = 0 } in
            rw (e, cache_header)
              (refl, refl, refl, update_sector_cache-AreCombined t.sector_cache_table new h k)
      ]

  check_kv_sector_header-IsRead :
      (buf : List ℕ)
      → AreCombined t.sector_cache_table
      → IsRead (check_kv_sector_header d buf t s addr kv sector false)
  unfolding check_kv_sector_header
  check_kv_sector_header-IsRead buf h =
      let magic = field 4 4 buf in
      let combined = field 8 4 buf in
      let named = record sector {
        store = StoreStatus.unused;
        dirty = DirtyStatus.unused;
        addr = addr;
        magic = magic;
      } in
      let header = record named {
        check_ok = true;
        combined = combined;
        store = store_status (get_status write_gran (take 1 buf) 4);
        dirty = dirty_status (get_status write_gran (take 1 (drop 1 buf)) 4);
      } in
      let failed = record named { check_ok = false; combined = sector_not_combined } in
      elim (Bool-cases (
        (magic == kv_sector_magic_word)
        && ((combined == sector_not_combined) || (combined == 0)))) [
          | inr bad ↦
              (init_failed, failed, t, rw (bad, check_kv_sector_header), refl, refl, refl, h)
          | inl good ↦
              let whole : IsCombined combined = ground arith in
              let (at, same, db, table) = cache_header-keeps header h whole in
              let r = cache_header d t header in
              (
                no_err,
                r.0,
                r.1,
                rw (good, check_kv_sector_header),
                at,
                subst IsCombined (sym same) whole,
                db,
                table,
              )
        ]

  pub read_kv_sector_info-IsRead :
      AreCombined t.sector_cache_table
      → addr % t.db.sec_size ≡ 0
      → IsRead (read_kv_sector_info d t s addr kv sector false)
  unfolding read_kv_sector_info read_kv_sector_header
  read_kv_sector_info-IsRead h aligned =
      let buf = (flash_read d t.db.mode s addr 16).1 in
      elim (Option-cases (get_sector_from_cache t.sector_cache_table addr)) [
        | inl miss ↦
            let (e, found, t2, read, at, good, db, table) = check_kv_sector_header-IsRead buf h in
            (e, found, t2, rw (aligned, read_kv_sector_info, miss) read, at, good, db, table)
        | inr (cached, hit) ↦
            let (at, good) =
              get_sector_from_cache-IsCombined t.sector_cache_table addr cached h hit in
            (no_err, cached, t, rw (aligned, read_kv_sector_info, hit), at, good, refl, h)
      ]
