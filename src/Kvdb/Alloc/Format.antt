-- ===== src/Kvdb/Alloc/Format.antt =====
-- A sector that `format_sector` of flashdb/fdb_kvdb.c has formatted, as `read_sector_info` reads it.
use flashdb_rs.Prelude.{
  ℕ, suc, ◌+◌, ◌-◌, ◌%◌, ◌≤◌, ◌<◌, ◌≡◌, refl, ap, ◌∙◌, ◌⊎◌, inl, inr, true, false, Bool-cases,
  Option, none, some, List, [], ◌∷◌, arith, ltb, leb, ◌==◌, ◌&&◌, if◌then◌else◌, get_elem?,
  Option-cases,
}
use flashdb_rs.Types.{
  FdbErr, no_err, is_ok, custom, StorageType, StoreStatus, DirtyStatus, byte_erased, data_unused,
  failed_addr, u32,
}
use flashdb_rs.Flash.{Driver, flash_read, flash_write, flash_erase}
use flashdb_rs.Flash.Nor.{patch, IsNor}
use flashdb_rs.Flash.Effects.{
  flash_write-Leaves, flash_erase-Leaves, flash_read-slice, patch_below, patch_above, slice-patch,
  Programs-erased,
}
use flashdb_rs.Status.{set_status, get_status, count_unwritten, is_written}
use flashdb_rs.Kvdb.{Kv, KvSecInfo, Kvdb, sector_not_combined, kv_sector_magic_word}
use flashdb_rs.Kvdb.Cache.{find_slot, release, update_sector_cache, get_sector_from_cache}
use flashdb_rs.Kvdb.Search.{
  measure, check_kv_sector_header, read_kv_sector_header, read_kv_sector_info,
}
use flashdb_rs.Kvdb.Alloc.{sector_hdr_bytes, format_kv_sector}

-- No address is cached twice: behind the entry of `addr` there is no other one.
abbrev pub IsCachedOnce : ℕ → List KvSecInfo → Type 0
IsCachedOnce addr [] = Unit {0}
IsCachedOnce addr (entry ∷ table) =
    ((entry.addr == addr) ≡ true → get_sector_from_cache table addr ≡ none)
    × IsCachedOnce addr table

-- The header of an empty sector.
abbrev fresh_bytes : List ℕ
fresh_bytes =
    0x7f ∷ 0x7f ∷ 0xff ∷ 0xff ∷ 0x46 ∷ 0x44 ∷ 0x42 ∷ 0x30 ∷ 0xff ∷ 0xff ∷ 0xff ∷ 0xff ∷ 0xff ∷ 0xff
    ∷ 0xff ∷ 0xff ∷ []

hdr-fresh_bytes : sector_hdr_bytes sector_not_combined ≡ fresh_bytes
unfolding set_status
hdr-fresh_bytes = refl

release-tail :
    (entry : KvSecInfo) (table : List KvSecInfo) (k : ℕ)
    → release (entry ∷ table) (suc k) ≡ entry ∷ release table k
unfolding release
release-tail entry table k = elim (Option-cases (get_elem? table k)) [
  | inl out ↦ rw (out, release)
  | inr (e, found) ↦ rw (found, release)
]

find_slot-release :
    (addr i : ℕ) (empty : Option ℕ) (table : List KvSecInfo)
    → (data_unused == addr) ≡ false
    → IsCachedOnce addr table
    → ((k : ℕ) × (find_slot addr i empty table ≡ inl (i + k))
        × (get_sector_from_cache (release table k) addr ≡ none))
      ⊎ ((o : Option ℕ) × (find_slot addr i empty table ≡ inr o)
          × (get_sector_from_cache table addr ≡ none))
unfolding find_slot get_sector_from_cache release
find_slot-release addr i empty [] h once = inr (empty, refl, refl)
find_slot-release addr i empty (entry ∷ table) h once = elim (Bool-cases (entry.addr == addr)) [
  | inl hit ↦
      let at : i ≡ i + 0 = omega arith in
      inl (0, rw (hit, find_slot) (ap inl at), rw (h, get_sector_from_cache) (once.0 hit))
  | inr miss ↦
      let next = if entry.addr == data_unused then some i else empty in
      elim (find_slot-release addr (suc i) next table h once.1) [
        | inl (k, found, gone) ↦
            let at : suc i + k ≡ i + suc k = omega arith in
            inl (
              suc k,
              rw (miss, find_slot) (found ∙ ap inl at),
              ap (λ l. get_sector_from_cache l addr) (release-tail entry table k)
                  ∙ rw (miss, get_sector_from_cache) gone,
            )
        | inr (o, found, gone) ↦
            inr (o, rw (miss, find_slot) found, rw (miss, get_sector_from_cache) gone)
      ]
]

-- What `format_sector` puts into the cache's place.
abbrev forgotten : ℕ → KvSecInfo
forgotten addr = record {
  check_ok = false;
  store = StoreStatus.unused;
  dirty = DirtyStatus.unused;
  addr = addr;
  magic = 0;
  combined = 0;
  remain = 0;
  empty_kv = failed_addr;
}

forgotten-get :
    (addr : ℕ) (table : List KvSecInfo)
    → (data_unused == addr) ≡ false
    → IsCachedOnce addr table
    → get_sector_from_cache (update_sector_cache table (forgotten addr)) addr ≡ none
unfolding update_sector_cache
forgotten-get addr table h once = elim (find_slot-release addr 0 none table h once) [
  | inl (k, found, gone) ↦
      let at : 0 + k ≡ k = omega arith in rw (found, update_sector_cache, at) gone
  | inr (none, found, gone) ↦ rw (found, update_sector_cache) gone
  | inr (some i, found, gone) ↦ rw (found, update_sector_cache) gone
]

-- An empty sector with all of its room.
abbrev pub fresh_kv_info : ℕ → ℕ → KvSecInfo
fresh_kv_info addr sec_size = record {
  check_ok = true;
  store = StoreStatus.empty;
  dirty = DirtyStatus.clean;
  addr = addr;
  magic = kv_sector_magic_word;
  combined = sector_not_combined;
  remain = sec_size - 16;
  empty_kv = addr + 16;
}

-- The contents that `format_sector` leaves.
module _ (m : ℕ → ℕ) (addr sec_size : ℕ) where
  abbrev erased : ℕ → ℕ
  erased p = if leb addr p && ltb p (addr + sec_size) then byte_erased else m p

  abbrev formatted : ℕ → ℕ
  formatted = patch erased addr fresh_bytes

  module _ (h : 16 ≤ sec_size) where
    erased-inside : (p : ℕ) → addr ≤ p → p < addr + sec_size → erased p ≡ byte_erased
    erased-inside p q r = ground arith

    formatted-free : (p : ℕ) → addr + 16 ≤ p → p < addr + sec_size → formatted p ≡ byte_erased
    formatted-free p q r =
        patch_above erased addr fresh_bytes p (omega arith) ∙ erased-inside p (omega arith) r

    formatted-outside : (p : ℕ) → (p < addr) ⊎ (addr + sec_size ≤ p) → formatted p ≡ m p
    formatted-outside p q = elim q [
      | inl lo ↦ patch_below erased addr fresh_bytes p lo ∙ ground arith
      | inr hi ↦ patch_above erased addr fresh_bytes p (omega arith) ∙ ground arith
    ]

read_kv_sector_header-fresh :
    {S : Type 0} (d : Driver S) (t : Kvdb) (s : S) (addr : ℕ) (kv : Kv) (sector : KvSecInfo)
    → (flash_read d t.db.mode s addr 16).1 ≡ fresh_bytes
    → u32 (addr + 16) ≡ addr + 16
    → let info = fresh_kv_info addr t.db.sec_size in
      read_kv_sector_header d t s addr kv sector true
      ≡ some (
        no_err,
        info,
        record t { sector_cache_table = update_sector_cache t.sector_cache_table info },
        s,
      )
unfolding read_kv_sector_header check_kv_sector_header measure get_status count_unwritten is_written
read_kv_sector_header-fresh d t s addr kv sector h e =
    ap (λ buf. check_kv_sector_header d buf t s addr kv sector true) h
    ∙ ap
        (λ x.
          let info = record (fresh_kv_info addr t.db.sec_size) { empty_kv = x } in
          some (
            no_err,
            info,
            record t { sector_cache_table = update_sector_cache t.sector_cache_table info },
            s,
          ))
        e

module _ {S : Type 0} (d : Driver S) (view : S → ℕ → ℕ) {cap : ℕ} (nor : IsNor d view cap) where
  -- The body of `format_sector` behind its assertion.
  abbrev format_by : StorageType → List ℕ → ℕ → Kvdb → S → FdbErr × Kvdb × S
  format_by mode hdr addr t s =
      let (e, s) = flash_erase d mode addr t.db.sec_size s in
      elim (is_ok e) [
        | false ↦ (e, t, s)
        | true ↦
            let (e, s) = flash_write d mode addr hdr true s in
            let table = update_sector_cache t.sector_cache_table (forgotten addr) in
            (e, record t { sector_cache_table = table }, s)
      ]

  format_kv_sector-by :
      (addr : ℕ) (t : Kvdb) (s : S)
      → addr % t.db.sec_size ≡ 0
      → format_kv_sector d addr sector_not_combined t s
        ≡ some (format_by t.db.mode (sector_hdr_bytes sector_not_combined) addr t s)
  unfolding format_kv_sector
  format_kv_sector-by addr t s h =
      let r = flash_erase d t.db.mode addr t.db.sec_size s in
      elim (Bool-cases (is_ok r.0)) [
        | inl ok ↦ rw (h, format_kv_sector, ok, format_by)
        | inr bad ↦ rw (h, format_kv_sector, bad, format_by)
      ]

  -- On a device that behaves like NOR flash, `format_sector` succeeds at an address that is a
  -- multiple of the sector's size and is cached at most once. Then nothing is cached for the
  -- sector, and `read_sector_info` finds an empty, clean sector with all of its room; what follows
  -- its header is erased, and every byte outside of the sector is as it was.
  pub format_kv_sector-read_kv_sector_info :
      (addr : ℕ) (t : Kvdb) (s : S)
      → t.db.mode ≡ custom
      → 16 ≤ t.db.sec_size
      → addr + t.db.sec_size ≤ cap
      → cap < 0xffff_ffff
      → addr % t.db.sec_size ≡ 0
      → IsCachedOnce addr t.sector_cache_table
      → (t2 : Kvdb) × (s2 : S) × (format_kv_sector d addr sector_not_combined t s
          ≡ some (no_err, t2, s2))
        × (get_sector_from_cache t2.sector_cache_table addr ≡ none)
        × ((kv : Kv) (sector : KvSecInfo)
            → (t3 : Kvdb) × (read_kv_sector_info d t2 s2 addr kv sector true
                ≡ some (no_err, fresh_kv_info addr t.db.sec_size, t3, s2)))
        × ((p : ℕ) → addr + 16 ≤ p → p < addr + t.db.sec_size → view s2 p ≡ byte_erased)
        × ((p : ℕ) → (p < addr) ⊎ (addr + t.db.sec_size ≤ p) → view s2 p ≡ view s p)
  unfolding read_kv_sector_info
  format_kv_sector-read_kv_sector_info addr t s mode room inside small aligned once =
      let sec = t.db.sec_size in
      let m = view s in
      let (erase_ok, clean) = flash_erase-Leaves d view nor addr sec s m refl inside in
      let s1 = (flash_erase d custom addr sec s).1 in
      let (write_ok, after) =
        flash_write-Leaves d view nor addr fresh_bytes true s1 (erased m addr sec) clean
          (omega arith)
          (Programs-erased (erased m addr sec) addr fresh_bytes
            (λ p q r. erased-inside m addr sec room p q (omega arith)) (omega arith)) in
      let s2 = (flash_write d custom addr fresh_bytes true s1).1 in
      let table = update_sector_cache t.sector_cache_table (forgotten addr) in
      let t2 : Kvdb = record t { sector_cache_table = table } in
      let unused : (data_unused == addr) ≡ false = ground arith in
      let gone = forgotten-get addr t.sector_cache_table unused once in
      let hdr : (flash_read d t.db.mode s2 addr 16).1 ≡ fresh_bytes =
        ap (λ x. (flash_read d x s2 addr 16).1) mode
        ∙ ap (λ (r : FdbErr × List ℕ). r.1)
            (flash_read-slice d view nor addr 16 s2 (formatted m addr sec) after (omega arith))
        ∙ slice-patch (erased m addr sec) addr fresh_bytes in
      let at : u32 (addr + 16) ≡ addr + 16 = omega arith in
      let info = fresh_kv_info addr sec in
      (
        t2,
        s2,
        format_kv_sector-by addr t s aligned
            ∙ ap (λ x. some (format_by x (sector_hdr_bytes sector_not_combined) addr t s)) mode
            ∙ ap (λ x. some (format_by custom x addr t s)) hdr-fresh_bytes
            ∙ rw (erase_ok, format_by, write_ok),
        gone,
        λ kv sector. (
          record t2 { sector_cache_table = update_sector_cache table info },
          rw (aligned, read_kv_sector_info, gone)
              (read_kv_sector_header-fresh d t2 s2 addr kv sector hdr at),
        ),
        λ p q r. ap (λ k. k p) after ∙ formatted-free m addr sec room p q r,
        λ p q. ap (λ k. k p) after ∙ formatted-outside m addr sec room p q,
      )
