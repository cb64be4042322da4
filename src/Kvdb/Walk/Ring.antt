-- ===== src/Kvdb/Walk/Ring.antt =====
-- The sectors of a key-value database in the order of `get_next_sector_addr` (flashdb/fdb_kvdb.c).
use flashdb_rs.Prelude.{
  ℕ, suc, ◌+◌, ◌*◌, ◌/◌, ◌^◌, ◌≤◌, ◌<◌, ◌≡◌, refl, ◌⊎◌, inl, inr, true, Bool-cases, arith, ltb, leb,
  ◌==◌, ◌||◌, if◌then◌else◌,
}
use flashdb_rs.Types.{Db, failed_addr, u32}
use flashdb_rs.Kvdb.{KvSecInfo, Kvdb, sector_not_combined}
use flashdb_rs.Kvdb.Walk.{get_next_kv_sector_addr}

-- A database of `n` sectors of at least a header and a pair's header, in the lower half of the addresses.
pub record IsKvRing (db : Db) (n : ℕ) : Type 0 where
  pub some_sector : 0 < n
  pub room : 24 ≤ db.sec_size
  pub whole : db.max_size ≡ n * db.sec_size
  pub small : db.max_size + db.sec_size < 2 ^ 31

-- The value of a header's `combined` is one of the two that are defined.
abbrev pub IsCombined : ℕ → Type 0
IsCombined c = ((c == sector_not_combined) || (c == 0)) ≡ true

pub mul-fits : (k n sec : ℕ) → k < n → k * sec + sec ≤ n * sec
mul-fits k n sec h = grind arith

mul-below : (k n sec : ℕ) → k * sec < n * sec → k < n
mul-below k n sec h = grind arith

mul-upto : (k n sec : ℕ) → 0 < sec → k * sec ≤ n * sec → k ≤ n
mul-upto k n sec p h = grind arith

pub rounds : (n sec size : ℕ) → 24 ≤ sec → size ≡ n * sec → size / sec ≡ n
rounds n sec size h e = grind arith

module _ (t : Kvdb) (n : ℕ) (ring : IsKvRing t.db n) where
  -- After `suc i` sectors the walk ends, or goes on to a sector; then at most `n` were visited.
  abbrev pub IsNextSector : ℕ → ℕ → Type 0
  IsNextSector i next =
      (next ≡ failed_addr) ⊎ ((suc i ≤ n) × (j : ℕ) × (j < n) × (next ≡ j * t.db.sec_size))

  -- With the size that is added in one step.
  abbrev next_by : ℕ → ℕ → ℕ → ℕ
  next_by traversed addr size =
      if leb (u32 (traversed + size)) t.db.max_size
      then (if ltb (u32 (addr + size)) t.db.max_size then u32 (addr + size) else 0)
      else failed_addr

  next_by-sector :
      (k i : ℕ)
      → k < n
      → i ≤ n
      → IsNextSector i (next_by (suc i * t.db.sec_size) (k * t.db.sec_size) t.db.sec_size)
  next_by-sector k i h g =
      let sec = t.db.sec_size in
      let room = ring.room in
      let whole = ring.whole in
      let small = ring.small in
      let some_sector = ring.some_sector in
      let fits : k * sec + sec ≤ n * sec = mul-fits k n sec h in
      let upto : suc i * sec ≤ n * sec + sec = grind arith in
      elim (Bool-cases (leb (u32 (suc i * sec + sec)) t.db.max_size)) [
        | inr end ↦ rw end (inl refl)
        | inl more ↦
            let below : suc i ≤ n = mul-upto (suc i) n sec (omega arith) (ground arith) in
            elim (Bool-cases (ltb (u32 (k * sec + sec)) t.db.max_size)) [
              | inr round ↦ rw (more, round) (inr (below, 0, some_sector, omega arith))
              | inl on ↦
                  let plain : u32 (k * sec + sec) ≡ suc k * sec = omega arith in
                  rw (more, on) (inr (below, suc k, mul-below (suc k) n sec (ground arith), plain))
            ]
      ]

  next_by-same :
      (k i : ℕ)
      → k < n
      → i ≤ n
      → IsNextSector i (next_by (suc i * t.db.sec_size) (k * t.db.sec_size) 0)
  next_by-same k i h g =
      let sec = t.db.sec_size in
      let room = ring.room in
      let whole = ring.whole in
      let small = ring.small in
      let fits : k * sec + sec ≤ n * sec = mul-fits k n sec h in
      let upto : suc i * sec ≤ n * sec + sec = grind arith in
      elim (Bool-cases (leb (u32 (suc i * sec + 0)) t.db.max_size)) [
        | inr end ↦ rw end (inl refl)
        | inl more ↦
            let below : suc i ≤ n = mul-upto (suc i) n sec (omega arith) (ground arith) in
            let on : ltb (u32 (k * sec + 0)) t.db.max_size ≡ true = ground arith in
            rw (more, on) (inr (below, k, h, omega arith))
      ]

  pub get_next_kv_sector_addr-next :
      (sector : KvSecInfo) (k i : ℕ)
      → sector.addr ≡ k * t.db.sec_size
      → IsCombined sector.combined
      → k < n
      → i ≤ n
      → IsNextSector i (get_next_kv_sector_addr t sector (suc i * t.db.sec_size))
  unfolding get_next_kv_sector_addr
  get_next_kv_sector_addr-next sector k i e combined h g =
      elim (Bool-cases (sector.combined == sector_not_combined)) [
        | inl alone ↦ rw (alone, e) (next_by-sector k i h g)
        | inr other ↦
            let none_left : sector.combined ≡ 0 = ground arith in
            let no_step : u32 (0 * t.db.sec_size) ≡ 0 = omega arith in
            rw (other, none_left, no_step, e) (next_by-same k i h g)
      ]
