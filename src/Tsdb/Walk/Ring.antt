-- ===== src/Tsdb/Walk/Ring.antt =====
-- The sectors of a database in the order of `get_next_sector_addr` (flashdb/fdb_tsdb.c).
use flashdb_rs.Prelude.{
  ℕ, zero, suc, ◌+◌, ◌*◌, ◌%◌, ◌^◌, ◌≤◌, ◌<◌, ◌≡◌, List, [], ◌∷◌, arith, ap, ltb, lt→ltb, leb,
  if◌then◌else◌, true, false,
}
use native.Mathlib.Decide.{dec_lt}
use flashdb_rs.Types.{Db, failed_addr, u32}
use flashdb_rs.Tsdb.{SecInfo}
use flashdb_rs.Tsdb.Walk.{get_next_sector_addr}

-- A database of `n` sectors, whose sizes leave room for one more sector below 2^32.
pub record IsRing (db : Db) (n : ℕ) : Type 0 where
  pub some_sector : 0 < n
  pub sec_pos : 0 < db.sec_size
  pub whole : db.max_size ≡ n * db.sec_size
  pub small : db.max_size + db.sec_size < 2 ^ 32

-- The addresses of `m` sectors from the `k`-th on, going round at `n`.
abbrev pub ring_addrs : ℕ → ℕ → ℕ → ℕ → List ℕ
ring_addrs n sec_size k zero = []
ring_addrs n sec_size k (suc m) = k % n * sec_size ∷ ring_addrs n sec_size (suc k) m

mul-lt : (a b c : ℕ) → a < b → 0 < c → a * c + c ≤ b * c
mul-lt a b c h p = grind arith

suc-mod_inside : (n k : ℕ) → suc (k % n) < n → suc k % n ≡ suc (k % n)
suc-mod_inside n k h = grind arith

suc-mod_end : (n k : ℕ) → suc (k % n) ≡ n → suc k % n ≡ 0
suc-mod_end n k h = grind arith

-- One step of the ring.
ring_step :
    (n k sec : ℕ)
    → 0 < n
    → 0 < sec
    → (if ltb (k % n * sec + sec) (n * sec) then k % n * sec + sec else 0) ≡ suc k % n * sec
ring_step n k sec h p =
    let q = k % n in
    let inside : q < n = omega arith in
    elim (dec_lt (suc q) n) [
      | yes more ↦
          let fits : suc q * sec + sec ≤ n * sec = mul-lt (suc q) n sec more p in
          let t : ltb (q * sec + sec) (n * sec) ≡ true = lt→ltb _ _ (omega arith) in
          rw (t, suc-mod_inside n k more) (omega arith)
      | no end ↦
          let last : suc q ≡ n = omega arith in
          let same : suc q * sec ≡ n * sec = ap (λ (x : ℕ). x * sec) last in
          let t : ltb (q * sec + sec) (n * sec) ≡ false = ground arith in
          rw (t, suc-mod_end n k last) (omega arith)
    ]

module _ {db : Db} {n : ℕ} (ring : IsRing db n) where
  -- Before the last sector the traversal goes on to the next one, and round at the end.
  pub get_next_sector_addr-ring :
      (sector : SecInfo) (k i : ℕ)
      → sector.addr ≡ k % n * db.sec_size
      → suc i < n
      → get_next_sector_addr db sector (suc i * db.sec_size) ≡ suc k % n * db.sec_size
  unfolding get_next_sector_addr
  get_next_sector_addr-ring sector k i e h =
      let sec = db.sec_size in
      let here : k % n * sec + sec ≤ n * sec =
        mul-lt (k % n) n sec (omega (arith, ring.some_sector)) ring.sec_pos in
      let fits : suc i * sec + sec ≤ n * sec = mul-lt (suc i) n sec h ring.sec_pos in
      let room : n * sec + sec < 2 ^ 32 = omega (arith, ring.whole, ring.small) in
      let go : leb (u32 (suc i * sec + sec)) db.max_size ≡ true = ground (arith, ring.whole) in
      let plain : u32 (sector.addr + sec) ≡ k % n * sec + sec = omega (arith, e) in
      rw (go, plain, ring.whole) (ring_step n k sec ring.some_sector ring.sec_pos)

  -- After the last sector it ends.
  pub get_next_sector_addr-last :
      (sector : SecInfo) → get_next_sector_addr db sector (n * db.sec_size) ≡ failed_addr
  unfolding get_next_sector_addr
  get_next_sector_addr-last sector =
      let sec = db.sec_size in
      let room : n * sec + sec < 2 ^ 32 = omega (arith, ring.whole, ring.small) in
      let stop : leb (u32 (n * sec + sec)) db.max_size ≡ false =
        ground (arith, ring.whole, ring.sec_pos) in
      rw stop

  -- An address of the ring is no failure.
  pub ring_addr-lt : (k : ℕ) → k % n * db.sec_size < failed_addr
  ring_addr-lt k =
      let sec = db.sec_size in
      let here : k % n * sec + sec ≤ n * sec =
        mul-lt (k % n) n sec (omega (arith, ring.some_sector)) ring.sec_pos in
      omega (arith, ring.whole, ring.small, ring.sec_pos)
