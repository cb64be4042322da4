-- ===== src/Kvdb/Iterate/Sector.antt =====
-- The search of `fdb_kv_iterate` (flashdb/fdb_kvdb.c) within one sector ends.
use flashdb_rs.Prelude.{
  ℕ, zero, suc, ◌+◌, ◌-◌, ◌^◌, ◌≤◌, ◌<◌, ◌≡◌, refl, ◌⊎◌, inl, inr, Bool, true, false, Bool-cases,
  Option, some, arith, ◌==◌, ◌&&◌, ◌>>=◌,
}
use flashdb_rs.Types.{KvStatus, kv_index, failed_addr, u32}
use flashdb_rs.Flash.{Driver}
use flashdb_rs.Kvdb.{Kv, KvSecInfo, Kvdb}
use flashdb_rs.Kvdb.Walk.Progress.{get_next_kv_addr-later}
use flashdb_rs.Kvdb.Pairs.Lengths.{AreShort, read_kv-HasLength}
use flashdb_rs.Kvdb.Iterate.{next_kv_loop, next_in_sector}

-- Complete and intact.
abbrev pub IsAlive : Kv → Type 0
IsAlive kv = ((kv_index kv.status == kv_index KvStatus.write) && kv.crc_is_ok) ≡ true

module _ {S : Type 0} (d : Driver S) (t : Kvdb) (sector : KvSecInfo) (sector_end : ℕ)
    (behind : sector.addr + t.db.sec_size ≡ sector_end) (small : sector_end < 2 ^ 31)
    (room : 24 ≤ t.db.sec_size) (some_pair : 24 ≤ t.db.max_size) (short : t.db.max_size < 2 ^ 31)
    (P : S → Type 0) (names : AreShort d t.db P) where
  -- A pair from which the walk can go on.
  abbrev pub IsPlaced : Kv → Type 0
  IsPlaced kv =
      (sector.addr ≤ kv.start) × (kv.start ≤ sector_end) × (24 ≤ kv.len) × (kv.len ≤ t.db.max_size)

  -- A search that ends; a pair that it yields is alive.
  abbrev pub Yields : Option (Bool × Kv × S) → Type 0
  Yields o =
      (found : Bool) × (kv : Kv) × (s : S) × (o ≡ some (found, kv, s))
      × P s
      × ((found ≡ true) → IsAlive kv × IsPlaced kv)

  next_kv_loop-Yields :
      (fuel : ℕ) (kv : Kv) (s : S)
      → sector.addr ≤ kv.start
      → kv.start ≤ sector_end
      → sector_end - kv.start < fuel
      → P s
      → Yields (next_kv_loop d sector fuel kv t s)
  unfolding next_kv_loop
  next_kv_loop-Yields zero kv s l h k p = absurd (omega arith)
  next_kv_loop-Yields (suc fuel) kv s l h k p =
      let (e1, kv1, s1, read, p1) = names t kv s refl p in
      let (at, low, high) = read_kv-HasLength d t s kv e1 kv1 s1 some_pair read in
      elim (Bool-cases ((kv_index kv1.status == kv_index KvStatus.write) && kv1.crc_is_ok)) [
        | inl alive ↦ (
          true,
          kv1,
          s1,
          rw (next_kv_loop, read, alive) refl,
          p1,
          λ e. (alive, (omega arith, omega arith, low, high)),
        )
        | inr dead ↦
            let (next, g, range) =
              get_next_kv_addr-later d t s1 sector kv1 sector_end behind small (omega arith)
                (omega arith) (omega arith) (omega arith) in
            elim range [
              | inl end ↦
                  let last : (next == failed_addr) ≡ true = ground arith in
                  (
                    false,
                    record kv1 { start = next },
                    s1,
                    rw (next_kv_loop, read, dead, g, last) refl,
                    p1,
                    λ e. absurd (ground arith),
                  )
              | inr later ↦
                  let more : (next == failed_addr) ≡ false = ground arith in
                  let (found, kv2, s2, rest, p2, good) =
                    next_kv_loop-Yields fuel (record kv1 { start = next }) s1 (omega arith) later.1
                      (omega arith) p1 in
                  (found, kv2, s2, rw (next_kv_loop, read, dead, g, more) rest, p2, good)
            ]
      ]

  pub next_in_sector-Yields :
      (kv : Kv) (s : S)
      → (kv.start ≡ 0) ⊎ IsPlaced kv
      → P s
      → Yields (next_in_sector d sector kv t s)
  unfolding next_in_sector
  next_in_sector-Yields kv s place p = elim (Bool-cases (kv.start == 0)) [
    | inl first ↦
        let at : u32 (sector.addr + 16) ≡ sector.addr + 16 = omega arith in
        let (found, kv2, s2, rest, p2, good) =
          next_kv_loop-Yields (suc t.db.sec_size) (record kv { start = u32 (sector.addr + 16) }) s
            (omega arith) (omega arith) (omega arith) p in
        (found, kv2, s2, rw (next_in_sector, first, ◌>>=◌) rest, p2, good)
    | inr on ↦
        let placed : IsPlaced kv = elim place [
          | inl zero_start ↦ absurd (ground arith)
          | inr here ↦ here
        ] in
        let (next, g, range) =
          get_next_kv_addr-later d t s sector kv sector_end behind small (omega arith) placed.1
            (let low = placed.2 in omega arith) (let high = placed.3 in omega arith) in
        elim range [
          | inl end ↦
              let last : (next == failed_addr) ≡ true = ground arith in
              (
                false,
                record kv { start = next },
                s,
                rw (next_in_sector, on, g, ◌>>=◌, last) refl,
                p,
                λ e. absurd (ground arith),
              )
          | inr later ↦
              let more : (next == failed_addr) ≡ false = ground arith in
              let low = placed.0 in
              let above : sector.addr ≤ next = omega arith in
              let (found, kv2, s2, rest, p2, good) =
                next_kv_loop-Yields (suc t.db.sec_size) (record kv { start = next }) s above later.1
                  (omega arith) p in
              (found, kv2, s2, rw (next_in_sector, on, g, ◌>>=◌, more) rest, p2, good)
        ]
  ]
