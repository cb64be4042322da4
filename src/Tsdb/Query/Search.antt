-- ===== src/Tsdb/Query/Search.antt =====
-- The binary search for a time, `search_start_tsl_addr` of flashdb/fdb_tsdb.c, in a sector whose
-- logs have increasing times.
pub mod Backward
use flashdb_rs.Prelude.{
  ℕ, zero, suc, ◌+◌, ◌-◌, ◌*◌, ◌/◌, ◌^◌, ◌≤◌, ◌<◌, ◌≡◌, refl, sym, ap, ap₂, ◌∙◌, subst, ◌⊎◌, inl,
  inr, false, true, Bool-cases, Option, some, arith, ltb, ltb→lt, leb, leb→le,
}
use flashdb_rs.Prelude.Order.{ltb_chain, ltb_above, ltb_below, ltb_least, ltb_asym}
use flashdb_rs.Prelude.Bytes.{sub32, slt, slt32, slt32-ltb, signed_key}
use flashdb_rs.Types.{u32}
use flashdb_rs.Flash.{Driver}
use flashdb_rs.Tsdb.{Tsdb}
use flashdb_rs.Tsdb.Sector.{read_tsl}
use flashdb_rs.Tsdb.Query.{mid_index, probe, settle, search_loop, search_start_tsl_addr}

module _ {S : Type 0} (d : Driver S) (t : Tsdb) (s : S) (base from to : ℕ) where
  abbrev pub at : ℕ → ℕ
  at i = base + 24 * i

  -- The time of the entry of an index.
  abbrev pub time_at : ℕ → ℕ
  time_at i = (read_tsl d t s (base + 24 * i)).time

  -- The middle of a range of entries, as the source computes its address.
  mid-address :
      (lo n : ℕ) → at (lo + n) < 2 ^ 31 → mid_index (at lo) (at (lo + n)) ≡ at (lo + (n + 1) / 2)
  unfolding mid_index
  mid-address lo n small =
      let diff : sub32 (at (lo + n)) (at lo) ≡ 24 * n = omega arith in
      let positive : ltb (24 * n) (2 ^ 31) ≡ true = ground arith in
      let start = base + 24 * lo in rw (diff, mid_index, positive) (omega arith)

  probe-less :
      (lo n : ℕ)
      → at (suc (lo + n)) < 2 ^ 31
      → slt (time_at (lo + (n + 1) / 2)) from ≡ true
      → probe d t s from (at lo) (at (lo + n)) ≡ inr (at (suc (lo + (n + 1) / 2)), at (lo + n))
  unfolding probe
  probe-less lo n small h =
      let mid = lo + (n + 1) / 2 in
      let e : u32 (at mid + 24) ≡ at (suc mid) = omega arith in
      rw (mid-address lo n (omega arith), h, probe) (ap (λ x. inr (x, at (lo + n))) e)

  probe-more :
      (lo n : ℕ)
      → at (suc (lo + n)) < 2 ^ 31
      → 24 ≤ base
      → slt (time_at (lo + (n + 1) / 2)) from ≡ false
      → slt from (time_at (lo + (n + 1) / 2)) ≡ true
      → probe d t s from (at lo) (at (lo + n)) ≡ inr (at lo, at (lo + (n + 1) / 2) - 24)
  unfolding probe
  probe-more lo n small b h k =
      let mid = lo + (n + 1) / 2 in
      let e : sub32 (at mid) 24 ≡ at mid - 24 = omega arith in
      rw (mid-address lo n (omega arith), h, k, probe) (ap (λ x. inr (at lo, x)) e)

  probe-hit :
      (lo n : ℕ)
      → at (suc (lo + n)) < 2 ^ 31
      → slt (time_at (lo + (n + 1) / 2)) from ≡ false
      → slt from (time_at (lo + (n + 1) / 2)) ≡ false
      → probe d t s from (at lo) (at (lo + n)) ≡ inl (at (lo + (n + 1) / 2))
  unfolding probe
  probe-hit lo n small h k = rw (mid-address lo n (omega arith), h, k, probe)

  -- Everything below an index is too early; nothing from an index to `k` is.
  abbrev pub Early : ℕ → Type 0
  Early p = (i : ℕ) → i < p → slt (time_at i) from ≡ true

  module _ (k : ℕ) where
    abbrev pub Late : ℕ → Type 0
    Late p = (i : ℕ) → p ≤ i → i ≤ k → slt (time_at i) from ≡ false

    -- The first of the entries up to `k` that is not earlier than `from`, or the place after them.
    abbrev pub IsLowerBound : ℕ → Type 0
    IsLowerBound p = (p ≤ suc k) × Early p × Late p

    -- The times of the entries up to `k` increase.
    abbrev pub IsSorted : Type 0
    IsSorted = (i j : ℕ) → i < j → j ≤ k → slt (time_at i) (time_at j) ≡ true

    -- A search ends at the lower bound: with a hit, or where it settles.
    abbrev pub Found : Option ℕ → Type 0
    Found r =
        (p : ℕ) × IsLowerBound p
        × (((r ≡ some (at p)) × (p ≤ k) × (slt from (time_at p) ≡ false))
            ⊎ (r ≡ some (settle d t s from to (at p))))

    module _ (sorted : IsSorted) where
      Early-upto : (m : ℕ) → m ≤ k → slt (time_at m) from ≡ true → Early (suc m)
      Early-upto m h e i q = elim (Bool-cases (ltb i m)) [
        | inl lt ↦
            ltb_chain (signed_key (time_at i)) (signed_key (time_at m)) (signed_key from) e
              (sorted i m (ltb→lt i m lt) h)
        | inr ge ↦
            let same : m ≡ i = ground arith in subst (λ j. slt (time_at j) from ≡ true) same e
      ]

      Late-from : (m : ℕ) → slt (time_at m) from ≡ false → Late m
      Late-from m e i q r = elim (Bool-cases (ltb m i)) [
        | inl lt ↦
            ltb_above (signed_key (time_at m)) (signed_key (time_at i)) (signed_key from)
              (sorted m i (ltb→lt m i lt) r) e
        | inr ge ↦
            let same : m ≡ i = ground arith in subst (λ j. slt (time_at j) from ≡ false) same e
      ]

      break-Found :
          (fuel start end start2 end2 : ℕ)
          → probe d t s from start end ≡ inr (start2, end2)
          → slt32 end2 start2 ≡ true
          → search_loop d t s from to (suc fuel) start end ≡ some (settle d t s from to start2)
      unfolding search_loop
      break-Found fuel start end start2 end2 e h = rw (e, search_loop, h)

      search_loop-next :
          (fuel start end start2 end2 : ℕ)
          → probe d t s from start end ≡ inr (start2, end2)
          → slt32 end2 start2 ≡ false
          → search_loop d t s from to (suc fuel) start end
            ≡ search_loop d t s from to fuel start2 end2
      unfolding search_loop
      search_loop-next fuel start end start2 end2 e h = rw (e, search_loop, h)

      search_loop-hit :
          (fuel start end index : ℕ)
          → probe d t s from start end ≡ inl index
          → search_loop d t s from to (suc fuel) start end ≡ some index
      unfolding search_loop
      search_loop-hit fuel start end index e = rw (e, search_loop)

      search_loop-Found :
          24 ≤ base
          → at (suc k) < 2 ^ 31
          → (fuel lo n : ℕ) → n < fuel
          → lo + n ≤ k
          → Early lo
          → Late (suc (lo + n))
          → Found (search_loop d t s from to fuel (at lo) (at (lo + n)))
      search_loop-Found b small zero lo n h r early late = absurd (omega arith)
      search_loop-Found b small (suc fuel) lo n h r early late =
          let here : at (suc (lo + n)) < 2 ^ 31 = omega arith in
          let half = (n + 1) / 2 in
          let mid = lo + half in
          elim (Bool-cases (slt (time_at mid) from)) [
            | inl less ↦ elim (Bool-cases (slt32 (at (lo + n)) (at (suc mid)))) [
              | inl out32 ↦
                  let out =
                    sym (slt32-ltb (at (lo + n)) (at (suc mid)) (omega arith) (omega arith))
                    ∙ out32 in
                  (
                    suc mid,
                    (
                      omega arith,
                      Early-upto mid (omega arith) less,
                      λ i p q. late i (ground arith) q,
                    ),
                    inr (
                        break-Found fuel (at lo) (at (lo + n)) (at (suc mid)) (at (lo + n))
                          (probe-less lo n here less) out32),
                  )
              | inr in32 ↦
                  let in_range =
                    sym (slt32-ltb (at (lo + n)) (at (suc mid)) (omega arith) (omega arith))
                    ∙ in32 in
                  let rest = n - suc half in
                  let same : suc mid + rest ≡ lo + n = ground arith in
                  subst Found
                    (ap (λ x. search_loop d t s from to fuel (at (suc mid)) (at x)) same
                      ∙ sym (
                          search_loop-next fuel (at lo) (at (lo + n)) (at (suc mid)) (at (lo + n))
                            (probe-less lo n here less) in32))
                    (search_loop-Found b small fuel (suc mid) rest (ground arith) (omega arith)
                      (Early-upto mid (omega arith) less) (λ i p q. late i (omega arith) q))
            ]
            | inr least ↦ elim (Bool-cases (slt from (time_at mid))) [
              | inr same_time ↦ (
                mid,
                (
                  omega arith,
                  λ i q.
                      ltb_below (signed_key (time_at i)) (signed_key (time_at mid))
                        (signed_key from) (sorted i mid q (omega arith)) same_time,
                  Late-from mid least,
                ),
                inl (
                  search_loop-hit fuel (at lo) (at (lo + n)) (at mid)
                      (probe-hit lo n here least same_time),
                  omega arith,
                  same_time,
                ),
              )
              | inl more ↦ elim (Bool-cases (slt32 (at mid - 24) (at lo))) [
                | inl out32 ↦
                    let out =
                      sym (slt32-ltb (at mid - 24) (at lo) (omega arith) (omega arith)) ∙ out32 in
                    (
                      lo,
                      (omega arith, early, λ i p q. Late-from mid least i (ground arith) q),
                      inr (
                          break-Found fuel (at lo) (at (lo + n)) (at lo) (at mid - 24)
                            (probe-more lo n here b least more) out32),
                    )
                | inr in32 ↦
                    let in_range =
                      sym (slt32-ltb (at mid - 24) (at lo) (omega arith) (omega arith)) ∙ in32 in
                    let rest = half - 1 in
                    let same : at (lo + rest) ≡ at mid - 24 = ground arith in
                    subst Found
                      (ap (λ x. search_loop d t s from to fuel (at lo) x) same
                        ∙ sym (
                            search_loop-next fuel (at lo) (at (lo + n)) (at lo) (at mid - 24)
                              (probe-more lo n here b least more) in32))
                      (search_loop-Found b small fuel lo rest (ground arith) (omega arith) early
                        (λ i p q. Late-from mid least i (ground arith) q))
              ]
            ]
          ]

      pub search_start_tsl_addr-Found :
          24 ≤ base → at (suc k) < 2 ^ 31 → Found (search_start_tsl_addr d t s base (at k) from to)
      unfolding search_start_tsl_addr
      search_start_tsl_addr-Found b small =
          let e : at 0 ≡ base = omega arith in
          let f : at (0 + k) ≡ at k = omega arith in
          subst Found (ap₂ (λ x y. search_loop d t s from to (suc (at k - base)) x y) e f) (
            search_loop-Found b small (suc (at k - base)) 0 k (omega arith) (omega arith)
              (λ i q. absurd (omega arith)) (λ i q r. absurd (omega arith)))

      -- A search for logs at or after `from`, on entries with increasing times whose addresses, with
      -- that of the place behind them, are below 2^31: it ends, at the first entry whose time is not
      -- before `from`, or behind the last entry where there is none.
      pub search_start_tsl_addr-forward :
          24 ≤ base
          → base + 24 * suc k < 2 ^ 31
          → slt to from ≡ false
          → (p : ℕ) × IsLowerBound p
            × (search_start_tsl_addr d t s base (base + 24 * k) from to ≡ some (base + 24 * p))
      unfolding settle
      search_start_tsl_addr-forward b small h =
          let (p, bound, found) = search_start_tsl_addr-Found b small in
          elim found [
            | inl hit ↦ (p, bound, hit.0)
            | inr settled ↦ (p, bound, settled ∙ rw (h, settle))
          ]
