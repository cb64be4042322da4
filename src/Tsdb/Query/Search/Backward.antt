-- ===== src/Tsdb/Query/Search/Backward.antt =====
-- The binary search backwards, `search_start_tsl_addr` of flashdb/fdb_tsdb.c with a first time after
-- the last one.
use flashdb_rs.Prelude.{
  ℕ, zero, suc, ◌+◌, ◌-◌, ◌*◌, ◌^◌, ◌≤◌, ◌<◌, ◌≡◌, refl, ◌∙◌, subst, ◌⊎◌, inl, inr, false, true,
  Bool-cases, some, arith, ltb, ltb→lt, leb, leb→le,
}
use flashdb_rs.Prelude.Order.{ltb_chain, ltb_least, ltb_asym}
use flashdb_rs.Prelude.Bytes.{sub32, slt, signed_key}
use flashdb_rs.Flash.{Driver}
use flashdb_rs.Tsdb.{Tsdb}
use flashdb_rs.Tsdb.Query.{settle, search_start_tsl_addr}
use flashdb_rs.Tsdb.Query.Search

module _ {S : Type 0} (d : Driver S) (t : Tsdb) (s : S) (base from to k : ℕ) where
  abbrev at : ℕ → ℕ
  at i = base + 24 * i

  abbrev time_at : ℕ → ℕ
  time_at = Search.time_at d t s base from to

  abbrev Early : ℕ → Type 0
  Early = Search.Early d t s base from to

  abbrev Late : ℕ → Type 0
  Late = Search.Late d t s base from to k

  abbrev IsLowerBound : ℕ → Type 0
  IsLowerBound = Search.IsLowerBound d t s base from to k

  -- The last of the entries up to `k` that is not later than `from`.
  abbrev pub IsLast : ℕ → Type 0
  IsLast q =
      (q ≤ k)
      × (slt from (time_at q) ≡ false)
      × ((i : ℕ) → q < i → i ≤ k → slt from (time_at i) ≡ true)

  module _ (sorted : Search.IsSorted d t s base from to k) where
    Late-IsLast : (p : ℕ) → p ≤ k → Late p → slt from (time_at p) ≡ false → IsLast p
    Late-IsLast p inside late same = (
      inside,
      same,
      λ i q r.
          ltb_least (signed_key (time_at p)) (signed_key (time_at i)) (signed_key from)
            (sorted p i q r) (late p (omega arith) inside),
    )

    -- The entry before one that is later than `from`, and that nothing before is.
    before-IsLast :
        (q : ℕ) → suc q ≤ k → Early (suc q) → slt from (time_at (suc q)) ≡ true → IsLast q
    before-IsLast q inside early more = (
      omega arith,
      ltb_asym (signed_key (time_at q)) (signed_key from) (early q (omega arith)),
      λ i h r. elim (Bool-cases (ltb (suc q) i)) [
        | inl lt ↦
            ltb_chain (signed_key from) (signed_key (time_at (suc q))) (signed_key (time_at i))
              (sorted (suc q) i (ltb→lt (suc q) i lt) r) more
        | inr ge ↦
            let same : suc q ≡ i = ground arith in
            subst (λ j. slt from (time_at j) ≡ true) same more
      ],
    )

    -- Where a search backwards ends: before the entries; at the last one that is not later than
    -- `from`; or, with all of them earlier, behind them or at the last of them, as what is read
    -- behind them says.
    abbrev pub EndsBack : ℕ → Type 0
    EndsBack r =
        ((slt from (time_at 0) ≡ true) × (r ≡ base - 24))
        ⊎ (((q : ℕ) × IsLast q × (r ≡ base + 24 * q)) × (slt (time_at k) from ≡ false))
        ⊎ ((slt (time_at k) from ≡ true)
            × (((slt from (time_at (suc k)) ≡ false) × (r ≡ base + 24 * suc k))
                ⊎ ((slt from (time_at (suc k)) ≡ true) × (r ≡ base + 24 * k))))

    step_back : (p : ℕ) → 24 ≤ base → at (suc k) < 2 ^ 31 → p ≤ suc k → sub32 (at p) 24 ≡ at p - 24
    step_back p b small inside = omega arith

    settle-EndsBack :
        (p : ℕ)
        → 24 ≤ base
        → at (suc k) < 2 ^ 31
        → p ≤ k
        → IsLowerBound p
        → slt to from ≡ true
        → EndsBack (settle d t s from to (at p))
    unfolding settle
    settle-EndsBack zero b small inside bound h = elim (Bool-cases (slt from (time_at 0))) [
      | inr same ↦ inr (
          inl (
            (0, Late-IsLast 0 inside bound.2 same, rw (h, same, settle) refl),
            bound.2 k inside (omega arith),
          ))
      | inl more ↦
          inl (more, rw (h, more, settle) (step_back 0 b small (omega arith) ∙ omega arith))
    ]
    settle-EndsBack (suc q) b small inside bound h =
        let last = bound.2 k inside (omega arith) in
        elim (Bool-cases (slt from (time_at (suc q)))) [
          | inr same ↦ inr (
              inl
                ((suc q, Late-IsLast (suc q) inside bound.2 same, rw (h, same, settle) refl), last))
          | inl more ↦ inr (
              inl (
                (
                  q,
                  before-IsLast q inside bound.1 more,
                  rw (h, more, settle) (step_back (suc q) b small (omega arith) ∙ omega arith),
                ),
                last,
              ))
        ]

    -- What `settle` does behind the last entry.
    behind-EndsBack :
        24 ≤ base
        → at (suc k) < 2 ^ 31
        → slt (time_at k) from ≡ true
        → slt to from ≡ true
        → EndsBack (settle d t s from to (at (suc k)))
    unfolding settle
    behind-EndsBack b small last h = elim (Bool-cases (slt from (time_at (suc k)))) [
      | inr same ↦ inr (inr (last, inl (same, rw (h, same, settle) refl)))
      | inl more ↦ inr (
          inr (
            last,
            inr (
              more,
              rw (h, more, settle) (step_back (suc k) b small (omega arith) ∙ omega arith),
            ),
          ))
    ]

    -- A search for logs at or before `from`, on entries with increasing times whose addresses,
    -- with that of the place behind them, are below 2^31. It ends. With `from` before the first
    -- entry, it is one entry's size before that. Else, with `from` not after the last entry, it is
    -- at the last entry whose time is not after `from`. Else it is behind the last entry where the
    -- time that is read there is not after `from`, as in an erased place, and at the last entry
    -- where it is.
    pub search_start_tsl_addr-backward :
        24 ≤ base
        → base + 24 * suc k < 2 ^ 31
        → slt to from ≡ true
        → (r : ℕ) × (search_start_tsl_addr d t s base (base + 24 * k) from to ≡ some r) × EndsBack r
    search_start_tsl_addr-backward b small h =
        let (p, bound, found) =
          Search.search_start_tsl_addr-Found d t s base from to k sorted b small in
        let early : Early p = bound.1 in
        elim found [
          | inl (e, inside, same) ↦ (
            at p,
            e,
            inr (
                inl ((p, Late-IsLast p inside bound.2 same, refl), bound.2 k inside (omega arith))),
          )
          | inr settled ↦ (
            settle d t s from to (at p),
            settled,
            elim (Bool-cases (leb p k)) [
              | inl inside ↦ settle-EndsBack p b small (leb→le p k inside) bound h
              | inr outside ↦
                  let same : suc k ≡ p = ground arith in
                  subst (λ x. EndsBack (settle d t s from to (at x))) same
                    (behind-EndsBack b small (early k (omega arith)) h)
            ],
          )
        ]
