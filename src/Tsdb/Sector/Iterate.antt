-- ===== src/Tsdb/Sector/Iterate.antt =====
-- `sector_iterator` of flashdb/fdb_tsdb.c visits every sector once, in the order of the ring.
use flashdb_rs.Prelude.{
  ℕ, zero, suc, ◌+◌, ◌-◌, ◌*◌, ◌/◌, ◌%◌, ◌≤◌, ◌<◌, ◌≡◌, refl, sym, ap, ap₂, ◌∙◌, Bool, true, false,
  Option, none, some, List, [], ◌∷◌, ◌||◌, ◌==◌, Bool-cases, inl, inr, if◌then◌else◌, arith,
}
use native.Mathlib.Nat.{mod-eq_of_lt}
use flashdb_rs.Types.{FdbErr, no_err, store_index, StoreStatus, failed_addr, u32}
use flashdb_rs.Flash.{Driver}
use flashdb_rs.Tsdb.{SecInfo, Tsdb}
use flashdb_rs.Tsdb.Walk.{get_next_sector_addr}
use flashdb_rs.Tsdb.Walk.Ring.{
  IsRing, ring_addrs, get_next_sector_addr-ring, get_next_sector_addr-last, ring_addr-lt,
}
use flashdb_rs.Tsdb.Sector.{read_sector_info, visit_sector, sector_loop, sector_iterator}
use flashdb_rs.Tsdb.Sector.Names.{Names, read_sector_info-Names}

rounds : (n sec : ℕ) → 0 < sec → n - 1 < suc (n * sec / sec)
rounds n sec h = grind arith

module _ {S : Type 0} (d : Driver S) {A : Type 0} (status : StoreStatus)
    (callback : SecInfo → A → S → Bool × A × S) (traversal : Bool) (t : Tsdb) where
  abbrev visit : ℕ → SecInfo → A → S → Option (Bool × SecInfo × A × S)
  visit = visit_sector d status callback traversal t

  abbrev VisitNames : ℕ → Option (Bool × SecInfo × A × S) → Type 0
  VisitNames addr none = Unit {0}
  VisitNames addr (some (stop, sector, a, s)) = sector.addr ≡ addr

  visit_sector-Names :
      (addr : ℕ) (sector : SecInfo) (a : A) (s : S) → VisitNames addr (visit addr sector a s)
  unfolding visit_sector
  visit_sector-Names addr sector a s =
      go (read_sector_info d t s addr sector false) (read_sector_info-Names d t s addr sector false)
    where
      call :
          (o : Option (FdbErr × SecInfo))
          → Names addr o
          → VisitNames addr (elim o [
            | none ↦ none
            | some (_, sector) ↦ let (stop, a, s) = callback sector a s in some (stop, sector, a, s)
          ])
      call none h = tt
      call (some (e, out)) h = h

      reread :
          (out : SecInfo) (b : Bool)
          → out.addr ≡ addr
          → Names addr (if b then read_sector_info d t s addr out true else some (no_err, out))
      reread out true h = read_sector_info-Names d t s addr out true
      reread out false h = h

      go :
          (o : Option (FdbErr × SecInfo))
          → Names addr o
          → VisitNames addr (elim o [
            | none ↦ none
            | some (_, sector) ↦
                elim ((store_index status == store_index StoreStatus.unused)
                  || (store_index status == store_index sector.status)) [
                    | false ↦ some (false, sector, a, s)
                    | true ↦
                        elim (if traversal
                          then read_sector_info d t s addr sector true
                          else some (no_err, sector)) [
                            | none ↦ none
                            | some (_, sector) ↦
                                let (stop, a, s) = callback sector a s in some (stop, sector, a, s)
                          ]
                  ]
          ])
      go none h = tt
      go (some (e, out)) h =
          elim (Bool-cases (
            (store_index status == store_index StoreStatus.unused)
            || (store_index status == store_index out.status))) [
              | inr b ↦ rw b h
              | inl b ↦ rw b (call _ (reread out traversal h))
            ]

  -- The specification: the sectors of a list of addresses in turn, until a callback stops.
  unfoldable pub visit_all : List ℕ → SecInfo → A → S → Option (SecInfo × A × S)
  visit_all [] sector a s = some (sector, a, s)
  visit_all (addr ∷ addrs) sector a s = elim (visit addr sector a s) [
    | none ↦ none
    | some (stop, sector, a, s) ↦ elim stop [
      | true ↦ some (sector, a, s)
      | false ↦ visit_all addrs sector a s
    ]
  ]

  module _ {n : ℕ} (ring : IsRing t.db n) where
    -- The traversed length after sector `i`.
    traversed :
        (i : ℕ) → suc i ≤ n → u32 (i * t.db.sec_size + t.db.sec_size) ≡ suc i * t.db.sec_size
    traversed i h =
        let sec = t.db.sec_size in
        let fits : suc i * sec ≤ n * sec = grind arith in omega (arith, ring.whole, ring.small)

    -- Where the loop goes after a callback that did not stop it.
    next-ring :
        (sector : SecInfo) (k i m : ℕ)
        → sector.addr ≡ k % n * t.db.sec_size
        → i + suc (suc m) ≡ n
        → get_next_sector_addr t.db sector (u32 (i * t.db.sec_size + t.db.sec_size))
          ≡ suc k % n * t.db.sec_size
    next-ring sector k i m h e =
        rw (traversed i (omega arith)) (get_next_sector_addr-ring ring sector k i h (omega arith))

    next-last :
        (sector : SecInfo) (i : ℕ)
        → i + 1 ≡ n
        → get_next_sector_addr t.db sector (u32 (i * t.db.sec_size + t.db.sec_size)) ≡ failed_addr
    next-last sector i e =
        let last : suc i ≡ n = omega arith in
        rw (traversed i (omega arith), last) (get_next_sector_addr-last ring sector)

    abbrev loop : ℕ → ℕ → ℕ → SecInfo → A → S → Option (SecInfo × A × S)
    loop = sector_loop d status callback traversal t

    -- What the loop does after a visit, and what the specification does.
    abbrev after_loop : ℕ → ℕ → Option (Bool × SecInfo × A × S) → Option (SecInfo × A × S)
    after_loop fuel traversed_len none = none
    after_loop fuel traversed_len (some (stop, sector, a, s)) =
        let next = get_next_sector_addr t.db sector traversed_len in
        elim (stop || (next == failed_addr)) [
          | true ↦ some (sector, a, s)
          | false ↦ loop fuel next traversed_len sector a s
        ]

    abbrev after_all : List ℕ → Option (Bool × SecInfo × A × S) → Option (SecInfo × A × S)
    after_all addrs none = none
    after_all addrs (some (stop, sector, a, s)) = elim stop [
      | true ↦ some (sector, a, s)
      | false ↦ visit_all addrs sector a s
    ]

    after-last :
        (fuel i addr : ℕ) (o : Option (Bool × SecInfo × A × S))
        → i + 1 ≡ n
        → VisitNames addr o
        → after_loop fuel (u32 (i * t.db.sec_size + t.db.sec_size)) o ≡ after_all [] o
    unfolding visit_all
    after-last fuel i addr none e h = refl
    after-last fuel i addr (some (true, sector, a, s)) e h = refl
    after-last fuel i addr (some (false, sector, a, s)) e h = rw (after_loop, next-last sector i e)

    after-next :
        (fuel i k m : ℕ) (o : Option (Bool × SecInfo × A × S))
        → i + suc (suc m) ≡ n
        → VisitNames (k % n * t.db.sec_size) o
        → ((sector : SecInfo) (a : A) (s : S)
            → loop fuel (suc k % n * t.db.sec_size) (suc i * t.db.sec_size) sector a s
              ≡ visit_all (ring_addrs n t.db.sec_size (suc k) (suc m)) sector a s)
        → after_loop fuel (u32 (i * t.db.sec_size + t.db.sec_size)) o
          ≡ after_all (ring_addrs n t.db.sec_size (suc k) (suc m)) o
    after-next fuel i k m none e h ih = refl
    after-next fuel i k m (some (true, sector, a, s)) e h ih = refl
    after-next fuel i k m (some (false, sector, a, s)) e h ih =
        let valid : (suc k % n * t.db.sec_size == failed_addr) ≡ false =
          ground (arith, ring_addr-lt ring (suc k)) in
        rw
          (
            after_loop,
            next-ring sector k i m h e,
            valid,
            next-ring sector k i m h e,
            traversed i (omega arith),
          )
          (ih sector a s)

    sector_loop-visit_all :
        (m i k fuel : ℕ) (sector : SecInfo) (a : A) (s : S)
        → i + suc m ≡ n
        → m < fuel
        → loop fuel (k % n * t.db.sec_size) (i * t.db.sec_size) sector a s
          ≡ visit_all (ring_addrs n t.db.sec_size k (suc m)) sector a s
    unfolding sector_loop visit_all
    sector_loop-visit_all m i k zero sector a s e f = absurd (omega arith)
    sector_loop-visit_all zero i k (suc fuel) sector a s e f =
        let addr = k % n * t.db.sec_size in
        after-last fuel i addr (visit addr sector a s) e (visit_sector-Names addr sector a s)
    sector_loop-visit_all (suc m) i k (suc fuel) sector a s e f =
        let addr = k % n * t.db.sec_size in
        after-next fuel i k m (visit addr sector a s) e (visit_sector-Names addr sector a s)
          (λ sector a s.
            sector_loop-visit_all m (suc i) (suc k) fuel sector a s (omega arith) (omega arith))

    -- `sector_iterator`, started at the first sector's address of a database of `n` sectors, ends
    -- after at most `n` rounds, and does what visiting the sectors `k`, `k + 1`, ..., going round
    -- at `n`, does: each sector once, in that order, until a callback stops. (Here `k` is the number
    -- of the sector that it starts at.)
    pub sector_iterator-visit_all :
        (k : ℕ) (sector : SecInfo) (a : A) (s : S)
        → k < n
        → sector.addr ≡ k * t.db.sec_size
        → sector_iterator d status callback traversal t sector a s
          ≡ visit_all (ring_addrs n t.db.sec_size k n) sector a s
    unfolding sector_iterator
    sector_iterator-visit_all k sector a s h e =
        let start : sector.addr ≡ k % n * t.db.sec_size =
          e ∙ ap (λ (x : ℕ). x * t.db.sec_size) (sym (mod-eq_of_lt h)) in
        let count : suc (n - 1) ≡ n = omega (arith, ring.some_sector) in
        let fuel : n - 1 < suc (t.db.max_size / t.db.sec_size) =
          rw ring.whole (rounds n t.db.sec_size ring.sec_pos) in
        ap₂ (λ x y. loop (suc (t.db.max_size / t.db.sec_size)) x y sector a s) start (omega arith)
        ∙ sector_loop-visit_all (n - 1) 0 k _ sector a s (omega (arith, ring.some_sector)) fuel
        ∙ ap (λ m. visit_all (ring_addrs n t.db.sec_size k m) sector a s) count
