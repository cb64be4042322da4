-- ===== src/Tsdb/Query/Entries.antt =====
-- The inner loop of the iterators of flashdb/fdb_tsdb.c: the logs of one sector, from the first to
-- the last or back.
use flashdb_rs.Prelude.{
  ℕ, zero, suc, ◌+◌, ◌-◌, ◌*◌, ◌^◌, ◌≤◌, ◌<◌, ◌≡◌, ap, ◌∙◌, inl, inr, Bool, true, false, Bool-cases,
  some, List, [], ◌∷◌, arith, ◌==◌,
}
use flashdb_rs.Types.{store_index, failed_addr, u32}
use flashdb_rs.Flash.{Driver}
use flashdb_rs.Tsdb.{Tsl, SecInfo, Tsdb}
use flashdb_rs.Tsdb.Walk.{get_next_tsl_addr, get_last_tsl_addr}
use flashdb_rs.Tsdb.Sector.{decode_tsl, read_tsl}
use flashdb_rs.Tsdb.Query.{Callback, tsl_loop, in_ram, has_tsl, iter_sector, iter_sector_reverse}

-- The addresses of `m` entries from `base` on, in order, and from the last one back.
abbrev pub ascending : ℕ → ℕ → List ℕ
ascending base zero = []
ascending base (suc m) = base ∷ ascending (base + 24) m

abbrev pub descending : ℕ → ℕ → List ℕ
descending base zero = []
descending base (suc m) = (base + 24 * m) ∷ descending base m

module _ {S : Type 0} (d : Driver S) (t : Tsdb) where
  read_tsl-index : (s : S) (index : ℕ) → (read_tsl d t s index).index ≡ index
  unfolding read_tsl decode_tsl
  read_tsl-index s index = ground arith

  module _ {A : Type 0} (cb : Callback d A) where
    -- The specification: the callback on the entries of a list in turn, until it stops.
    unfoldable pub visit_tsls : List ℕ → A → S → Bool × A × S
    visit_tsls [] a s = (false, a, s)
    visit_tsls (index ∷ rest) a s =
        let (stop, a, s) = cb (read_tsl d t s index) a s in
        elim stop [ true ↦ (true, a, s) | false ↦ visit_tsls rest a s ]

    module _ (sector : SecInfo) (used : (store_index sector.status == 1) ≡ false) where
      next-inside :
          (tsl : Tsl)
          → tsl.index + 24 ≤ sector.end_idx
          → sector.end_idx < 2 ^ 32
          → get_next_tsl_addr sector tsl ≡ tsl.index + 24
      unfolding get_next_tsl_addr
      next-inside tsl h k = ground arith

      next-end :
          (tsl : Tsl) → sector.end_idx ≡ tsl.index → get_next_tsl_addr sector tsl ≡ failed_addr
      unfolding get_next_tsl_addr
      next-end tsl h = ground arith

      last-inside :
          (tsl : Tsl) → sector.addr + 80 ≤ tsl.index → get_last_tsl_addr sector tsl ≡ tsl.index - 24
      unfolding get_last_tsl_addr
      last-inside tsl h = ground arith

      last-first :
          (tsl : Tsl) → tsl.index ≡ sector.addr + 56 → get_last_tsl_addr sector tsl ≡ failed_addr
      unfolding get_last_tsl_addr
      last-first tsl h = ground arith

      -- One round, with where the walk goes next.
      tsl_loop-go :
          (get : SecInfo → Tsl → ℕ) (fuel index : ℕ) (rest : List ℕ) (a : A) (s0 : S)
          → (get sector (read_tsl d t s0 index) == failed_addr) ≡ false
          → ((a : A) (s : S)
              → tsl_loop d get cb t sector fuel (get sector (read_tsl d t s0 index)) a s
                ≡ some (visit_tsls rest a s))
          → tsl_loop d get cb t sector (suc fuel) index a s0 ≡ some (visit_tsls (index ∷ rest) a s0)
      unfolding tsl_loop visit_tsls
      tsl_loop-go get fuel index rest a s f ih =
          let out = cb (read_tsl d t s index) a s in
          elim (Bool-cases out.0) [
            | inl stop ↦ rw (stop, tsl_loop, visit_tsls)
            | inr go ↦ rw (go, tsl_loop, f, visit_tsls) (ih out.1 out.2)
          ]

      tsl_loop-end :
          (get : SecInfo → Tsl → ℕ) (fuel index : ℕ) (a : A) (s : S)
          → get sector (read_tsl d t s index) ≡ failed_addr
          → tsl_loop d get cb t sector (suc fuel) index a s ≡ some (visit_tsls (index ∷ []) a s)
      unfolding tsl_loop visit_tsls
      tsl_loop-end get fuel index a s e = elim (Bool-cases (cb (read_tsl d t s index) a s).0) [
        | inl stop ↦ rw (stop, tsl_loop, visit_tsls)
        | inr go ↦ rw (go, tsl_loop, e, visit_tsls)
      ]

      -- The loop forward, from the first of `suc m` entries.
      tsl_loop-ascending :
          (m fuel base : ℕ) (a : A) (s : S)
          → m < fuel
          → sector.end_idx ≡ base + 24 * m
          → sector.end_idx < 2 ^ 32 - 1
          → tsl_loop d get_next_tsl_addr cb t sector fuel base a s
            ≡ some (visit_tsls (ascending base (suc m)) a s)
      tsl_loop-ascending m zero base a s h e k = absurd (omega arith)
      tsl_loop-ascending zero (suc fuel) base a s h e k =
          tsl_loop-end get_next_tsl_addr fuel base a s
            (next-end (read_tsl d t s base) (omega (arith, e, read_tsl-index s base)))
      tsl_loop-ascending (suc m) (suc fuel) base a s h e k =
          let tsl = read_tsl d t s base in
          let index = read_tsl-index s base in
          let next : get_next_tsl_addr sector tsl ≡ base + 24 =
            next-inside tsl (omega arith) (omega arith) ∙ omega arith in
          tsl_loop-go get_next_tsl_addr fuel base (ascending (base + 24) (suc m)) a s (ground arith)
            (λ a s.
              ap (λ x. tsl_loop d get_next_tsl_addr cb t sector fuel x a s) next
              ∙ tsl_loop-ascending m fuel (base + 24) a s (omega arith) (omega arith) k)

      -- The loop back, from the last of `suc m` entries.
      tsl_loop-descending :
          (m fuel : ℕ) (a : A) (s : S)
          → m < fuel
          → sector.addr + 56 + 24 * m < 2 ^ 32 - 1
          → tsl_loop d get_last_tsl_addr cb t sector fuel (sector.addr + 56 + 24 * m) a s
            ≡ some (visit_tsls (descending (sector.addr + 56) (suc m)) a s)
      tsl_loop-descending m zero a s h k = absurd (omega arith)
      tsl_loop-descending zero (suc fuel) a s h k =
          let index = sector.addr + 56 + 24 * 0 in
          tsl_loop-end get_last_tsl_addr fuel index a s
            (last-first (read_tsl d t s index) (read_tsl-index s index ∙ omega arith))
      tsl_loop-descending (suc m) (suc fuel) a s h k =
          let at = sector.addr + 56 + 24 * suc m in
          let tsl = read_tsl d t s at in
          let index = read_tsl-index s at in
          let next : get_last_tsl_addr sector tsl ≡ sector.addr + 56 + 24 * m =
            last-inside tsl (omega arith) ∙ omega arith in
          tsl_loop-go get_last_tsl_addr fuel at (descending (sector.addr + 56) (suc m)) a s
            (ground arith)
            (λ a s.
              ap (λ x. tsl_loop d get_last_tsl_addr cb t sector fuel x a s) next
              ∙ tsl_loop-descending m fuel a s (omega arith) (omega arith))

    -- The result of a walk through one sector.
    abbrev at_sector : SecInfo → Bool × A × S → Bool × SecInfo × A × S
    at_sector sector (stop, a, s) = (stop, sector, a, s)

    module _ (sec_addr : ℕ) (read : SecInfo) (m : ℕ) (a : A) (s : S) where
      -- A sector with `suc m` entries, which `cur_sec` describes if it is in use.
      abbrev pub HasEntries : Type 0
      HasEntries =
          let sector = in_ram d t read in
          (has_tsl d read ≡ true)
          × ((store_index sector.status == 1) ≡ false)
          × (sector.end_idx ≡ sector.addr + 56 + 24 * m)
          × (sector.end_idx < 2 ^ 32 - 1)

      -- In a sector whose last entry is the (m + 1)-th one, `fdb_tsl_iter` calls the callback on
      -- the m + 1 entries in order, until it says to stop, and it does end.
      pub iter_sector-visit_tsls :
          HasEntries
          → iter_sector d cb t sec_addr read a s
            ≡ some (
                at_sector
                  (in_ram d t read)
                  (visit_tsls (ascending ((in_ram d t read).addr + 56) (suc m)) a s))
      unfolding iter_sector
      iter_sector-visit_tsls (has, used, last, small) =
          let sector = in_ram d t read in
          let first : u32 (sector.addr + 56) ≡ sector.addr + 56 = omega arith in
          rw (
            has,
            iter_sector,
            first,
            tsl_loop-ascending sector used m (suc sector.end_idx) (sector.addr + 56) a s
                (omega arith) last small,
          )

      -- There, `fdb_tsl_iter_reverse` calls it on the same entries from the last one to the first.
      pub iter_sector_reverse-visit_tsls :
          HasEntries
          → iter_sector_reverse d cb t sec_addr read a s
            ≡ some (
                at_sector
                  (in_ram d t read)
                  (visit_tsls (descending ((in_ram d t read).addr + 56) (suc m)) a s))
      unfolding iter_sector_reverse
      iter_sector_reverse-visit_tsls (has, used, last, small) =
          let sector = in_ram d t read in
          let loop =
            ap (λ x. tsl_loop d get_last_tsl_addr cb t sector (suc sector.end_idx) x a s) last
            ∙ tsl_loop-descending sector used m (suc sector.end_idx) a s (omega arith)
                (omega arith) in
          rw (has, iter_sector_reverse, loop)
