-- ===== src/FreeSpace/Scan.antt =====
-- The result of `_fdb_continue_ff_addr` (flashdb/fdb_utils.c), by the invariant of its loops.
use flashdb_rs.Prelude.{
  ℕ, zero, suc, ◌+◌, ◌-◌, ◌^◌, ◌≤◌, ◌<◌, ◌≡◌, refl, ◌≢◌, inl, inr, true, false, Option, none, some,
  ◌∷◌, arith, ◌==◌, ltb, ltb→lt, Bool-cases, if◌then◌else◌, take, subst, ap, ◌∙◌, not, ◌&&◌,
}
use native.Mathlib.Decide.{dec_lt}
use flashdb_rs.Types.{custom, byte_erased, byte_written, u32, wg_align}
use flashdb_rs.Flash.{Driver, flash_read}
use flashdb_rs.Flash.Nor.{slice, IsNor}
use flashdb_rs.FreeSpace.{scan_buf, ff_loop, continue_ff_addr}

-- `r` is the least address of `m[start .. end)` from which on every byte is erased.
pub record IsFreeFrom (m : ℕ → ℕ) (start end r : ℕ) : Type 0 where
  pub lower : start ≤ r
  pub upper : r ≤ end
  pub erased : (p : ℕ) → r ≤ p → p < end → m p ≡ byte_erased
  pub least : (k : ℕ) → r ≡ suc k → start ≤ k → m k ≢ byte_erased

-- The loops have read `m[start .. pos)`.
record Inv (m : ℕ → ℕ) (start pos last_data addr : ℕ) : Type 0 where
  lower : start ≤ addr
  upper : addr ≤ pos
  first : start ≡ pos → last_data ≡ byte_written
  last : (k : ℕ) → pos ≡ suc k → start ≤ k → last_data ≡ m k
  erased : last_data ≡ byte_erased → (p : ℕ) → addr ≤ p → p < pos → m p ≡ byte_erased
  least : (k : ℕ) → addr ≡ suc k → start ≤ k → m k ≢ byte_erased

module _ (m : ℕ → ℕ) (start : ℕ) where
  module _ {pos last_data addr : ℕ} (v : Inv m start pos last_data addr) where
    open v use {lower, upper, first, last, erased, least}

    keep-Inv : (m pos ≡ byte_erased → last_data ≡ byte_erased) → Inv m start (suc pos) (m pos) addr
    keep-Inv h = record {
      lower = lower;
      upper = omega arith;
      first = λ e. absurd (omega arith);
      last = λ k e q. ap m (omega arith);
      erased = λ e p q r. elim (dec_lt p pos) [
        | yes b ↦ erased (h e) p q b
        | no nb ↦ let same : p ≡ pos = omega arith in ap m same ∙ e
      ];
      least = least;
    }

    move-Inv : last_data ≢ byte_erased → Inv m start (suc pos) (m pos) pos
    move-Inv h = record {
      lower = omega arith;
      upper = omega arith;
      first = λ e. absurd (omega arith);
      last = λ k e q. ap m (omega arith);
      erased = λ e p q r. let same : p ≡ pos = omega arith in ap m same ∙ e;
      least = λ k e q r. h (last k e q ∙ r);
    }

    step-Inv :
        Inv m start
          (suc pos)
          (m pos)
          (if not (last_data == byte_erased) && (m pos == byte_erased) then pos else addr)
    step-Inv = elim (Bool-cases (last_data == byte_erased)) [
      | inl old ↦ rw old (keep-Inv (λ _. ground arith))
      | inr new ↦ elim (Bool-cases (m pos == byte_erased)) [
        | inl e ↦ rw (new, e) (move-Inv (ground arith))
        | inr e ↦ rw (new, e) (keep-Inv (λ h. absurd (ground arith)))
      ]
    ]

  scan_buf-Inv :
      (n pos q last_data addr : ℕ)
      → pos + n ≡ q
      → Inv m start pos last_data addr
      → let (last_data, addr) = scan_buf pos last_data addr (slice m pos n) in
        Inv m start q last_data addr
  unfolding scan_buf
  scan_buf-Inv zero pos q last_data addr e v =
      let e' : pos ≡ q = omega arith in subst (λ t. Inv m start t last_data addr) e' v
  scan_buf-Inv (suc n) pos q last_data addr e v =
      scan_buf-Inv n (suc pos) q (m pos) _ (omega arith) (step-Inv v)

take-slice : (m : ℕ → ℕ) (addr n : ℕ) → take n (slice m addr n) ≡ slice m addr n
take-slice m addr zero = refl
take-slice m addr (suc n) = ap (λ l. m addr ∷ l) (take-slice m (suc addr) n)

-- What the outer loop leaves.
abbrev Ends : (m : ℕ → ℕ) (start end : ℕ) → Option (ℕ × ℕ) → Type 0
Ends m start end none = ⊥
Ends m start end (some (last_data, addr)) = Inv m start end last_data addr

module _ {S : Type 0} (d : Driver S) (view : S → ℕ → ℕ) (cap : ℕ) (nor : IsNor d view cap) (s : S)
    (start end : ℕ) (fits : end ≤ cap) (small : end + 32 < 2 ^ 32) where
  -- One round: `n` bytes from `pos` are read and scanned.
  round-Inv :
      (pos n q last_data addr : ℕ)
      → pos + n ≡ q
      → q ≤ end
      → Inv (view s) start pos last_data addr
      → let (last_data, addr) =
          scan_buf pos last_data addr (take n (flash_read d custom s pos n).1) in
        Inv (view s) start q last_data addr
  unfolding flash_read
  round-Inv pos n q last_data addr e h v =
      rw (nor.read_ok s pos n (omega arith), take-slice (view s) pos n)
        (scan_buf-Inv (view s) start n pos q last_data addr e v)

  ff_loop-Ends :
      (fuel pos at last_data addr : ℕ)
      → (pos < end → at ≡ pos)
      → (end ≤ pos → at ≡ end)
      → end - pos < fuel
      → Inv (view s) start at last_data addr
      → Ends (view s) start end (ff_loop d custom s fuel pos end last_data addr)
  unfolding ff_loop
  ff_loop-Ends zero pos at last_data addr b c f v = absurd (omega arith)
  ff_loop-Ends (suc fuel) pos at last_data addr b c f v = elim (dec_lt pos end) [
    | no out ↦
        let e : at ≡ end = c (omega arith) in
        let t : ltb pos end ≡ false = ground arith in
        rw (t, ff_loop) (subst (λ t. Inv (view s) start t last_data addr) e v)
    | yes inside ↦
        let v' = subst (λ t. Inv (view s) start t last_data addr) (b inside) v in
        let t : ltb pos end ≡ true = ground arith in
        elim (Bool-cases (ltb (pos + 32) end)) [
          | inl more ↦
              let lt : pos + 32 < end = ltb→lt _ _ more in
              rw (t, ff_loop, more)
                (ff_loop-Ends fuel (u32 (pos + 32)) (pos + 32) _ _ (λ q. omega arith)
                  (λ q. absurd (omega arith)) (omega arith)
                  (round-Inv pos 32 (pos + 32) last_data addr refl (omega arith) v'))
          | inr last ↦
              let ge : end ≤ pos + 32 = ground arith in
              rw (t, ff_loop, last)
                (ff_loop-Ends fuel (u32 (pos + 32)) end _ _ (λ q. absurd (omega arith)) (λ q. refl)
                  (omega arith)
                  (round-Inv pos (end - pos) end last_data addr (omega arith) (omega arith) v'))
        ]
  ]

  start-Inv : Inv (view s) start start byte_written start
  start-Inv = record {
    lower = omega arith;
    upper = omega arith;
    first = λ _. refl;
    last = λ k e q. absurd (omega arith);
    erased = λ e. absurd (omega arith);
    least = λ k e q. absurd (omega arith);
  }

  -- On a device that reads back its contents, `_fdb_continue_ff_addr` returns, for a region of the
  -- device that ends 32 bytes below 2^32, the least address from which on the rest of the region is
  -- erased: every byte from there is 0xff and the byte before it, if it is in the region, is not.
  pub continue_ff_addr-IsFreeFrom :
      start ≤ end
      → (r : ℕ) × (continue_ff_addr d custom s start end ≡ some r) × IsFreeFrom (view s) start end r
  unfolding continue_ff_addr
  continue_ff_addr-IsFreeFrom h =
      go (ff_loop d custom s (suc (end - start)) start end byte_written start) (
        ff_loop-Ends (suc (end - start)) start start byte_written start (λ q. refl)
          (λ q. omega arith) (omega arith) start-Inv)
    where
      go :
          (o : Option (ℕ × ℕ))
          → Ends (view s) start end o
          → (r : ℕ) × ((elim o [
            | none ↦ none
            | some (last_data, addr) ↦
                some (if last_data == byte_erased then u32 (wg_align addr) else end)
          ])
              ≡ some r)
            × IsFreeFrom (view s) start end r
      go none e = absurd e
      go (some (last_data, addr)) v = elim (Bool-cases (last_data == byte_erased)) [
        | inl e ↦
            let same : u32 (wg_align addr) ≡ addr = omega (arith, v.upper) in
            (
              addr,
              rw (e, same),
              record {
                lower = v.lower;
                upper = v.upper;
                erased = v.erased (ground arith);
                least = v.least;
              },
            )
        | inr e ↦ (
          end,
          rw e,
          record {
            lower = h;
            upper = omega arith;
            erased = λ p q r. absurd (omega arith);
            least = λ k q r z. absurd (ground (arith, v.last k q r, z));
          },
        )
      ]
