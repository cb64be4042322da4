-- ===== src/Flash/Slices.antt =====
-- Parts of what was read, such as the fields of a structure.
use flashdb_rs.Prelude.{
  ℕ, zero, suc, ◌+◌, ◌≤◌, ◌≡◌, refl, sym, ap, ◌∙◌, List, ◌∷◌, arith, length, take, drop,
}
use flashdb_rs.Flash.Nor.{slice, patch}
use flashdb_rs.Flash.Effects.{slice-patch}

pub take-slice : (m : ℕ → ℕ) (a n k : ℕ) → n ≤ k → take n (slice m a k) ≡ slice m a n
take-slice m a zero k h = refl
take-slice m a (suc n) zero h = absurd (omega arith)
take-slice m a (suc n) (suc k) h = ap (λ l. m a ∷ l) (take-slice m (suc a) n k (omega arith))

-- The bytes of a field at offset `o`.
pub field-slice :
    (m : ℕ → ℕ) (a o n k : ℕ) → o + n ≤ k → take n (drop o (slice m a k)) ≡ slice m (a + o) n
field-slice m a zero n k h =
    let e : a ≡ a + 0 = omega arith in take-slice m a n k (omega arith) ∙ ap (λ x. slice m x n) e
field-slice m a (suc o) n zero h = absurd (omega arith)
field-slice m a (suc o) n (suc k) h =
    let e : suc a + o ≡ a + suc o = omega arith in
    field-slice m (suc a) o n k (omega arith) ∙ ap (λ x. slice m x n) e

-- A part of what was written, read back.
pub slice-patch_part :
    (m : ℕ → ℕ) (a : ℕ) (bs : List ℕ) (o n : ℕ)
    → o + n ≤ length bs
    → slice (patch m a bs) (a + o) n ≡ take n (drop o bs)
slice-patch_part m a bs o n h =
    sym (field-slice (patch m a bs) a o n (length bs) h)
    ∙ ap (λ l. take n (drop o l)) (slice-patch m a bs)
