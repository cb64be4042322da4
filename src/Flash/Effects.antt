-- ===== src/Flash/Effects.antt =====
-- What writes and reads do to the contents of a device that satisfies `IsNor`.
use flashdb_rs.Prelude.{
  ℕ, zero, suc, ◌+◌, ◌≤◌, ◌<◌, ◌≡◌, ◌≢◌, refl, sym, ap, ap₂, ◌∙◌, fun_ext, subst, Bool, List, [],
  ◌∷◌, arith, if◌then◌else◌, length, ltb, leb, ◌&&◌,
}
use flashdb_rs.Prelude.Bits.{bit_and_erased}
use flashdb_rs.Prelude.Bytes.{AreBytes}
use flashdb_rs.Types.{no_err, custom, byte_erased}
use flashdb_rs.Flash.{Driver, Step, ◌>>◌, flash_read, flash_write, flash_erase}
use flashdb_rs.Flash.Nor.{slice, patch, Programs, IsNor}

-- A byte outside what was written is as it was.
pub patch_below : (m : ℕ → ℕ) (a : ℕ) (bs : List ℕ) (p : ℕ) → p < a → patch m a bs p ≡ m p
patch_below m a [] p h = refl
patch_below m a (b ∷ bs) p h = ground (arith, patch_below m (suc a) bs p)

pub patch_above :
    (m : ℕ → ℕ) (a : ℕ) (bs : List ℕ) (p : ℕ) → a + length bs ≤ p → patch m a bs p ≡ m p
patch_above m a [] p h = refl
patch_above m a (b ∷ bs) p h = ground (arith, patch_above m (suc a) bs p (omega arith))

pub patch_other : (m : ℕ → ℕ) (a b p : ℕ) → p ≢ a → patch m a (b ∷ []) p ≡ m p
patch_other m a b p h = ground arith

pub slice_congr :
    (m k : ℕ → ℕ) (a n : ℕ) → ((p : ℕ) → a ≤ p → p < a + n → m p ≡ k p) → slice m a n ≡ slice k a n
slice_congr m k a zero h = refl
slice_congr m k a (suc n) h =
    ap₂ ◌∷◌ (h a (omega arith) (omega arith))
      (slice_congr m k (suc a) n (λ p q r. h p (omega arith) (omega arith)))

-- What was written is read back.
pub slice-patch : (m : ℕ → ℕ) (a : ℕ) (bs : List ℕ) → slice (patch m a bs) a (length bs) ≡ bs
slice-patch m a [] = refl
slice-patch m a (b ∷ bs) = ap₂ ◌∷◌ (ground arith) (
    slice_congr (patch m a (b ∷ bs)) (patch m (suc a) bs) (suc a) (length bs)
      (λ p q r. ground arith)
    ∙ slice-patch m (suc a) bs)

-- An erased region takes any bytes.
pub Programs-erased :
    (m : ℕ → ℕ) (a : ℕ) (bs : List ℕ)
    → ((p : ℕ) → a ≤ p → p < a + length bs → m p ≡ byte_erased)
    → AreBytes bs
    → Programs m a bs
Programs-erased m a [] h k = tt
Programs-erased m a (b ∷ bs) h k = (
  rw (h a (omega arith) (omega arith)) (bit_and_erased b k.0),
  Programs-erased m (suc a) bs (λ p q r. h p (omega arith) (omega arith)) k.1,
)

module _ {S : Type 0} (d : Driver S) (view : S → ℕ → ℕ) where
  -- The code succeeds, and the contents afterwards are `m`.
  abbrev pub Leaves : Step S → S → (ℕ → ℕ) → Type 0
  Leaves step s m = ((step s).0 ≡ no_err) × (view (step s).1 ≡ m)

  pub >>-Leaves :
      (a b : Step S) (s : S) (m k : ℕ → ℕ)
      → Leaves a s m
      → ((t : S) → view t ≡ m → Leaves b t k)
      → Leaves (a >> b) s k
  >>-Leaves a b s m k (e, v) next = rw (e, ◌>>◌) (next (a s).1 v)

  module _ {cap : ℕ} (nor : IsNor d view cap) where
    pub flash_write-Leaves :
        (addr : ℕ) (bs : List ℕ) (sync : Bool) (s : S) (m : ℕ → ℕ)
        → view s ≡ m
        → addr + length bs ≤ cap
        → Programs m addr bs
        → Leaves (flash_write d custom addr bs sync) s (patch m addr bs)
    unfolding flash_write
    flash_write-Leaves addr bs sync s m e h k =
        let (ok, v) = nor.write_ok s addr bs sync h (subst (λ m. Programs m addr bs) (sym e) k) in
        (ok, fun_ext v ∙ ap (λ m. patch m addr bs) e)

    pub flash_read-slice :
        (addr n : ℕ) (s : S) (m : ℕ → ℕ)
        → view s ≡ m
        → addr + n ≤ cap
        → flash_read d custom s addr n ≡ (no_err, slice m addr n)
    unfolding flash_read
    flash_read-slice addr n s m e h = nor.read_ok s addr n h ∙ ap (λ m. (no_err, slice m addr n)) e

    pub flash_erase-Leaves :
        (addr n : ℕ) (s : S) (m : ℕ → ℕ)
        → view s ≡ m
        → addr + n ≤ cap
        → Leaves
            (flash_erase d custom addr n)
            s
            (λ p. if leb addr p && ltb p (addr + n) then byte_erased else m p)
    unfolding flash_erase
    flash_erase-Leaves addr n s m e h =
        let (ok, v) = nor.erase_ok s addr n h in
        (
          ok,
          fun_ext v
              ∙ ap {B = ℕ → ℕ} (λ m p. if leb addr p && ltb p (addr + n) then byte_erased else m p)
                  e,
        )
