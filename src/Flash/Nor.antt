-- ===== src/Flash/Nor.antt =====
-- What the code relies on of a driver: the documented behaviour of NOR flash, which a plain file
-- has too. A write may only turn ones into zeros, an erase sets every byte to 0xff.
use flashdb_rs.Prelude.{
  ℕ, zero, suc, ◌+◌, ◌≤◌, ◌≡◌, Bool, ◌&&◌, List, [], ◌∷◌, bit_and, ◌==◌, ltb, leb, length,
  if◌then◌else◌,
}
use flashdb_rs.Types.{no_err, byte_erased}
use flashdb_rs.Flash.{Driver}

-- The bytes `m[addr .. addr + n)`.
abbrev pub slice : (ℕ → ℕ) → ℕ → ℕ → List ℕ
slice m addr zero = []
slice m addr (suc n) = m addr ∷ slice m (suc addr) n

-- `m` with the bytes of `bs` from `addr` on.
abbrev pub patch : (ℕ → ℕ) → ℕ → List ℕ → ℕ → ℕ
patch m addr [] p = m p
patch m addr (b ∷ bs) p = if p == addr then b else patch m (suc addr) bs p

-- Writing `bs` at `addr` would only turn ones into zeros.
abbrev pub Programs : (ℕ → ℕ) → ℕ → List ℕ → Type 0
Programs m addr [] = Unit {0}
Programs m addr (b ∷ bs) = (bit_and (m addr) b ≡ b) × Programs m (suc addr) bs

-- A driver of a device of `cap` bytes, whose contents in state `s` are `view s`.
pub record IsNor {S : Type 0} (d : Driver S) (view : S → ℕ → ℕ) (cap : ℕ) : Type 0 where
  pub read_ok :
      (s : S) (addr n : ℕ) → addr + n ≤ cap → d.read s addr n ≡ (no_err, slice (view s) addr n)
  pub write_ok :
      (s : S) (addr : ℕ) (bs : List ℕ) (sync : Bool)
      → addr + length bs ≤ cap
      → Programs (view s) addr bs
      → ((d.write addr bs sync s).0 ≡ no_err)
        × ((p : ℕ) → view (d.write addr bs sync s).1 p ≡ patch (view s) addr bs p)
  pub erase_ok :
      (s : S) (addr n : ℕ)
      → addr + n ≤ cap
      → ((d.erase addr n s).0 ≡ no_err)
        × ((p : ℕ)
            → view (d.erase addr n s).1 p
              ≡ (if leb addr p && ltb p (addr + n) then byte_erased else view s p))
