-- ===== src/Prelude/Bits.antt =====
-- Facts about `bit_and` and `bit_xor`, which the tactics take for unknowns.
use Prim.Native.Nat.{ℕ, zero, suc, ◌<◌, bit_and}
use mathlib.Core.Path.{◌≡◌, refl, sym}
use mathlib.Core.Bool.{Bool, true, false, not, ◌&&◌}
use native.Mathlib.Omega.{arith}
use flashdb_rs.Prelude.Tests.{◌==◌, ==_iff}

-- A Boolean test of the numbers below `bound`, from the first one on, which evaluation decides.
unfoldable pub passes : (ℕ → Bool) → ℕ → Bool
passes test zero = true
passes test (suc bound) = passes test bound && test bound

pub passes-at :
    (test : ℕ → Bool) (bound i : ℕ) → i < bound → passes test bound ≡ true → test i ≡ true
unfolding passes
passes-at test zero i below ok = absurd (omega arith)
passes-at test (suc bound) i below ok = ground (arith, passes-at test bound i)

and_erased_table : passes (λ x. bit_and 255 x == x) 256 ≡ true
unfolding passes
and_erased_table = refl

-- An erased byte takes any byte.
pub bit_and_erased : (x : ℕ) → x < 256 → bit_and 255 x ≡ x
bit_and_erased x h = (==_iff _ x).0 (passes-at _ 256 x h and_erased_table)

abbrev pub same : Bool → Bool → Bool
same true b = b
same false b = not b

pub same→eq : (a b : Bool) → same a b ≡ true → a ≡ b
same→eq true b h = sym h
same→eq false true h = h
same→eq false false h = refl
