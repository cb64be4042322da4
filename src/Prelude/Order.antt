-- ===== src/Prelude/Order.antt =====
-- The order test `ltb` along and across other tests.
use Prim.Native.Nat.{ℕ}
use mathlib.Core.Path.{◌≡◌}
use mathlib.Core.Bool.{true, false}
use native.Mathlib.Omega.{arith}
use flashdb_rs.Prelude.Tests.{ltb}

pub ltb_chain : (x y z : ℕ) → ltb y z ≡ true → ltb x y ≡ true → ltb x z ≡ true
ltb_chain x y z p q = ground arith

pub ltb_above : (a b c : ℕ) → ltb a b ≡ true → ltb a c ≡ false → ltb b c ≡ false
ltb_above a b c h k = ground arith

pub ltb_below : (a b c : ℕ) → ltb a b ≡ true → ltb c b ≡ false → ltb a c ≡ true
ltb_below a b c h k = ground arith

pub ltb_least : (a b c : ℕ) → ltb a b ≡ true → ltb a c ≡ false → ltb c b ≡ true
ltb_least a b c h k = ground arith

pub ltb_clash : (a b : ℕ) → ltb a b ≡ true → ¬ (ltb a b ≡ false)
ltb_clash a b h k = ground arith

pub ltb_asym : (a b : ℕ) → ltb a b ≡ true → ltb b a ≡ false
ltb_asym a b h = ground arith
