-- ===== src/Prelude/Bytes.antt =====
-- Words in memory, lowest byte first, and the C arithmetic on them.
use Prim.Native.Nat.{ℕ, zero, suc, ◌+◌, ◌-◌, ◌*◌, ◌/◌, ◌%◌, ◌^◌, ◌<◌}
use mathlib.Core.Path.{◌≡◌}
use mathlib.Core.Bool.{Bool, not}
use mathlib.Core.List.{List, [], ◌∷◌, ◌++◌}
use native.Mathlib.Omega.{arith}
use flashdb_rs.Prelude.Tests.{ltb}
use flashdb_rs.Prelude.Lists.{take, drop}

-- The `n` bytes of a word.
abbrev pub le_bytes : ℕ → ℕ → List ℕ
le_bytes zero x = []
le_bytes (suc n) x = x % 256 ∷ le_bytes n (x / 256)

abbrev pub le_value : List ℕ → ℕ
le_value [] = 0
le_value (b ∷ bs) = b + 256 * le_value bs

-- The field of `n` bytes at an offset of a structure.
abbrev pub field : ℕ → ℕ → List ℕ → ℕ
field offset n buf = le_value (take n (drop offset buf))

-- `uint32_t` subtraction
abbrev pub sub32 : ℕ → ℕ → ℕ
sub32 a b = (a + 2 ^ 32 - b) % 2 ^ 32

-- An `int64_t` is its bit pattern, below 2 ^ 64. Adding 2 ^ 63 puts the patterns in the order of
-- the numbers that they stand for.
abbrev pub signed_key : ℕ → ℕ
signed_key x = (x + 2 ^ 63) % 2 ^ 64

-- `a < b` and `a <= b` at `int64_t`
abbrev pub slt : ℕ → ℕ → Bool
slt a b = ltb (signed_key a) (signed_key b)

abbrev pub sle : ℕ → ℕ → Bool
sle a b = not (slt b a)

-- `a < b` at `int`, for bit patterns below 2 ^ 32
abbrev pub slt32 : ℕ → ℕ → Bool
slt32 a b = ltb ((a + 2 ^ 31) % 2 ^ 32) ((b + 2 ^ 31) % 2 ^ 32)

pub slt32-ltb : (a b : ℕ) → a < 2 ^ 31 → b < 2 ^ 31 → slt32 a b ≡ ltb a b
slt32-ltb a b h k = ground arith

pub le_value-le_bytes4 : (x : ℕ) → x < 2 ^ 32 → le_value (le_bytes 4 x) ≡ x
le_value-le_bytes4 x h = omega arith

pub le_value-le_bytes8 : (x : ℕ) → x < 2 ^ 64 → le_value (le_bytes 8 x) ≡ x
le_value-le_bytes8 x h = omega arith

-- All of the bytes are bytes.
abbrev pub AreBytes : List ℕ → Type 0
AreBytes [] = Unit {0}
AreBytes (b ∷ bs) = (b < 256) × AreBytes bs

pub le_bytes-AreBytes : (n x : ℕ) → AreBytes (le_bytes n x)
le_bytes-AreBytes zero x = tt
le_bytes-AreBytes (suc n) x = (omega arith, le_bytes-AreBytes n (x / 256))

pub append-AreBytes : (xs ys : List ℕ) → AreBytes xs → AreBytes ys → AreBytes (xs ++ ys)
append-AreBytes [] ys h k = k
append-AreBytes (x ∷ xs) ys h k = (h.0, append-AreBytes xs ys h.1 k)
