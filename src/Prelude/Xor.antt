-- ===== src/Prelude/Xor.antt =====
-- The laws of `bit_xor` at variables, by its digits, lowest first.
use Prim.Native.Nat.{
  ℕ, zero, suc, ◌+◌, ◌*◌, ◌/◌, ◌%◌, ◌^◌, ◌≤◌, ◌<◌, bit_xor, bit_and, digits, differ,
  bit_xor-bitwise, bit_and-bitwise, min,
}
use mathlib.Core.Path.{◌≡◌, refl, sym, ap, ap₂, ◌∙◌}
use native.Mathlib.Nat.{pow-suc}
use native.Mathlib.Omega.{arith}

-- Any fuel that reaches the first number's end gives the same digits.
more_fuel :
    (z : ℕ → ℕ) (f : ℕ → ℕ → ℕ) (k l x y : ℕ) → x ≤ k → x ≤ l → digits z f k x y ≡ digits z f l x y
more_fuel z f zero zero x y p q = refl
more_fuel z f zero (suc l) zero y p q = refl
more_fuel z f zero (suc l) (suc x) y p q = absurd (omega arith)
more_fuel z f (suc k) zero zero y p q = refl
more_fuel z f (suc k) zero (suc x) y p q = absurd (omega arith)
more_fuel z f (suc k) (suc l) zero y p q = refl
more_fuel z f (suc k) (suc l) (suc x) y p q =
    rw (more_fuel z f k l (suc x / 2) (y / 2) (omega arith) (omega arith))

pub zero-bit_xor : (b : ℕ) → bit_xor 0 b ≡ b
zero-bit_xor b = bit_xor-bitwise 0 b

differ_digits : (x y : ℕ) → x < 2 → y < 2 → differ x y ≡ (x + y) % 2
differ_digits zero y h k = omega arith
differ_digits (suc zero) zero h k = refl
differ_digits (suc zero) (suc zero) h k = refl
differ_digits (suc zero) (suc (suc y)) h k = absurd (omega arith)
differ_digits (suc (suc x)) y h k = absurd (omega arith)

pub bit_xor_step : (a b : ℕ) → bit_xor a b ≡ bit_xor (a / 2) (b / 2) * 2 + (a % 2 + b % 2) % 2
bit_xor_step zero b = omega (arith, zero-bit_xor b, zero-bit_xor (b / 2))
bit_xor_step (suc a) b = omega (
  arith,
  bit_xor-bitwise (suc a) b,
  differ_digits (suc a % 2) (b % 2) (omega arith) (omega arith),
  bit_xor-bitwise (suc a / 2) (b / 2),
  more_fuel (λ c. c) differ a (suc a / 2) (suc a / 2) (b / 2) (omega arith) (omega arith),
)

-- What a proof by digits uses: the halves and the lowest digit.
pub half-bit_xor : (a b : ℕ) → bit_xor a b / 2 ≡ bit_xor (a / 2) (b / 2)
half-bit_xor a b = omega (arith, bit_xor_step a b)

xor_self_fuel : (n a : ℕ) → a ≤ n → bit_xor a a ≡ 0
xor_self_fuel n zero h = zero-bit_xor 0
xor_self_fuel zero (suc a) h = absurd (omega arith)
xor_self_fuel (suc n) (suc a) h =
    omega (arith, bit_xor_step (suc a) (suc a), xor_self_fuel n (suc a / 2) (omega arith))

pub bit_xor_self : (a : ℕ) → bit_xor a a ≡ 0
bit_xor_self a = xor_self_fuel a a (omega arith)

comm_fuel : (n a b : ℕ) → a + b ≤ n → bit_xor a b ≡ bit_xor b a
comm_fuel zero a b h = let e : a ≡ b = omega arith in λ i. bit_xor (e i) (sym e i)
comm_fuel (suc n) zero zero h = refl
comm_fuel (suc n) zero (suc b) h = omega (
  arith,
  bit_xor_step zero (suc b),
  bit_xor_step (suc b) zero,
  comm_fuel n 0 (suc b / 2) (omega arith),
)
comm_fuel (suc n) (suc a) b h = omega (
  arith,
  bit_xor_step (suc a) b,
  bit_xor_step b (suc a),
  comm_fuel n (suc a / 2) (b / 2) (omega arith),
)

pub bit_xor_comm : (a b : ℕ) → bit_xor a b ≡ bit_xor b a
bit_xor_comm a b = comm_fuel (a + b) a b (omega arith)

pub bit_xor-zero : (a : ℕ) → bit_xor a 0 ≡ a
bit_xor-zero a = bit_xor_comm a 0 ∙ zero-bit_xor a

assoc_fuel : (n a b c : ℕ) → a ≤ n → bit_xor (bit_xor a b) c ≡ bit_xor a (bit_xor b c)
assoc_fuel n zero b c h = ap (λ t. bit_xor t c) (zero-bit_xor b) ∙ sym (zero-bit_xor (bit_xor b c))
assoc_fuel zero (suc a) b c h = absurd (omega arith)
assoc_fuel (suc n) (suc a) b c h =
    let x = bit_xor (suc a) b in
    let y = bit_xor b c in
    let left : bit_xor (x / 2) (c / 2) ≡ bit_xor (bit_xor (suc a / 2) (b / 2)) (c / 2) =
      ap (λ t. bit_xor t (c / 2)) (half-bit_xor (suc a) b) in
    let right : bit_xor (suc a / 2) (y / 2) ≡ bit_xor (suc a / 2) (bit_xor (b / 2) (c / 2)) =
      ap (λ t. bit_xor (suc a / 2) t) (half-bit_xor b c) in
    omega (
      arith,
      bit_xor_step x c,
      bit_xor_step (suc a) y,
      bit_xor_step (suc a) b,
      bit_xor_step b c,
      left,
      right,
      assoc_fuel n (suc a / 2) (b / 2) (c / 2) (omega arith),
    )

pub bit_xor_assoc : (a b c : ℕ) → bit_xor (bit_xor a b) c ≡ bit_xor a (bit_xor b c)
bit_xor_assoc a b c = assoc_fuel a a b c (omega arith)

-- A mask applied twice is undone.
pub bit_xor_twice : (a m : ℕ) → bit_xor (bit_xor a m) m ≡ a
bit_xor_twice a m = bit_xor_assoc a m m ∙ ap (λ t. bit_xor a t) (bit_xor_self m) ∙ bit_xor-zero a

-- The four terms of two sums, regrouped.
pub bit_xor_regroup :
    (a b c e : ℕ) → bit_xor (bit_xor a b) (bit_xor c e) ≡ bit_xor (bit_xor a c) (bit_xor b e)
bit_xor_regroup a b c e =
    bit_xor_assoc a b (bit_xor c e)
    ∙ ap (λ t. bit_xor a t)
        (sym (bit_xor_assoc b c e) ∙ ap (λ t. bit_xor t e) (bit_xor_comm b c) ∙ bit_xor_assoc c b e)
    ∙ sym (bit_xor_assoc a c (bit_xor b e))

-- A shifted number and one that fits below it do not meet.
pub bit_xor_fields : (k h l : ℕ) → l < 2 ^ k → bit_xor (h * 2 ^ k) l ≡ h * 2 ^ k + l
bit_xor_fields zero h l fits =
    let e : l ≡ 0 = omega arith in
    ap (λ t. bit_xor (h * 1) t) e ∙ bit_xor-zero (h * 1) ∙ omega arith
bit_xor_fields (suc k) h l fits =
    let twice : h * 2 ^ suc k ≡ 2 * (h * 2 ^ k) =
      omega (arith, ap (λ (t : ℕ). h * t) (pow-suc 2 k)) in
    let below : l / 2 < 2 ^ k = omega (arith, pow-suc 2 k) in
    let halved : bit_xor (h * 2 ^ suc k / 2) (l / 2) ≡ bit_xor (h * 2 ^ k) (l / 2) =
      ap (λ t. bit_xor t (l / 2)) (omega arith) in
    omega (arith, bit_xor_step (h * 2 ^ suc k) l, halved, bit_xor_fields k h (l / 2) below)

quarter-bit_xor : (a b : ℕ) → bit_xor a b / 4 ≡ bit_xor (a / 4) (b / 4)
quarter-bit_xor a b =
    let e : bit_xor (a / 2 / 2) (b / 2 / 2) ≡ bit_xor (a / 4) (b / 4) =
      ap₂ bit_xor (omega arith) (omega arith) in
    omega (arith, half-bit_xor a b, half-bit_xor (a / 2) (b / 2), e)

nibble-bit_xor : (a b : ℕ) → bit_xor a b / 16 ≡ bit_xor (a / 16) (b / 16)
nibble-bit_xor a b =
    let e : bit_xor (a / 4 / 4) (b / 4 / 4) ≡ bit_xor (a / 16) (b / 16) =
      ap₂ bit_xor (omega arith) (omega arith) in
    omega (arith, quarter-bit_xor a b, quarter-bit_xor (a / 4) (b / 4), e)

-- A shift by a byte.
pub byte-bit_xor : (a b : ℕ) → bit_xor a b / 256 ≡ bit_xor (a / 256) (b / 256)
byte-bit_xor a b =
    let e : bit_xor (a / 16 / 16) (b / 16 / 16) ≡ bit_xor (a / 256) (b / 256) =
      ap₂ bit_xor (omega arith) (omega arith) in
    omega (arith, nibble-bit_xor a b, nibble-bit_xor (a / 16) (b / 16), e)

and_digits-fuel :
    (x y : ℕ) → bit_and (suc x) y ≡ min (suc x % 2) (y % 2) + 2 * bit_and (suc x / 2) (y / 2)
and_digits-fuel x y =
    let top = bit_and-bitwise (suc x) y in
    let rest = bit_and-bitwise (suc x / 2) (y / 2) in
    let same = more_fuel (λ c. 0) min x (suc x / 2) (suc x / 2) (y / 2) in
    omega (arith, top, rest, same (omega arith) (omega arith))

and_none : (y : ℕ) → bit_and 0 y ≡ 0
and_none y = bit_and-bitwise 0 y

-- The lowest digit, and the rest.
and_digits : (x y : ℕ) → bit_and x y ≡ min (x % 2) (y % 2) + 2 * bit_and (x / 2) (y / 2)
and_digits zero y = omega (arith, and_none y, and_none (y / 2))
and_digits (suc x) y = and_digits-fuel x y

and_zero_fuel : (n a : ℕ) → a ≤ n → bit_and a 0 ≡ 0
and_zero_fuel n zero h = refl
and_zero_fuel zero (suc a) h = absurd (omega arith)
and_zero_fuel (suc n) (suc a) h =
    omega (arith, and_digits (suc a) 0, and_zero_fuel n (suc a / 2) (omega arith))

bit_and_three : (a : ℕ) → bit_and a 3 ≡ a % 4
bit_and_three a = omega (
  arith,
  and_digits a 3,
  and_digits (a / 2) 1,
  and_zero_fuel (a / 2 / 2) (a / 2 / 2) (omega arith),
)

bit_and_fifteen : (a : ℕ) → bit_and a 15 ≡ a % 16
bit_and_fifteen a = omega (arith, and_digits a 15, and_digits (a / 2) 7, bit_and_three (a / 2 / 2))

bit_and_63 : (a : ℕ) → bit_and a 63 ≡ a % 64
bit_and_63 a = omega (arith, and_digits a 63, and_digits (a / 2) 31, bit_and_fifteen (a / 2 / 2))

-- The lowest byte.
pub bit_and_byte : (a : ℕ) → bit_and a 0xff ≡ a % 256
bit_and_byte a = omega (arith, and_digits a 255, and_digits (a / 2) 127, bit_and_63 (a / 2 / 2))
