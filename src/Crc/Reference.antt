-- ===== src/Crc/Reference.antt =====
-- The table-driven loop against the bit-by-bit definition of CRC-32, and checksums in parts.
use flashdb_rs.Prelude.{
  ℕ, zero, suc, ◌+◌, ◌*◌, ◌/◌, ◌%◌, ◌^◌, ◌<◌, ◌≡◌, refl, sym, ap, ap₂, ◌∙◌, true, List, [], ◌∷◌,
  ◌++◌, bit_xor, arith, ◌==◌, ==_iff, Bool-cases, inl, inr, if◌then◌else◌, get_or,
}
use flashdb_rs.Prelude.Bits.{passes, passes-at}
use flashdb_rs.Prelude.Xor.{
  bit_xor_step, half-bit_xor, bit_xor_comm, bit_xor-zero, bit_xor_twice, bit_xor_regroup,
  bit_xor_fields, byte-bit_xor, bit_and_byte,
}
use flashdb_rs.Prelude.Bytes.{AreBytes}
use flashdb_rs.Crc.{crc32_table, crc_round, crc_loop, calc_crc32}

-- The reference: division by the reversed polynomial, one bit at a time.
unfoldable pub bit_round : ℕ → ℕ
bit_round x = if x % 2 == 1 then bit_xor (x / 2) 0xedb8_8320 else x / 2

unfoldable pub byte_round : ℕ → ℕ
byte_round x =
    bit_round (bit_round (bit_round (bit_round (bit_round (bit_round (bit_round (bit_round x)))))))

unfoldable pub bitwise_loop : ℕ → List ℕ → ℕ
bitwise_loop crc [] = crc
bitwise_loop crc (b ∷ bs) = bitwise_loop (byte_round (bit_xor crc b)) bs

-- The feedback is the polynomial times the lowest bit.
bit_round-mul : (x : ℕ) → bit_round x ≡ bit_xor (x / 2) (0xedb8_8320 * (x % 2))
unfolding bit_round
bit_round-mul x = elim (Bool-cases (x % 2 == 1)) [
  | inl odd ↦ rw (odd, (==_iff (x % 2) 1).0 odd)
  | inr even ↦ let e : x % 2 ≡ 0 = ground arith in rw (even, e) (sym (bit_xor-zero (x / 2)))
]

feedback-bit_xor :
    (x y : ℕ)
    → x < 2
    → y < 2
    → 0xedb8_8320 * ((x + y) % 2) ≡ bit_xor (0xedb8_8320 * x) (0xedb8_8320 * y)
feedback-bit_xor zero zero h k = refl
feedback-bit_xor zero (suc zero) h k = refl
feedback-bit_xor (suc zero) zero h k = refl
feedback-bit_xor (suc zero) (suc zero) h k = refl
feedback-bit_xor x (suc (suc y)) h k = absurd (omega arith)
feedback-bit_xor (suc (suc x)) y h k = absurd (omega arith)

bit_round-bit_xor : (x y : ℕ) → bit_round (bit_xor x y) ≡ bit_xor (bit_round x) (bit_round y)
bit_round-bit_xor x y =
    let low : bit_xor x y % 2 ≡ (x % 2 + y % 2) % 2 = omega (arith, bit_xor_step x y) in
    bit_round-mul (bit_xor x y)
    ∙ ap₂ bit_xor (half-bit_xor x y) (
        ap (λ t. 0xedb8_8320 * t) low
        ∙ feedback-bit_xor (x % 2) (y % 2) (omega arith) (omega arith))
    ∙ bit_xor_regroup (x / 2) (y / 2) (0xedb8_8320 * (x % 2)) (0xedb8_8320 * (y % 2))
    ∙ ap₂ bit_xor (sym (bit_round-mul x)) (sym (bit_round-mul y))

byte_round-bit_xor : (x y : ℕ) → byte_round (bit_xor x y) ≡ bit_xor (byte_round x) (byte_round y)
unfolding byte_round
byte_round-bit_xor x y = simp bit_round-bit_xor

bit_round-double : (y : ℕ) → bit_round (2 * y) ≡ y
bit_round-double y =
    bit_round-mul (2 * y) ∙ ap₂ bit_xor (omega arith) (omega arith) ∙ bit_xor-zero y

byte_round-shift : (h : ℕ) → byte_round (h * 2 ^ 8) ≡ h
unfolding byte_round
byte_round-shift h =
    let e : h * 2 ^ 8 ≡ 2 * (2 * (2 * (2 * (2 * (2 * (2 * (2 * h))))))) = omega arith in
    rw e (simp bit_round-double)

table_check : passes (λ i. get_or crc32_table i 0 == byte_round i) 256 ≡ true
unfolding passes byte_round bit_round
table_check = refl

-- Each entry of the table is the reference's round at its index.
table-byte_round : (i : ℕ) → i < 256 → get_or crc32_table i 0 ≡ byte_round i
table-byte_round i h =
    (==_iff _ (byte_round i)).0
      (passes-at (λ i. get_or crc32_table i 0 == byte_round i) 256 i h table_check)

crc_round-byte_round : (crc b : ℕ) → b < 256 → crc_round crc b ≡ byte_round (bit_xor crc b)
unfolding crc_round
crc_round-byte_round crc b h =
    let x = bit_xor crc b in
    let high : crc / 2 ^ 8 ≡ x / 256 = sym (
      byte-bit_xor crc b
      ∙ ap (λ t. bit_xor (crc / 256) t) (omega arith)
      ∙ bit_xor-zero (crc / 256)) in
    let whole : bit_xor (x % 256) (x / 256 * 2 ^ 8) ≡ x =
      bit_xor_comm (x % 256) (x / 256 * 2 ^ 8)
      ∙ bit_xor_fields 8 (x / 256) (x % 256) (omega arith)
      ∙ omega arith in
    ap₂ bit_xor
      (ap (λ t. get_or crc32_table t 0) (bit_and_byte x) ∙ table-byte_round (x % 256) (omega arith))
      (high ∙ sym (byte_round-shift (x / 256)))
    ∙ sym (byte_round-bit_xor (x % 256) (x / 256 * 2 ^ 8))
    ∙ ap byte_round whole

crc_loop-bitwise : (crc : ℕ) (bs : List ℕ) → AreBytes bs → crc_loop crc bs ≡ bitwise_loop crc bs
unfolding crc_loop bitwise_loop
crc_loop-bitwise crc [] h = refl
crc_loop-bitwise crc (b ∷ bs) h =
    crc_loop-bitwise (crc_round crc b) bs h.1
    ∙ ap (λ t. bitwise_loop t bs) (crc_round-byte_round crc b h.0)

-- The table-driven `fdb_calc_crc32` computes the CRC-32 of the reversed polynomial 0xedb88320, bit
-- by bit, of every sequence of bytes and from every starting checksum.
pub calc_crc32-bitwise :
    (crc : ℕ) (bs : List ℕ)
    → AreBytes bs
    → calc_crc32 crc bs ≡ bit_xor (bitwise_loop (bit_xor crc 0xffff_ffff) bs) 0xffff_ffff
unfolding calc_crc32
calc_crc32-bitwise crc bs h =
    ap (λ t. bit_xor t 0xffff_ffff) (crc_loop-bitwise (bit_xor crc 0xffff_ffff) bs h)

crc_loop-append :
    (crc : ℕ) (xs ys : List ℕ) → crc_loop (crc_loop crc xs) ys ≡ crc_loop crc (xs ++ ys)
unfolding crc_loop
crc_loop-append crc [] ys = refl
crc_loop-append crc (x ∷ xs) ys = crc_loop-append (crc_round crc x) xs ys

-- A checksum may be taken in parts: starting from the checksum of the first bytes continues it.
pub calc_crc32-append :
    (crc : ℕ) (xs ys : List ℕ) → calc_crc32 (calc_crc32 crc xs) ys ≡ calc_crc32 crc (xs ++ ys)
unfolding calc_crc32
calc_crc32-append crc xs ys = rw (bit_xor_twice, crc_loop-append (bit_xor crc 0xffff_ffff) xs ys)
