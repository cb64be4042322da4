-- ===== src/Crc/Range.antt =====
-- A checksum of flashdb/fdb_utils.c fits in 32 bits.
use flashdb_rs.Prelude.{
  ℕ, zero, suc, ◌/◌, ◌^◌, ◌<◌, ◌≡◌, refl, sym, ap, subst, true, List, [], ◌∷◌, bit_xor, bit_and,
  arith, ltb, ltb→lt, get_or,
}
use native.Mathlib.Nat.{pow-suc}
use flashdb_rs.Prelude.Bits.{passes, passes-at}
use flashdb_rs.Prelude.Xor.{bit_xor_step, bit_xor-zero, bit_and_byte}
use flashdb_rs.Crc.{crc32_table, crc_round, crc_loop, calc_crc32}

bit_xor-lt : (k a b : ℕ) → a < 2 ^ k → b < 2 ^ k → bit_xor a b < 2 ^ k
bit_xor-lt zero a b h g =
    let e : a ≡ 0 = omega arith in
    let f : b ≡ 0 = omega arith in
    subst (λ x. x < 2 ^ zero) (sym (ap (bit_xor a) f))
      (subst (λ x. x < 2 ^ zero) (sym (bit_xor-zero a)) h)
bit_xor-lt (suc k) a b h g =
    let p = pow-suc 2 k in
    let rest = bit_xor-lt k (a / 2) (b / 2) (omega (arith, p)) (omega (arith, p)) in
    omega (arith, p, bit_xor_step a b, rest)

table_small : passes (λ i. ltb (get_or crc32_table i 0) (2 ^ 32)) 256 ≡ true
unfolding passes
table_small = refl

crc_round-lt : (crc b : ℕ) → crc < 2 ^ 32 → crc_round crc b < 2 ^ 32
unfolding crc_round
crc_round-lt crc b h =
    let i = bit_and (bit_xor crc b) 0xff in
    let low : i < 256 = omega (arith, bit_and_byte (bit_xor crc b)) in
    bit_xor-lt 32 (get_or crc32_table i 0) (crc / 2 ^ 8)
      (ltb→lt _ _ (passes-at (λ i. ltb (get_or crc32_table i 0) (2 ^ 32)) 256 i low table_small))
      (omega arith)

crc_loop-lt : (bs : List ℕ) (crc : ℕ) → crc < 2 ^ 32 → crc_loop crc bs < 2 ^ 32
unfolding crc_loop
crc_loop-lt [] crc h = h
crc_loop-lt (b ∷ bs) crc h = crc_loop-lt bs (crc_round crc b) (crc_round-lt crc b h)

pub calc_crc32-lt : (crc : ℕ) (bs : List ℕ) → crc < 2 ^ 32 → calc_crc32 crc bs < 2 ^ 32
unfolding calc_crc32
calc_crc32-lt crc bs h =
    bit_xor-lt 32 (crc_loop (bit_xor crc 0xffff_ffff) bs) 0xffff_ffff
      (crc_loop-lt bs (bit_xor crc 0xffff_ffff) (bit_xor-lt 32 crc 0xffff_ffff h (omega arith)))
      (omega arith)
