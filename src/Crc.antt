-- ===== src/Crc.antt =====
-- `fdb_calc_crc32` of flashdb/fdb_utils.c.
mod Table
pub mod Reference
pub mod Range
pub use Table.{crc32_table}
use flashdb_rs.Prelude.{ℕ, ◌/◌, ◌^◌, List, [], ◌∷◌, bit_and, bit_xor, get_or}

-- One round of the loop: `crc32_table[(crc ^ *p++) & 0xFF] ^ (crc >> 8)`.
unfoldable pub crc_round : ℕ → ℕ → ℕ
crc_round crc b = bit_xor (get_or crc32_table (bit_and (bit_xor crc b) 0xff) 0) (crc / 2 ^ 8)

-- `while (size--)`, over the bytes that are left.
unfoldable pub crc_loop : ℕ → List ℕ → ℕ
crc_loop crc [] = crc
crc_loop crc (b ∷ bs) = crc_loop (crc_round crc b) bs

-- `fdb_calc_crc32` over the `size` bytes of `buf`.
unfoldable pub calc_crc32 : ℕ → List ℕ → ℕ
calc_crc32 crc buf = bit_xor (crc_loop (bit_xor crc 0xffff_ffff) buf) 0xffff_ffff
