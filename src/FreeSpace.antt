-- ===== src/FreeSpace.antt =====
-- The search for the erased end of a region: `_fdb_continue_ff_addr` of flashdb/fdb_utils.c.
pub mod Scan
use flashdb_rs.Prelude.{
  ℕ, zero, suc, ◌+◌, ◌-◌, Bool, not, ◌&&◌, true, false, Option, none, some, List, [], ◌∷◌, ◌==◌,
  ltb, if◌then◌else◌, take,
}
use flashdb_rs.Types.{StorageType, byte_erased, byte_written, u32, wg_align}
use flashdb_rs.Flash.{Driver, flash_read}

-- The inner loop over the bytes of the buffer, of which the first stands at `pos`: the values of
-- `last_data` and `addr` at the end.
unfoldable pub scan_buf : ℕ → ℕ → ℕ → List ℕ → ℕ × ℕ
scan_buf pos last_data addr [] = (last_data, addr)
scan_buf pos last_data addr (b ∷ buf) =
    scan_buf (suc pos) b
      (if not (last_data == byte_erased) && (b == byte_erased) then pos else addr) buf

module _ {S : Type 0} (d : Driver S) (mode : StorageType) (s : S) where
  -- The outer loop, with the rounds left as fuel: `none` is a loop that goes on.
  unfoldable pub ff_loop : ℕ → ℕ → ℕ → ℕ → ℕ → Option (ℕ × ℕ)
  ff_loop zero start end last_data addr = none
  ff_loop (suc fuel) start end last_data addr = elim (ltb start end) [
    | false ↦ some (last_data, addr)
    | true ↦
        let read_size = if ltb (start + 32) end then 32 else end - start in
        let buf = take read_size (flash_read d mode s start read_size).1 in
        let (last_data, addr) = scan_buf start last_data addr buf in
        ff_loop fuel (u32 (start + 32)) end last_data addr
  ]

  -- `_fdb_continue_ff_addr`
  unfoldable pub continue_ff_addr : ℕ → ℕ → Option ℕ
  continue_ff_addr start end = elim (ff_loop (suc (end - start)) start end byte_written start) [
    | none ↦ none
    | some (last_data, addr) ↦ some (if last_data == byte_erased then u32 (wg_align addr) else end)
  ]
