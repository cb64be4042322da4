-- ===== src/Status.antt =====
-- Status tables: flashdb/fdb_utils.c, `_fdb_set_status` to `_fdb_read_status`.
pub mod RoundTrip
pub mod Effects
use flashdb_rs.Prelude.{
  ℕ, zero, suc, ◌+◌, ◌-◌, ◌*◌, ◌/◌, ◌%◌, ◌^◌, ◌≡◌, Bool, Option, none, some, List, [], ◌∷◌, bit_and,
  ◌==◌, ltb, if◌then◌else◌, set, get_or, replicate,
}
use flashdb_rs.Types.{
  FdbErr, no_err, StorageType, Gran, g1, bits, write_gran, byte_erased, byte_written,
}
use flashdb_rs.Flash.{Driver, Step, flash_read, flash_write}

-- `FDB_STATUS_TABLE_SIZE`
abbrev pub status_table_size : Gran → ℕ → ℕ
status_table_size g1 n = (n * 1 + 7) / 8
status_table_size g n = ((n - 1) * bits g + 7) / 8

-- `_fdb_set_status`: the table, and the index of the byte that changed (`none` is `SIZE_MAX`).
unfoldable pub set_status : Gran → ℕ → ℕ → List ℕ × Option ℕ
set_status g status_num zero = (replicate (status_table_size g status_num) byte_erased, none)
set_status g1 status_num (suc i) =
    let table = replicate (status_table_size g1 status_num) byte_erased in
    let byte_index = i / 8 in
    (
      set table byte_index (bit_and (get_or table byte_index byte_erased) (0xff / 2 ^ (suc i % 8))),
      some byte_index,
    )
set_status g status_num (suc i) =
    let byte_index = i * (bits g / 8) in
    (
      set (replicate (status_table_size g status_num) byte_erased) byte_index byte_written,
      some byte_index,
    )

-- The loop's test of position `n`.
unfoldable pub is_written : Gran → List ℕ → ℕ → Bool
is_written g1 table n = bit_and (get_or table (n / 8) byte_erased) (0x80 / 2 ^ (n % 8)) == 0
is_written g table n = get_or table (n * bits g / 8) byte_erased == byte_written

-- `while (status_num--)`: the value of `i` at the end.
unfoldable pub count_unwritten : Gran → List ℕ → ℕ → ℕ
count_unwritten g table zero = 0
count_unwritten g table (suc n) =
    if is_written g table n then 0 else suc (count_unwritten g table n)

-- `_fdb_get_status`
unfoldable pub get_status : Gran → List ℕ → ℕ → ℕ
get_status g table status_num = status_num - 1 - count_unwritten g table (status_num - 1)

module _ {S : Type 0} (d : Driver S) where
  -- `_fdb_write_status`. Its callers pass a value of the enumeration, so that the assertion
  -- `status_index < status_num` holds. The table that they pass is overwritten first.
  unfoldable pub write_status : StorageType → ℕ → ℕ → ℕ → Bool → Step S
  write_status mode addr status_num status_index sync s =
      let (table, byte_index) = set_status write_gran status_num status_index in
      elim byte_index [
        | none ↦ (no_err, s)
        | some i ↦ flash_write d mode (addr + i) (get_or table i byte_erased ∷ []) sync s
      ]

  -- `_fdb_read_status`
  unfoldable pub read_status : StorageType → S → ℕ → ℕ → ℕ
  read_status mode s addr total_num =
      get_status write_gran (flash_read d mode s addr (status_table_size write_gran total_num)).1
        total_num
