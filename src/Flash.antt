-- ===== src/Flash.antt =====
-- The storage under a database: `_fdb_flash_read`, `_fdb_flash_write` and `_fdb_flash_erase` of
-- flashdb/fdb_utils.c. The driver behind them (`fdb_custom_read` and its kin, which the user
-- of the crate supplies) is a parameter.
pub mod Nor
pub mod Effects
pub mod Slices
use flashdb_rs.Prelude.{ℕ, Bool, List, []}
use flashdb_rs.Types.{
  FdbErr, no_err, read_err, erase_err, write_err, StorageType, fal, file, custom,
}

-- What a driver does on a device in state `S`. A read gives the status and what the buffer holds
-- afterwards.
pub record Driver (S : Type 0) : Type 0 where
  pub read : S → ℕ → ℕ → FdbErr × List ℕ
  pub write : ℕ → List ℕ → Bool → S → FdbErr × S
  pub erase : ℕ → ℕ → S → FdbErr × S

-- Code that changes the device and returns a status.
abbrev pub Step : Type 0 → Type 0
Step S = S → FdbErr × S

-- `result = a; if (result != FDB_NO_ERR) return result; b`
infixr 5 ◌>>◌
abbrev pub ◌>>◌ : {S : Type 0} → Step S → Step S → Step S
◌>>◌ a b s = let (e, t) = a s in elim e [ no_err ↦ b t | other ↦ (other, t) ]

abbrev pub done : {S : Type 0} → Step S
done s = (no_err, s)

module _ {S : Type 0} (d : Driver S) where
  -- Only `FDB_USING_CUSTOM_MODE` is compiled in: the other modes are the `default` of the switch,
  -- which leaves the buffer as it was (here: no bytes).
  unfoldable pub flash_read : StorageType → S → ℕ → ℕ → FdbErr × List ℕ
  flash_read custom s addr size = d.read s addr size
  flash_read _ s addr size = (read_err, [])

  unfoldable pub flash_write : StorageType → ℕ → List ℕ → Bool → Step S
  flash_write custom addr buf sync s = d.write addr buf sync s
  flash_write _ addr buf sync s = (write_err, s)

  unfoldable pub flash_erase : StorageType → ℕ → ℕ → Step S
  flash_erase custom addr size s = d.erase addr size s
  flash_erase _ addr size s = (erase_err, s)
