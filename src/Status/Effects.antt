-- ===== src/Status/Effects.antt =====
-- `_fdb_write_status` of flashdb/fdb_utils.c on a device, with one bit for each status.
use flashdb_rs.Prelude.{
  ℕ, suc, ◌+◌, ◌/◌, ◌%◌, ◌^◌, ◌<◌, ◌≡◌, refl, ap, Bool, true, [], ◌∷◌, bit_and, arith, get_or,
  get_or-replicate, some, ltb, not, ◌||◌, ◌==◌, ==_iff,
}
use flashdb_rs.Prelude.Bits.{passes, passes-at}
use flashdb_rs.Types.{custom, g1, byte_erased}
use flashdb_rs.Flash.{Driver}
use flashdb_rs.Flash.Nor.{patch, IsNor}
use flashdb_rs.Flash.Effects.{Leaves, flash_write-Leaves}
use flashdb_rs.Status.{status_table_size, set_status, write_status}
use flashdb_rs.Status.RoundTrip.{get_or-table}

-- The byte that stands for a status below 8: as many zeros from the top.
abbrev pub status_byte : ℕ → ℕ
status_byte i = bit_and 0xff (0xff / 2 ^ i)

-- A later status only clears bits of an earlier one.
clears_table :
    passes
      (λ i.
        passes (λ j. not (ltb i j) || (bit_and (status_byte i) (status_byte j) == status_byte j)) 6)
      6
    ≡ true
unfolding passes
clears_table = refl

pub later_status :
    (i j : ℕ) → i < j → j < 6 → bit_and (status_byte i) (status_byte j) ≡ status_byte j
later_status i j h k =
    let row = passes-at _ 6 i (omega arith) clears_table in
    let cell =
      passes-at (λ j. not (ltb i j) || (bit_and (status_byte i) (status_byte j) == status_byte j)) 6
        j k row in
    (==_iff (bit_and (status_byte i) (status_byte j)) (status_byte j)).0 (ground arith)

set_status-byte :
    (num i : ℕ)
    → suc i < 8
    → suc i < num
    → (get_or (set_status g1 num (suc i)).0 0 byte_erased ≡ status_byte (suc i))
      × ((set_status g1 num (suc i)).1 ≡ some 0)
unfolding set_status
set_status-byte num i h k =
    let size = status_table_size g1 num in
    let low : i / 8 ≡ 0 = omega arith in
    let small : suc i % 8 ≡ suc i = omega arith in
    (
      rw (
        low,
        small,
        get_or-replicate size 0 byte_erased,
        get_or-table size 0 0 (status_byte (suc i)) byte_erased (omega arith),
      ),
      ap some low,
    )

module _ {S : Type 0} (d : Driver S) (view : S → ℕ → ℕ) {cap : ℕ} (nor : IsNor d view cap) where
  pub write_status-Leaves :
      (num i addr : ℕ) (sync : Bool) (s : S) (m : ℕ → ℕ)
      → suc i < 8
      → suc i < num
      → view s ≡ m
      → addr < cap
      → bit_and (m addr) (status_byte (suc i)) ≡ status_byte (suc i)
      → Leaves d view
          (write_status d custom addr num (suc i) sync)
          s
          (patch m addr (status_byte (suc i) ∷ []))
  unfolding write_status
  write_status-Leaves num i addr sync s m h k e c b =
      let (byte, index) = set_status-byte num i h k in
      let at : addr + 0 ≡ addr = omega arith in
      rw (index, write_status, byte, at)
        (flash_write-Leaves d view nor addr (status_byte (suc i) ∷ []) sync s m e (omega arith)
          (b, tt))
