-- ===== src/Init/Geometry.antt =====
-- What `_fdb_init_ex` of flashdb/fdb.c has checked when it succeeds.
use flashdb_rs.Prelude.{
  ℕ, ◌-◌, ◌*◌, ◌/◌, ◌%◌, ◌≤◌, ◌<◌, ◌≡◌, sym, subst, false, some, arith, bit_and,
}
use native.Mathlib.Nat.{mod-add-div'}
use flashdb_rs.Types.{no_err, DbType, Db, custom}
use flashdb_rs.Init.{check_geometry, init_ex}

-- What a success of the checks means.
pub record IsChecked (db : Db) (n : ℕ) : Type 0 where
  pub two : 2 ≤ n
  pub sec_pos : 0 < db.sec_size
  pub whole : db.max_size ≡ n * db.sec_size
  pub power : bit_and db.sec_size (db.sec_size - 1) ≡ 0

check_geometry-whole :
    (db : Db)
    → 0 < db.sec_size
    → check_geometry db ≡ some no_err
    → IsChecked db (db.max_size / db.sec_size)
unfolding check_geometry
check_geometry-whole db p h =
    let even : db.max_size % db.sec_size ≡ 0 = ground arith in
    let law = mod-add-div' db.max_size db.sec_size in
    record { two = ground arith; sec_pos = p; whole = grind arith; power = ground arith }

-- When `_fdb_init_ex` succeeds on a database that was not initialized, the mode is the custom one,
-- the sectors' size passes the test for a power of two, and the database consists of two or more
-- whole sectors; only the type was set.
pub init_ex-IsChecked :
    (type : DbType) (db db2 : Db)
    → db.init_ok ≡ false
    → init_ex type db ≡ some (no_err, db2)
    → (db2 ≡ (record db { type = type }))
      × (db.mode ≡ custom)
      × IsChecked db2 (db2.max_size / db2.sec_size)
unfolding init_ex
init_ex-IsChecked type db db2 h k =
    let named : Db = record db { type = type } in
    let same : db2 ≡ named = ground arith in
    let mode : db.mode ≡ custom = ground arith in
    (
      same,
      mode,
      subst (λ x. IsChecked x (x.max_size / x.sec_size)) (sym same)
          (check_geometry-whole named (ground arith) (ground arith)),
    )
