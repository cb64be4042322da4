-- ===== src/Init.antt =====
-- What the two databases share: `_fdb_init_ex`, `_fdb_init_finish` and `_fdb_deinit` of
-- flashdb/fdb.c, and the blobs of flashdb/fdb_utils.c.
pub mod Geometry
use flashdb_rs.Prelude.{
  ℕ, ◌-◌, ◌/◌, ◌%◌, true, false, Option, none, some, List, ◌==◌, ltb, not, ◌&&◌, if◌then◌else◌,
  bit_and, length, drop, ◌++◌,
}
use flashdb_rs.Types.{FdbErr, no_err, init_failed, is_ok, custom, DbType, Db, Blob}
use flashdb_rs.Flash.{Driver, flash_read}

-- The checks that follow the mode's own. `none` is a failed assertion.
unfoldable pub check_geometry : Db → Option FdbErr
check_geometry db =
    if bit_and db.sec_size (db.sec_size - 1) == 0
    then (if db.max_size % db.sec_size == 0
        then (if ltb (db.max_size / db.sec_size) 2 then some init_failed else some no_err)
        else some init_failed)
    else none

-- `_fdb_init_ex`; only `FDB_USING_CUSTOM_MODE` is compiled in, so the other modes are the
-- `default` of the switch. The name, the path and the user's data are left out.
unfoldable pub init_ex : DbType → Db → Option (FdbErr × Db)
init_ex type db = elim db.init_ok [
  | true ↦ some (no_err, db)
  | false ↦
      let db = record db { type = type } in
      elim db.mode [
        | custom ↦ elim (not (db.sec_size == 0) && not (db.max_size == 0)) [
          | false ↦ none
          | true ↦ elim (check_geometry db) [ none ↦ none | some e ↦ some (e, db) ]
        ]
        | _ ↦ some (init_failed, db)
      ]
]

unfoldable pub init_finish : FdbErr → Db → Db
init_finish result db = if is_ok result then record db { init_ok = true } else db

unfoldable pub deinit : Db → Db
deinit db = record db { init_ok = false }

-- `fdb_blob_make`
unfoldable pub fdb_blob_make : Blob → List ℕ → ℕ → Blob
fdb_blob_make blob value_buf buf_len = record blob { buf = value_buf; size = buf_len }

-- `fdb_blob_read`: the length, and the blob with the bytes that were read at its buffer's start.
unfoldable pub fdb_blob_read : {S : Type 0} → Driver S → Db → S → Blob → ℕ × Blob
fdb_blob_read d db s blob =
    let read_len = if ltb blob.len blob.size then blob.len else blob.size in
    let (e, bytes) = flash_read d db.mode s blob.addr read_len in
    (if is_ok e then read_len else 0, record blob { buf = bytes ++ drop (length bytes) blob.buf })
