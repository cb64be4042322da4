-- ===== src/Tsdb/Query/Marking.antt =====
-- A log whose status was set: `fdb_tsl_set_status` and `read_tsl` of flashdb/fdb_tsdb.c.
use flashdb_rs.Prelude.{
  ℕ, suc, ◌+◌, ◌-◌, ◌≤◌, ◌<◌, ◌≡◌, refl, sym, ap, ◌∙◌, subst, true, List, [], ◌∷◌, bit_and, arith,
}
use flashdb_rs.Prelude.Bytes.{field}
use flashdb_rs.Types.{no_err, custom, TslStatus, tsl_index}
use flashdb_rs.Flash.{Driver, flash_read}
use flashdb_rs.Flash.Nor.{slice, patch, IsNor}
use flashdb_rs.Flash.Effects.{Leaves, flash_read-slice, patch_above, slice_congr}
use flashdb_rs.Status.{get_status, count_unwritten, is_written, write_status}
use flashdb_rs.Status.Effects.{status_byte, later_status, write_status-Leaves}
use flashdb_rs.Tsdb.{Tsl, Tsdb}
use flashdb_rs.Tsdb.Sector.{decode_tsl, read_tsl}
use flashdb_rs.Tsdb.Query.{fdb_tsl_set_status}

-- The entry of a log that was written, by its status byte and the bytes that follow it.
decode_tsl-head :
    (max_len index : ℕ) (x : TslStatus) (rest : List ℕ)
    → 2 ≤ tsl_index x
    → decode_tsl max_len index (status_byte (tsl_index x) ∷ rest) ≡ (record {
      status = x;
      time = field 7 8 rest;
      log_len = field 15 4 rest;
      index = index;
      log = field 19 4 rest;
    })
unfolding decode_tsl get_status count_unwritten is_written
decode_tsl-head max_len index TslStatus.unused rest h = absurd (omega arith)
decode_tsl-head max_len index TslStatus.pre_write rest h = absurd (omega arith)
decode_tsl-head max_len index TslStatus.write rest h = refl
decode_tsl-head max_len index TslStatus.user_status1 rest h = refl
decode_tsl-head max_len index TslStatus.deleted rest h = refl
decode_tsl-head max_len index TslStatus.user_status2 rest h = refl

tsl_index-lt : (x : TslStatus) → tsl_index x < 6
tsl_index-lt TslStatus.unused = omega arith
tsl_index-lt TslStatus.pre_write = omega arith
tsl_index-lt TslStatus.write = omega arith
tsl_index-lt TslStatus.user_status1 = omega arith
tsl_index-lt TslStatus.deleted = omega arith
tsl_index-lt TslStatus.user_status2 = omega arith

module _ {S : Type 0} (d : Driver S) (view : S → ℕ → ℕ) {cap : ℕ} (nor : IsNor d view cap)
    (t : Tsdb) (mode : t.db.mode ≡ custom) where
  -- What `read_tsl` gives where the entry's first byte is that of a status.
  read_tsl-head :
      (s : S) (index : ℕ) (x : TslStatus)
      → index + 24 ≤ cap
      → view s index ≡ status_byte (tsl_index x)
      → read_tsl d t s index
        ≡ decode_tsl t.max_len index (status_byte (tsl_index x) ∷ slice (view s) (suc index) 23)
  unfolding read_tsl
  read_tsl-head s index x h e =
      ap (λ r. decode_tsl t.max_len index r.1)
        (ap (λ mode. flash_read d mode s index 24) mode
          ∙ flash_read-slice d view nor index 24 s (view s) refl h)
      ∙ ap (λ b. decode_tsl t.max_len index (b ∷ slice (view s) (suc index) 23)) e

  module _ (s : S) (tsl : Tsl) (before after : TslStatus) (fits : tsl.index + 24 ≤ cap)
      (marked : view s tsl.index ≡ status_byte (tsl_index before)) (written : 2 ≤ tsl_index before)
      (later : tsl_index before < tsl_index after) where
    abbrev remarked : ℕ → ℕ
    remarked = patch (view s) tsl.index (status_byte (tsl_index after) ∷ [])

    set_status-Leaves : Leaves d view (fdb_tsl_set_status d t tsl after) s remarked
    unfolding fdb_tsl_set_status
    set_status-Leaves =
        let m = view s in
        let index = tsl.index in
        let i = tsl_index after - 1 in
        let e : suc i ≡ tsl_index after = omega arith in
        let small = tsl_index-lt after in
        let clears =
          ap (λ b. bit_and b (status_byte (suc i))) marked
          ∙ later_status (tsl_index before) (suc i) (omega arith) (omega arith) in
        let step =
          write_status-Leaves d view nor 6 i index true s m (omega arith) (omega arith) refl
            (omega arith) clears in
        subst
          (λ k.
            Leaves d view (write_status d t.db.mode index 6 k true) s
              (patch m index (status_byte k ∷ [])))
          e
          (subst
            (λ mode.
              Leaves d view (write_status d mode index 6 (suc i) true) s
                (patch m index (status_byte (suc i) ∷ [])))
            (sym mode) step)

    -- On a device that behaves like NOR flash, and for a log that was written and a status after
    -- the one that it has, `fdb_tsl_set_status` succeeds; then `read_tsl` gives the new status, and
    -- the log's time, length and address as before.
    pub fdb_tsl_set_status-read_tsl :
        let out = fdb_tsl_set_status d t tsl after s in
        (out.0 ≡ no_err)
        × (read_tsl d t out.1 tsl.index ≡ (record (read_tsl d t s tsl.index) { status = after }))
    fdb_tsl_set_status-read_tsl =
        let m = view s in
        let index = tsl.index in
        let s2 = (fdb_tsl_set_status d t tsl after s).1 in
        let (ok, contents) = set_status-Leaves in
        let top : remarked index ≡ status_byte (tsl_index after) = ground arith in
        let rest : slice (view s2) (suc index) 23 ≡ slice m (suc index) 23 =
          ap (λ k. slice k (suc index) 23) contents
          ∙ slice_congr remarked m (suc index) 23
              (λ p q r. patch_above m index (status_byte (tsl_index after) ∷ []) p (omega arith)) in
        let old =
          read_tsl-head s index before fits marked
          ∙ decode_tsl-head t.max_len index before (slice m (suc index) 23) written in
        let new =
          read_tsl-head s2 index after fits (ap (λ k. k index) contents ∙ top)
          ∙ ap (λ l. decode_tsl t.max_len index (status_byte (tsl_index after) ∷ l)) rest
          ∙ decode_tsl-head t.max_len index after (slice m (suc index) 23) (omega arith) in
        (ok, new ∙ ap (λ (x : Tsl). record x { status = after }) (sym old))
