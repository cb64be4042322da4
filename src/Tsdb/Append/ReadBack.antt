-- ===== src/Tsdb/Append/ReadBack.antt =====
-- A log that was written is read back: `write_tsl` and `read_tsl` of flashdb/fdb_tsdb.c on a device.
use flashdb_rs.Prelude.{
  ℕ, ◌+◌, ◌-◌, ◌^◌, ◌≤◌, ◌<◌, ◌≡◌, refl, sym, ap, ap₂, ◌∙◌, subst, ◌⊎◌, inl, inr, Bool, false, true,
  List, [], ◌∷◌, arith, length, take,
}
use flashdb_rs.Prelude.Bytes.{AreBytes, sub32}
use flashdb_rs.Types.{no_err, custom, Blob, TslStatus, byte_erased, u32, wg_align}
use flashdb_rs.Flash.{Driver, Step, flash_read, flash_write, ◌>>◌}
use flashdb_rs.Flash.Nor.{slice, IsNor}
use flashdb_rs.Flash.Effects.{Leaves, >>-Leaves, flash_write-Leaves, flash_read-slice}
use flashdb_rs.Status.{write_status}
use flashdb_rs.Status.Effects.{write_status-Leaves}
use flashdb_rs.Tsdb.{Tsdb, tsl_status_num}
use flashdb_rs.Tsdb.Sector.{decode_tsl, read_tsl}
use flashdb_rs.Tsdb.Append.{idx_bytes, write_tsl}
use flashdb_rs.Tsdb.Append.Contents.{
  begun, indexed, filled, stored, log-slice, decode_tsl-stored, stored-outside, begun-Programs,
  indexed-Programs, filled-Programs, stored-Programs,
}

take_all : (bs : List ℕ) → take (length bs) bs ≡ bs
take_all [] = refl
take_all (b ∷ bs) = ap (λ l. b ∷ l) (take_all bs)

-- There is room for the log's entry and its bytes between the index and the logs: the region is
-- erased, and lies on a device of `cap` bytes.
pub record HasRoom (m : ℕ → ℕ) (cap : ℕ) (t : Tsdb) (blob : Blob) : Type 0 where
  pub mode : t.db.mode ≡ custom
  pub size : blob.size ≡ length blob.buf
  pub bytes : AreBytes blob.buf
  pub room : t.cur_sec.empty_idx + 24 + blob.size ≤ t.cur_sec.empty_data
  pub fits : t.cur_sec.empty_data ≤ cap
  pub small : cap < 2 ^ 32
  pub free : (p : ℕ) → t.cur_sec.empty_idx ≤ p → p < t.cur_sec.empty_data → m p ≡ byte_erased

module _ {S : Type 0} (d : Driver S) (view : S → ℕ → ℕ) {cap : ℕ} (nor : IsNor d view cap)
    (s : S) where
  abbrev mark : ℕ → ℕ → Bool → Step S
  mark idx status sync = write_status d custom idx tsl_status_num status sync

  abbrev put : ℕ → List ℕ → Step S
  put addr bs = flash_write d custom addr bs false

  abbrev program : (idx ts len log time : ℕ) → List ℕ → Step S
  program idx ts len log time bs =
      mark idx 1 false >> put ts (idx_bytes time len log) >> put log bs >> mark idx 2 true

  program-Leaves :
      (m : ℕ → ℕ) (idx log time : ℕ) (buf : List ℕ)
      → view s ≡ m
      → idx + 24 ≤ log
      → log + length buf ≤ cap
      → ((p : ℕ) → idx ≤ p → p < log + length buf → m p ≡ byte_erased)
      → AreBytes buf
      → Leaves d view
          (program idx (idx + 8) (length buf) log time buf)
          s
          (stored m idx log time buf)
  program-Leaves m idx log time buf e apart fits free bytes =
      let meta = idx_bytes time (length buf) log in
      >>-Leaves d view (mark idx 1 false) (put (idx + 8) meta >> put log buf >> mark idx 2 true) s
        (begun m idx log time buf) (stored m idx log time buf)
        (write_status-Leaves d view nor 6 0 idx false s m (omega arith) (omega arith) e
          (omega arith) (begun-Programs m idx log time buf apart free bytes))
        (λ s1 e1.
          >>-Leaves d view (put (idx + 8) meta) (put log buf >> mark idx 2 true) s1
            (indexed m idx log time buf) (stored m idx log time buf)
            (flash_write-Leaves d view nor (idx + 8) meta false s1 (begun m idx log time buf) e1
              (omega arith) (indexed-Programs m idx log time buf apart free bytes))
            (λ s2 e2.
              >>-Leaves d view (put log buf) (mark idx 2 true) s2 (filled m idx log time buf)
                (stored m idx log time buf)
                (flash_write-Leaves d view nor log buf false s2 (indexed m idx log time buf) e2 fits
                  (filled-Programs m idx log time buf apart free bytes))
                (λ s3 e3.
                  write_status-Leaves d view nor 6 1 idx true s3 (filled m idx log time buf)
                    (omega arith) (omega arith) e3 (omega arith)
                    (stored-Programs m idx log time buf apart free bytes))))

  module _ (t : Tsdb) (blob : Blob) (time : ℕ) (room : HasRoom (view s) cap t blob) where
    abbrev log_addr : ℕ
    log_addr = t.cur_sec.empty_data - blob.size

    idx_addr-u32 : u32 (t.cur_sec.empty_idx + 8) ≡ t.cur_sec.empty_idx + 8
    idx_addr-u32 = let a = room.room in let b = room.fits in let c = room.small in omega arith

    size-u32 : u32 blob.size ≡ blob.size
    size-u32 = let a = room.room in let b = room.fits in let c = room.small in omega arith

    log_addr-sub32 : sub32 t.cur_sec.empty_data (wg_align (u32 blob.size)) ≡ log_addr
    log_addr-sub32 = let a = room.room in let b = room.fits in let c = room.small in omega arith

    write_tsl-program :
        write_tsl d t blob time
        ≡ program t.cur_sec.empty_idx
            (t.cur_sec.empty_idx + 8)
            (length blob.buf)
            log_addr
            time
            blob.buf
    unfolding write_tsl
    write_tsl-program =
        rw (room.mode, idx_addr-u32, log_addr-sub32, size-u32, room.size, take_all blob.buf)

    -- The call's effect on the device, whose entry and log are erased before it.
    pub write_tsl-Leaves :
        Leaves d view
          (write_tsl d t blob time)
          s
          (stored (view s) t.cur_sec.empty_idx log_addr time blob.buf)
    write_tsl-Leaves =
        let a = room.room in
        let b = room.fits in
        let e = room.size in
        subst
          (λ step.
            Leaves d view step s (stored (view s) t.cur_sec.empty_idx log_addr time blob.buf))
          (sym write_tsl-program)
          (program-Leaves (view s) t.cur_sec.empty_idx log_addr time blob.buf refl (omega arith)
            (omega arith) (λ p q r. room.free p q (omega arith)) room.bytes)

    -- On a device that behaves like NOR flash, and where the current sector's free region is
    -- erased and has room for the entry and the log, `write_tsl` succeeds. Then `read_tsl` gives
    -- the log's time, length and address with the status `FDB_TSL_WRITE`, the log's bytes are at
    -- that address, and every byte outside of the entry and the log is as it was.
    pub write_tsl-read_tsl :
        time < 2 ^ 64
        → let after = (write_tsl d t blob time s).1 in
          ((write_tsl d t blob time s).0 ≡ no_err)
          × (read_tsl d t after t.cur_sec.empty_idx ≡ (record {
            status = TslStatus.write;
            time = time;
            log_len = blob.size;
            index = t.cur_sec.empty_idx;
            log = log_addr;
          }))
          × (slice (view after) log_addr blob.size ≡ blob.buf)
          × ((p : ℕ)
              → (p < t.cur_sec.empty_idx)
                ⊎ ((t.cur_sec.empty_idx + 24 ≤ p) × (p < log_addr))
                ⊎ (t.cur_sec.empty_data ≤ p)
              → view after p ≡ view s p)
    unfolding read_tsl
    write_tsl-read_tsl h =
        let a = room.room in
        let b = room.fits in
        let c = room.small in
        let e = room.size in
        let m = stored (view s) t.cur_sec.empty_idx log_addr time blob.buf in
        let after = (write_tsl d t blob time s).1 in
        let (ok, contents) = write_tsl-Leaves in
        (
          ok,
          ap (λ step. decode_tsl t.max_len t.cur_sec.empty_idx step.1)
                (ap (λ mode. flash_read d mode after t.cur_sec.empty_idx 24) room.mode
                  ∙ flash_read-slice d view nor t.cur_sec.empty_idx 24 after m contents
                      (omega arith))
              ∙ decode_tsl-stored (view s) t.cur_sec.empty_idx log_addr time blob.buf (omega arith)
                  t.max_len h (omega arith) (omega arith)
              ∙ ap
                  (λ n. record {
                    status = TslStatus.write;
                    time = time;
                    log_len = n;
                    index = t.cur_sec.empty_idx;
                    log = log_addr;
                  })
                  (sym e),
          ap₂ (λ k n. slice k log_addr n) contents e
              ∙ log-slice (view s) t.cur_sec.empty_idx log_addr time blob.buf (omega arith),
          λ p q.
              ap (λ k. k p) contents
              ∙ stored-outside (view s) t.cur_sec.empty_idx log_addr time blob.buf (omega arith) p
                  (elim q [
                    | inl x ↦ inl x
                    | inr (inl y) ↦ inr (inl y)
                    | inr (inr z) ↦ inr (inr (omega arith))
                  ]),
        )
