-- ===== src/Kvdb/Delete/Dirty.antt =====
-- The end of `del_kv` of flashdb/fdb_kvdb.c, which marks the pair's sector as dirty.
use flashdb_rs.Prelude.{
  ℕ, ◌+◌, ◌≤◌, ◌<◌, ◌≡◌, ◌≢◌, refl, sym, ap, ap₂, ◌∙◌, subst, true, false, List, [], ◌∷◌, bit_and,
  arith, ◌==◌,
}
use flashdb_rs.Types.{
  FdbErr, no_err, StorageType, custom, Db, DirtyStatus, dirty_index, align_down, u32, write_gran,
}
use flashdb_rs.Flash.{Driver, flash_read}
use flashdb_rs.Flash.Nor.{IsNor}
use flashdb_rs.Flash.Effects.{flash_read-slice}
use flashdb_rs.Status.{get_status, count_unwritten, is_written, read_status, write_status}
use flashdb_rs.Status.Effects.{status_byte, later_status, write_status-Leaves}
use flashdb_rs.Kvdb.{KvSecInfo, Kvdb}
use flashdb_rs.Kvdb.Cache.{change_sector}
use flashdb_rs.Kvdb.Delete.{mark_sector_dirty}

-- The sector's dirty status behind it.
abbrev pub dirtied : DirtyStatus → DirtyStatus
dirtied DirtyStatus.clean = DirtyStatus.dirty
dirtied x = x

-- A sector's header lies before the pair, and its dirty status is a status.
pub record InSector (m : ℕ → ℕ) (t : Kvdb) (a : ℕ) (was : DirtyStatus) : Type 0 where
  pub behind : align_down a t.db.sec_size + 16 ≤ a
  pub marked : m (align_down a t.db.sec_size + 1) ≡ status_byte (dirty_index was)

pub InSector-db :
    {m k : ℕ → ℕ} {t : Kvdb} {a : ℕ} {was : DirtyStatus} (t2 : Kvdb)
    → t2.db ≡ t.db
    → InSector m t a was
    → k (align_down a t.db.sec_size + 1) ≡ m (align_down a t.db.sec_size + 1)
    → InSector k t2 a was
InSector-db {k} {a} {was} t2 e sector same = record {
  behind = subst (λ (x : Db). align_down a x.sec_size + 16 ≤ a) (sym e) sector.behind;
  marked = ap (λ (x : Db). k (align_down a x.sec_size + 1)) e ∙ same ∙ sector.marked;
}

status-status_byte :
    (x : DirtyStatus) → get_status write_gran (status_byte (dirty_index x) ∷ []) 4 ≡ dirty_index x
unfolding get_status count_unwritten is_written
status-status_byte DirtyStatus.unused = refl
status-status_byte DirtyStatus.clean = refl
status-status_byte DirtyStatus.dirty = refl
status-status_byte DirtyStatus.gc = refl

module _ {S : Type 0} (d : Driver S) (view : S → ℕ → ℕ) {cap : ℕ} (nor : IsNor d view cap) where
  module _ (t : Kvdb) (s : S) (a : ℕ) (mode : t.db.mode ≡ custom) (inside : a < cap)
      (small : cap < 0xffff_ffff) where
    abbrev pub dirty_addr : ℕ
    dirty_addr = align_down a t.db.sec_size + 1

    read_status-dirty :
        (was : DirtyStatus)
        → InSector (view s) t a was
        → read_status d t.db.mode s (u32 dirty_addr) 4 ≡ dirty_index was
    unfolding read_status
    read_status-dirty was sector =
        let b = sector.behind in
        let at : u32 dirty_addr ≡ dirty_addr = omega arith in
        ap₂ (λ x y. get_status write_gran (flash_read d x s y 1).1 4) mode at
        ∙ ap (λ (r : FdbErr × List ℕ). get_status write_gran r.1 4)
            (flash_read-slice d view nor dirty_addr 1 s (view s) refl (omega arith))
        ∙ ap (λ x. get_status write_gran (x ∷ []) 4) sector.marked
        ∙ status-status_byte was

    -- What the call leaves of the database and the device.
    abbrev pub Dirtied : DirtyStatus → FdbErr × Kvdb × S → Type 0
    Dirtied was r =
        (r.0 ≡ no_err)
        × (r.1 ≡ record t { sector_cache_table = r.1.sector_cache_table })
        × (view r.2 dirty_addr ≡ status_byte (dirty_index (dirtied was)))
        × ((p : ℕ) → p ≢ dirty_addr → view r.2 p ≡ view s p)

    -- The body of `mark_sector_dirty` after a write that succeeded, with the status that was read.
    abbrev mark_by : ℕ → StorageType → ℕ → FdbErr × Kvdb × S
    mark_by status mode addr = elim (status == 1) [
      | false ↦ (no_err, t, s)
      | true ↦
          let r = write_status d mode addr 4 2 true s in
          let mark = λ (sector : KvSecInfo). record sector { dirty = DirtyStatus.dirty } in
          let table = change_sector mark t.sector_cache_table (align_down a t.db.sec_size) in
          (r.0, record t { sector_cache_table = table }, r.1)
    ]

    mark_by-Dirtied :
        (was : DirtyStatus)
        → InSector (view s) t a was
        → Dirtied was (mark_by (dirty_index was) custom dirty_addr)
    mark_by-Dirtied DirtyStatus.unused sector = (refl, refl, sector.marked, λ p q. refl)
    mark_by-Dirtied DirtyStatus.clean sector =
        let b = sector.behind in
        let (ok, after) =
          write_status-Leaves d view nor 4 1 dirty_addr true s (view s) (omega arith) (omega arith)
            refl (omega arith)
            (ap (λ b. bit_and b (status_byte 2)) sector.marked
              ∙ later_status 1 2 (omega arith) (omega arith)) in
        (
          ok,
          refl,
          ap (λ m. m dirty_addr) after ∙ ground arith,
          λ p q. ap (λ m. m p) after ∙ ground arith,
        )
    mark_by-Dirtied DirtyStatus.dirty sector = (refl, refl, sector.marked, λ p q. refl)
    mark_by-Dirtied DirtyStatus.gc sector = (refl, refl, sector.marked, λ p q. refl)

    pub mark_sector_dirty-Dirtied :
        (was : DirtyStatus)
        → InSector (view s) t a was
        → Dirtied was (mark_sector_dirty d a no_err t s)
    unfolding mark_sector_dirty
    mark_sector_dirty-Dirtied was sector =
        let b = sector.behind in
        let at : u32 dirty_addr ≡ dirty_addr = omega arith in
        let e : mark_sector_dirty d a no_err t s ≡ mark_by (dirty_index was) custom dirty_addr =
          ap (λ x. mark_by x t.db.mode (u32 dirty_addr)) (read_status-dirty was sector)
          ∙ ap₂ (mark_by (dirty_index was)) mode at in
        subst (Dirtied was) (sym e) (mark_by-Dirtied was sector)
