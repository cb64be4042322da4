-- ===== src/Kvdb/Delete/Deleted.antt =====
-- What `del_kv` of flashdb/fdb_kvdb.c leaves of the database and the device.
use flashdb_rs.Prelude.{
  ℕ, ◌+◌, ◌<◌, ◌≡◌, ◌≢◌, refl, sym, ap, ap₂, ◌∙◌, subst, Bool, true, false, Option, none, some,
  List, [], ◌∷◌, bit_and, arith, take, ◌&&◌, not, if◌then◌else◌,
}
use flashdb_rs.Types.{
  FdbErr, no_err, is_ok, custom, Db, data_unused, KvStatus, DirtyStatus, kv_index, dirty_index,
  align_down,
}
use flashdb_rs.Flash.{Driver}
use flashdb_rs.Flash.Nor.{patch, IsNor}
use flashdb_rs.Flash.Effects.{Leaves, patch_below, patch_other}
use flashdb_rs.Status.{write_status}
use flashdb_rs.Status.Effects.{status_byte, later_status, write_status-Leaves}
use flashdb_rs.Kvdb.{Kv, KvSecInfo, Kvdb}
use flashdb_rs.Kvdb.Cache.{update_kv_cache}
use flashdb_rs.Kvdb.Pairs.Layout.{IsStored, Fits, Fits-db}
use flashdb_rs.Kvdb.Pairs.Kept.{IsStored-kept, IsStored-remarked}
use flashdb_rs.Kvdb.Delete.{mark_sector_dirty, del_found, del_kv}
use flashdb_rs.Kvdb.Delete.Dirty.{InSector, InSector-db, dirtied, mark_sector_dirty-Dirtied}

-- The status that `del_kv` writes.
abbrev pub deletion : Bool → KvStatus
deletion false = KvStatus.pre_delete
deletion true = KvStatus.deleted

module _ {S : Type 0} (d : Driver S) (view : S → ℕ → ℕ) {cap : ℕ} (nor : IsNor d view cap) where
  -- The database before the sector is marked, with what the write of the status returned.
  abbrev pub forgotten : Option (List ℕ) → Kv → Bool → Kvdb → FdbErr → Kvdb
  forgotten key old_kv false t e = record t { last_is_complete_del = true }
  forgotten key old_kv true t e =
      let name : List ℕ = elim key [ none ↦ take old_kv.name_len old_kv.name | some key ↦ key ] in
      record t {
        kv_cache_table =
            if not t.last_is_complete_del && is_ok e
            then update_kv_cache t.kv_cache_table name data_unused
            else t.kv_cache_table;
        last_is_complete_del = false;
      }

  pub forgotten-db :
      (key : Option (List ℕ)) (old_kv : Kv) (complete_del : Bool) (t : Kvdb) (e : FdbErr)
      → (forgotten key old_kv complete_del t e).db ≡ t.db
  forgotten-db key old_kv false t e = refl
  forgotten-db key old_kv true t e = refl

  -- The write of the pair's status.
  abbrev delete_mark : Kv → Bool → Kvdb → S → FdbErr × S
  delete_mark old_kv complete_del t s =
      write_status d t.db.mode old_kv.start 6 (kv_index (deletion complete_del)) complete_del s

  del_found-marked :
      (key : Option (List ℕ)) (old_kv : Kv) (complete_del : Bool) (t : Kvdb) (s : S)
      → let r = delete_mark old_kv complete_del t s in
        del_found d key old_kv complete_del t s
        ≡ mark_sector_dirty d old_kv.start r.0 (forgotten key old_kv complete_del t r.0) r.1
  unfolding del_found
  del_found-marked key old_kv false t s = refl
  del_found-marked key old_kv true t s = refl

  delete_mark-patch :
      (old_kv : Kv) (complete_del : Bool) (t : Kvdb) (s : S) (st : KvStatus)
      → t.db.mode ≡ custom
      → old_kv.start < cap
      → view s old_kv.start ≡ status_byte (kv_index st)
      → kv_index st < kv_index (deletion complete_del)
      → let r = delete_mark old_kv complete_del t s in
        (r.0 ≡ no_err)
        × (view r.1
            ≡ patch (view s) old_kv.start (status_byte (kv_index (deletion complete_del)) ∷ []))
  delete_mark-patch old_kv false t s st mode inside marked later =
      let at = old_kv.start in
      let clears =
        ap (λ b. bit_and b (status_byte 3)) marked
        ∙ later_status (kv_index st) 3 later (omega arith) in
      subst
        (λ x.
          Leaves d view (write_status d x at 6 3 false) s (patch (view s) at (status_byte 3 ∷ [])))
        (sym mode)
        (write_status-Leaves d view nor 6 2 at false s (view s) (omega arith) (omega arith) refl
          inside clears)
  delete_mark-patch old_kv true t s st mode inside marked later =
      let at = old_kv.start in
      let clears =
        ap (λ b. bit_and b (status_byte 4)) marked
        ∙ later_status (kv_index st) 4 later (omega arith) in
      subst
        (λ x.
          Leaves d view (write_status d x at 6 4 true) s (patch (view s) at (status_byte 4 ∷ [])))
        (sym mode)
        (write_status-Leaves d view nor 6 3 at true s (view s) (omega arith) (omega arith) refl
          inside clears)

  -- What `del_kv` of a pair that is known leaves of the database and the device.
  abbrev pub Deleted :
      KvSecInfo
      → Kv
      → Option (List ℕ)
      → Kv
      → Bool
      → Kvdb
      → S
      → List ℕ
      → List ℕ
      → DirtyStatus
      → Type 0
  Deleted local_sector local_kv key old_kv complete_del t s name value was =
      let dirty_addr = align_down old_kv.start t.db.sec_size + 1 in
      (table : List KvSecInfo) × (s2 : S) × (del_kv d local_sector local_kv key (some old_kv)
          complete_del t s
        ≡ some (
          no_err,
          record (forgotten key old_kv complete_del t no_err) { sector_cache_table = table },
          s2,
        ))
      × IsStored (view s2) old_kv.start (deletion complete_del) name value
      × (view s2 dirty_addr ≡ status_byte (dirty_index (dirtied was)))
      × ((p : ℕ) → p ≢ old_kv.start → p ≢ dirty_addr → view s2 p ≡ view s p)

  pub del_kv-Deleted :
      (local_sector : KvSecInfo) (local_kv : Kv)
      → (key : Option (List ℕ)) (old_kv : Kv) (complete_del : Bool) (t : Kvdb) (s : S)
      → (st : KvStatus) (name value : List ℕ) (was : DirtyStatus)
      → Fits cap t old_kv.start name value
      → IsStored (view s) old_kv.start st name value
      → InSector (view s) t old_kv.start was
      → kv_index st < kv_index (deletion complete_del)
      → Deleted local_sector local_kv key old_kv complete_del t s name value was
  unfolding del_kv
  del_kv-Deleted local_sector local_kv key old_kv complete_del t s st name value was fits stored
        sector later =
      let a = old_kv.start in
      let inside = fits.inside in
      let behind = sector.behind in
      let mark = status_byte (kv_index (deletion complete_del)) ∷ [] in
      let (ok, after) =
        delete_mark-patch old_kv complete_del t s st fits.mode (omega arith) stored.marked later in
      let r = delete_mark old_kv complete_del t s in
      let t1 = forgotten key old_kv complete_del t r.0 in
      let db : t1.db ≡ t.db = forgotten-db key old_kv complete_del t r.0 in
      let sec : t1.db.sec_size ≡ t.db.sec_size = ap (λ (x : Db). x.sec_size) db in
      let fits1 : Fits cap t1 a name value = Fits-db t1 db fits in
      let before = align_down a t.db.sec_size + 1 in
      let same : align_down a t1.db.sec_size + 1 ≡ before = ap (λ x. align_down a x + 1) sec in
      let sector1 : InSector (view r.1) t1 a was =
        InSector-db t1 db sector
          (ap (λ m. m before) after ∙ patch_below (view s) a mark before (omega arith)) in
      let (ok2, same2, dirty2, kept2) =
        mark_sector_dirty-Dirtied d view nor t1 r.1 a fits1.mode (omega arith) fits.small was
          sector1 in
      let out = mark_sector_dirty d a no_err t1 r.1 in
      let kept : (p : ℕ) → p ≢ before → view out.2 p ≡ patch (view s) a mark p =
        λ p q. kept2 p (λ e. q (e ∙ same)) ∙ ap (λ m. m p) after in
      let stored2 : IsStored (view out.2) a (deletion complete_del) name value =
        IsStored-kept (IsStored-remarked stored (deletion complete_del)) (view out.2)
          (λ p q h. kept p (λ e. absurd (omega arith))) in
      (
        out.1.sector_cache_table,
        out.2,
        ap some (
            del_found-marked key old_kv complete_del t s
            ∙ ap (λ e. mark_sector_dirty d a e t1 r.1) ok
            ∙ ap₂ (λ (e : FdbErr) (x : Kvdb). (e, x, out.2)) ok2 same2
            ∙ ap
                (λ e. (
                  no_err,
                  record (forgotten key old_kv complete_del t e) {
                    sector_cache_table = out.1.sector_cache_table;
                  },
                  out.2,
                ))
                ok),
        stored2,
        ap (view out.2) (sym same) ∙ dirty2,
        λ p q h.
            kept p h ∙ patch_other (view s) a (status_byte (kv_index (deletion complete_del))) p q,
      )
