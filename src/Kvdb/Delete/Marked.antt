-- ===== src/Kvdb/Delete/Marked.antt =====
-- A pair after `del_kv` of flashdb/fdb_kvdb.c, as `read_kv` reads it.
use flashdb_rs.Prelude.{ℕ, ◌+◌, ◌<◌, ◌≡◌, ◌≢◌, Bool, Option, some, List}
use flashdb_rs.Types.{no_err, KvStatus, DirtyStatus, kv_index, dirty_index, align_down}
use flashdb_rs.Flash.{Driver}
use flashdb_rs.Flash.Nor.{IsNor}
use flashdb_rs.Status.Effects.{status_byte}
use flashdb_rs.Kvdb.{Kv, KvSecInfo, Kvdb}
use flashdb_rs.Kvdb.Pairs.{read_kv}
use flashdb_rs.Kvdb.Pairs.Layout.{IsStored, Fits, Fits-db, stored_kv}
use flashdb_rs.Kvdb.Pairs.Stored.{read_kv-IsStored}
use flashdb_rs.Kvdb.Delete.{del_kv}
use flashdb_rs.Kvdb.Delete.Dirty.{InSector, dirtied}
use flashdb_rs.Kvdb.Delete.Deleted.{deletion, forgotten, forgotten-db, del_kv-Deleted}

module _ {S : Type 0} (d : Driver S) (view : S → ℕ → ℕ) {cap : ℕ} (nor : IsNor d view cap) where
  -- On a device that behaves like NOR flash, and for a pair that lies in a sector and whose status
  -- comes before the new one, `del_kv` of that pair succeeds. Then `read_kv` gives the pair as
  -- before with the status `FDB_KV_PRE_DELETE`, or `FDB_KV_DELETED` where the deletion is complete;
  -- a sector that was not dirty is dirty; and no other byte has changed.
  pub del_kv-read_kv :
      (local_sector : KvSecInfo) (local_kv : Kv)
      → (key : Option (List ℕ)) (old_kv : Kv) (complete_del : Bool) (t : Kvdb) (s : S)
      → (st : KvStatus) (name value : List ℕ) (was : DirtyStatus)
      → Fits cap t old_kv.start name value
      → IsStored (view s) old_kv.start st name value
      → InSector (view s) t old_kv.start was
      → kv_index st < kv_index (deletion complete_del)
      → let dirty_addr = align_down old_kv.start t.db.sec_size + 1 in
        (t2 : Kvdb) × (s2 : S) × (del_kv d local_sector local_kv key (some old_kv) complete_del t s
          ≡ some (no_err, t2, s2))
        × ((kv : Kv)
            → read_kv d t2 (record kv { start = old_kv.start }) s2
              ≡ some (
                no_err,
                stored_kv (record kv { start = old_kv.start }) (deletion complete_del) name value,
                s2,
              ))
        × (view s2 dirty_addr ≡ status_byte (dirty_index (dirtied was)))
        × ((p : ℕ) → p ≢ old_kv.start → p ≢ dirty_addr → view s2 p ≡ view s p)
  del_kv-read_kv local_sector local_kv key old_kv complete_del t s st name value was fits stored
        sector later =
      let (table, s2, run, deleted, dirty, kept) =
        del_kv-Deleted d view nor local_sector local_kv key old_kv complete_del t s st name value
          was fits stored sector later in
      let t2 : Kvdb = record (forgotten d view nor key old_kv complete_del t no_err) {
        sector_cache_table = table;
      } in
      let fits2 : Fits cap t2 old_kv.start name value =
        Fits-db t2 (forgotten-db d view nor key old_kv complete_del t no_err) fits in
      (
        t2,
        s2,
        run,
        λ kv.
            read_kv-IsStored d view nor t2 s2 (record kv { start = old_kv.start })
              (deletion complete_del) name value fits2 deleted,
        dirty,
        kept,
      )
