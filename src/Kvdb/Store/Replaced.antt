-- ===== src/Kvdb/Store/Replaced.antt =====
-- The core of `set_kv` of flashdb/fdb_kvdb.c: a pair of the key is replaced by a new one.
use flashdb_rs.Prelude.{
  ℕ, ◌+◌, ◌≤◌, ◌<◌, ◌≡◌, ◌≢◌, ◌⊎◌, inl, inr, refl, sym, ap, ◌∙◌, true, false, Option, some, List,
  arith, length, ◌>>=◌,
}
use flashdb_rs.Types.{no_err, Db, KvStatus, DirtyStatus, align_down}
use flashdb_rs.Flash.{Driver}
use flashdb_rs.Flash.Nor.{IsNor}
use flashdb_rs.Kvdb.{Kv, KvSecInfo, Kvdb}
use flashdb_rs.Kvdb.Cache.{update_kv_cache}
use flashdb_rs.Kvdb.Cache.Pairs.{AreActive}
use flashdb_rs.Kvdb.Pairs.{read_kv}
use flashdb_rs.Kvdb.Pairs.Layout.{IsStored, Fits, Fits-db, HasKvRoom, HasKvRoom-kept, stored_kv}
use flashdb_rs.Kvdb.Pairs.Stored.{read_kv-IsStored}
use flashdb_rs.Kvdb.Pairs.Kept.{IsStored-kept}
use flashdb_rs.Kvdb.Search.{find_kv, get_kv}
use flashdb_rs.Kvdb.Delete.{del_kv}
use flashdb_rs.Kvdb.Delete.Dirty.{InSector, InSector-db, dirtied}
use flashdb_rs.Kvdb.Delete.Deleted.{forgotten, del_kv-Deleted}
use flashdb_rs.Kvdb.Create.{create_kv_blob}
use flashdb_rs.Kvdb.Create.Created.{create_kv_blob-Created}
use flashdb_rs.Kvdb.Create.Found.{updated-get_kv}
use flashdb_rs.Kvdb.Store.{create_in_cur_sector, replace_kv}

-- The old pair lies in a sector, complete, and the current sector has room for the new one; neither
-- the old pair nor its sector's dirty status is in the new place or is the current sector's status.
pub record CanReplace (m : ℕ → ℕ) (cap : ℕ) (t : Kvdb) (old : Kv) (key value before : List ℕ)
    (was : DirtyStatus) : Type 0 where
  pub fits : Fits cap t old.start key before
  pub stored : IsStored m old.start KvStatus.write key before
  pub sector : InSector m t old.start was
  pub room : HasKvRoom m cap t t.cur_sector key value
  pub long : t.cur_sector.empty_kv + 88 ≤ cap
  pub header :
      (t.cur_sector.addr < old.start)
      ⊎ (old.start + 24 + length key + length before ≤ t.cur_sector.addr)
  pub dirty_apart : t.cur_sector.addr ≢ align_down old.start t.db.sec_size + 1
  pub apart :
      (old.start + 24 + length key + length before ≤ t.cur_sector.empty_kv)
      ⊎ (t.cur_sector.empty_kv + 24 + length key + length value
          ≤ align_down old.start t.db.sec_size + 1)

module _ {S : Type 0} (d : Driver S) (local_sector : KvSecInfo) (local_kv : Kv) where
  replace_kv-run :
      (key value : List ℕ) (len : ℕ) (old : Kv) (sector : KvSecInfo) (t t1 t2 t3 t4 : Kvdb)
      (s s1 s2 s3 s4 : S)
      → find_kv d local_sector key t.cur_kv t s ≡ some (true, old, t1, s1)
      → del_kv d local_sector local_kv (some key) (some old) false (record t1 { cur_kv = old }) s1
        ≡ some (no_err, t2, s2)
      → create_kv_blob d local_sector local_kv t2.cur_sector key value len t2 s2
        ≡ some (no_err, sector, t3, s3)
      → del_kv d local_sector local_kv
          (some key)
          (some old)
          true
          (record t3 { cur_sector = sector })
          s3
        ≡ some (no_err, t4, s4)
      → replace_kv d local_sector local_kv key value len t s ≡ some (no_err, t4, s4)
  unfolding replace_kv create_in_cur_sector
  replace_kv-run key value len old sector t t1 t2 t3 t4 s s1 s2 s3 s4 found prepared created
        deleted =
      rw (replace_kv, found, ◌>>=◌, prepared, create_in_cur_sector, created, deleted) refl

module _ {S : Type 0} (d : Driver S) (view : S → ℕ → ℕ) {cap : ℕ} (nor : IsNor d view cap)
    (local_sector : KvSecInfo) (local_kv : Kv) where
  -- On a device that behaves like NOR flash: `set_kv` has room for the pair in the current sector,
  -- and `find_kv` has found an old pair of the key. Then replacing it succeeds; `get_kv` of the key
  -- into a buffer that is large enough gives the new value; and `read_kv` of the old pair gives the
  -- status `FDB_KV_DELETED`.
  pub replace_kv-get_kv :
      (key value before : List ℕ) (old : Kv) (was : DirtyStatus) (t t1 : Kvdb) (s s1 : S)
      → find_kv d local_sector key t.cur_kv t s ≡ some (true, old, t1, s1)
      → CanReplace (view s1) cap t1 old key value before was
      → 0 < length t1.kv_cache_table
      → AreActive t1.kv_cache_table
      → (t2 : Kvdb) × (s2 : S) × (replace_kv d local_sector local_kv key value (length value) t s
          ≡ some (no_err, t2, s2))
        × ((sector : KvSecInfo) (kv : Kv) (spare : ℕ)
            → (t3 : Kvdb) × (get_kv d sector key kv (length value + spare) t2 s2
                ≡ some (length value, value, length value, t3, s2)))
        × ((kv : Kv)
            → read_kv d t2 (record kv { start = old.start }) s2
              ≡ some (
                no_err,
                stored_kv (record kv { start = old.start }) KvStatus.deleted key before,
                s2,
              ))
  replace_kv-get_kv key value before old was t t1 s s1 found can pos active =
      let key_arg : Option (List ℕ) = some key in
      let a = old.start in
      let b = t1.cur_sector.empty_kv in
      let size = length key + length value in
      let dirty = align_down a t1.db.sec_size + 1 in
      let low = can.sector.behind in
      let behind = can.room.behind in
      let header = can.header in
      let apart = can.apart in
      let dirty_apart = can.dirty_apart in
      let status_start : t1.cur_sector.addr ≢ a =
        λ e. elim header [ inl x ↦ absurd (omega arith) | inr x ↦ absurd (omega arith) ] in
      let new_start : (p : ℕ) → b ≤ p → p < b + 24 + length key + length value → p ≢ a =
        λ p h k e. elim apart [ inl x ↦ absurd (omega arith) | inr x ↦ absurd (omega arith) ] in
      let new_dirty : (p : ℕ) → b ≤ p → p < b + 24 + length key + length value → p ≢ dirty =
        λ p h k e. elim apart [ inl x ↦ absurd (omega arith) | inr x ↦ absurd (omega arith) ] in
      let old_status : (p : ℕ)
          → a ≤ p
          → p < a + 24 + length key + length before
          → p ≢ t1.cur_sector.addr =
        λ p h k e. elim header [ inl x ↦ absurd (omega arith) | inr x ↦ absurd (omega arith) ] in
      let old_place : (p : ℕ)
          → a ≤ p
          → p < a + 24 + length key + length before
          → (p < b) ⊎ (b + 24 + length key + length value ≤ p) =
        λ p h k. elim apart [ inl x ↦ inl (omega arith) | inr x ↦ inr (omega arith) ] in
      let dirty_place : (dirty < b) ⊎ (b + 24 + length key + length value ≤ dirty) = elim apart [
        | inl x ↦ inl (omega arith)
        | inr x ↦ inr x
      ] in
      let found_kv : Kvdb = record t1 { cur_kv = old } in
      let found_sector : InSector (view s1) found_kv a was = record {
        behind = can.sector.behind;
        marked = can.sector.marked;
      } in
      let (table2, s2, prepared, old2, dirty2, kept2) =
        del_kv-Deleted d view nor local_sector local_kv key_arg old false found_kv s1 KvStatus.write
          key before was (Fits-db found_kv refl can.fits) can.stored found_sector (omega arith) in
      let t2 : Kvdb = record (forgotten d view nor key_arg old false found_kv no_err) {
        sector_cache_table = table2;
      } in
      let room2 : HasKvRoom (view s2) cap t2 t1.cur_sector key value =
        HasKvRoom-kept (view s2) t2 refl can.room
          (kept2 t1.cur_sector.addr status_start dirty_apart)
          (λ p h k. kept2 p (new_start p h k) (new_dirty p h k)) in
      let (t3, s3, created, same3, new3, kept3) =
        create_kv_blob-Created d view nor local_sector local_kv t1.cur_sector key value t2 s2
          room2 in
      let closed : Kvdb = record t3 { cur_sector = t1.cur_sector } in
      let db3 : closed.db ≡ t1.db = ap (λ (x : Kvdb). x.db) same3 in
      let same_dirty : align_down a closed.db.sec_size + 1 ≡ dirty =
        ap (λ (x : Db). align_down a x.sec_size + 1) db3 in
      let old3 : IsStored (view s3) a KvStatus.pre_delete key before =
        IsStored-kept old2 (view s3) (λ p h k. kept3 p (old_status p h k) (old_place p h k)) in
      let marked2 : InSector (view s2) found_kv a (dirtied was) = record {
        behind = can.sector.behind;
        marked = dirty2;
      } in
      let sector3 : InSector (view s3) closed a (dirtied was) =
        InSector-db closed db3 marked2 (kept3 dirty (λ e. dirty_apart (sym e)) dirty_place) in
      let (table4, s4, deleted, old4, dirty4, kept4) =
        del_kv-Deleted d view nor local_sector local_kv key_arg old true closed s3
          KvStatus.pre_delete key before (dirtied was) (Fits-db closed db3 can.fits) old3 sector3
          (omega arith) in
      let t4 : Kvdb = record (forgotten d view nor key_arg old true closed no_err) {
        sector_cache_table = table4;
      } in
      let new4 : IsStored (view s4) b KvStatus.write key value =
        IsStored-kept new3 (view s4)
          (λ p h k. kept4 p (new_start p h k) (λ e. new_dirty p h k (e ∙ same_dirty))) in
      let last : closed.last_is_complete_del ≡ true =
        ap (λ (x : Kvdb). x.last_is_complete_del) same3 in
      let cache3 : closed.kv_cache_table ≡ update_kv_cache t1.kv_cache_table key b =
        ap (λ (x : Kvdb). x.kv_cache_table) same3 in
      let cache4 : t4.kv_cache_table ≡ update_kv_cache t1.kv_cache_table key b = rw last cache3 in
      (
        t4,
        s4,
        replace_kv-run d local_sector local_kv key value (length value) old t1.cur_sector t t1 t2 t3
            t4 s s1 s2 s3 s4 found prepared created deleted,
        λ sector kv spare.
            updated-get_kv d view nor key value b t4 s4 t1.kv_cache_table
              (Fits-db t4 db3 can.room.fits) new4 can.long cache4 pos active sector kv
              (length value + spare) (omega arith),
        λ kv.
            read_kv-IsStored d view nor t4 s4 (record kv { start = old.start }) KvStatus.deleted key
              before (Fits-db t4 db3 can.fits) old4,
      )
