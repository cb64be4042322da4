-- ===== src/Kvdb/Store/Added.antt =====
-- The core of `set_kv` of flashdb/fdb_kvdb.c where the key has no pair: one is added.
use flashdb_rs.Prelude.{
  ℕ, arith, ◌+◌, ◌≤◌, ◌<◌, ◌≡◌, ◌≢◌, ◌⊎◌, refl, ap, false, some, List, length, ◌>>=◌,
}
use flashdb_rs.Types.{no_err}
use flashdb_rs.Flash.{Driver}
use flashdb_rs.Flash.Nor.{IsNor}
use flashdb_rs.Kvdb.{Kv, KvSecInfo, Kvdb}
use flashdb_rs.Kvdb.Cache.Pairs.{AreActive}
use flashdb_rs.Kvdb.Pairs.Layout.{Fits-db, HasKvRoom, HasKvRoom-kept}
use flashdb_rs.Kvdb.Search.{find_kv, get_kv}
use flashdb_rs.Kvdb.Create.{create_kv_blob}
use flashdb_rs.Kvdb.Create.Created.{create_kv_blob-Created}
use flashdb_rs.Kvdb.Create.Found.{updated-get_kv}
use flashdb_rs.Kvdb.Store.{create_in_cur_sector, replace_kv}

module _ {S : Type 0} (d : Driver S) (local_sector : KvSecInfo) (local_kv : Kv) where
  replace_kv-add :
      (key value : List ℕ) (len : ℕ) (kv : Kv) (sector : KvSecInfo) (t t1 t2 : Kvdb) (s s1 s2 : S)
      → find_kv d local_sector key t.cur_kv t s ≡ some (false, kv, t1, s1)
      → create_kv_blob d local_sector local_kv t1.cur_sector key value len
          (record t1 { cur_kv = kv })
          s1
        ≡ some (no_err, sector, t2, s2)
      → replace_kv d local_sector local_kv key value len t s
        ≡ some (no_err, record t2 { cur_sector = sector }, s2)
  unfolding replace_kv create_in_cur_sector
  replace_kv-add key value len kv sector t t1 t2 s s1 s2 missing created =
      rw (replace_kv, missing, ◌>>=◌, create_in_cur_sector, created) refl

module _ {S : Type 0} (d : Driver S) (view : S → ℕ → ℕ) {cap : ℕ} (nor : IsNor d view cap)
    (local_sector : KvSecInfo) (local_kv : Kv) where
  -- On a device that behaves like NOR flash: `set_kv` has room for the pair in the current sector,
  -- and `find_kv` has found no pair of the key. Then adding it succeeds; `get_kv` of the key into a
  -- buffer that is large enough gives the value; and every byte but those of the new pair and the
  -- current sector's status is as `find_kv` left it.
  pub replace_kv-added :
      (key value : List ℕ) (kv : Kv) (t t1 : Kvdb) (s s1 : S)
      → find_kv d local_sector key t.cur_kv t s ≡ some (false, kv, t1, s1)
      → HasKvRoom (view s1) cap t1 t1.cur_sector key value
      → t1.cur_sector.empty_kv + 88 ≤ cap
      → 0 < length t1.kv_cache_table
      → AreActive t1.kv_cache_table
      → let a = t1.cur_sector.empty_kv in
        (t2 : Kvdb) × (s2 : S) × (replace_kv d local_sector local_kv key value (length value) t s
          ≡ some (no_err, t2, s2))
        × ((sector : KvSecInfo) (kv2 : Kv) (spare : ℕ)
            → (t3 : Kvdb) × (get_kv d sector key kv2 (length value + spare) t2 s2
                ≡ some (length value, value, length value, t3, s2)))
        × ((p : ℕ)
            → p ≢ t1.cur_sector.addr
            → (p < a) ⊎ (a + 24 + length key + length value ≤ p)
            → view s2 p ≡ view s1 p)
  replace_kv-added key value kv t t1 s s1 missing room long pos active =
      let searched : Kvdb = record t1 { cur_kv = kv } in
      let sector = t1.cur_sector in
      let (t2, s2, created, same, new, kept) =
        create_kv_blob-Created d view nor local_sector local_kv sector key value searched s1
          (HasKvRoom-kept (view s1) searched refl room refl (λ p h k. refl)) in
      let closed : Kvdb = record t2 { cur_sector = sector } in
      (
        closed,
        s2,
        replace_kv-add d local_sector local_kv key value (length value) kv sector t t1 t2 s s1 s2
            missing created,
        λ other kv2 spare.
            updated-get_kv d view nor key value sector.empty_kv closed s2 t1.kv_cache_table
              (Fits-db closed (ap (λ (x : Kvdb). x.db) same) room.fits) new long
              (ap (λ (x : Kvdb). x.kv_cache_table) same) pos active other kv2 (length value + spare)
              (omega arith),
        kept,
      )
