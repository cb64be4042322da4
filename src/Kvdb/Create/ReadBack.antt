-- ===== src/Kvdb/Create/ReadBack.antt =====
-- The pair that `create_kv_blob` of flashdb/fdb_kvdb.c has written, as `read_kv` reads it.
use flashdb_rs.Prelude.{ℕ, ◌+◌, ◌≤◌, ◌<◌, ◌≡◌, ◌≢◌, ap, ◌⊎◌, some, List, length}
use flashdb_rs.Types.{no_err, KvStatus}
use flashdb_rs.Flash.{Driver}
use flashdb_rs.Flash.Nor.{slice, IsNor}
use flashdb_rs.Kvdb.{Kv, KvSecInfo, Kvdb}
use flashdb_rs.Kvdb.Pairs.{read_kv}
use flashdb_rs.Kvdb.Pairs.Layout.{Fits, Fits-db, HasKvRoom, stored_kv}
use flashdb_rs.Kvdb.Pairs.Stored.{read_kv-IsStored}
use flashdb_rs.Kvdb.Create.{create_kv_blob}
use flashdb_rs.Kvdb.Create.Created.{create_kv_blob-Created}

module _ {S : Type 0} (d : Driver S) (view : S → ℕ → ℕ) {cap : ℕ} (nor : IsNor d view cap)
    (local_sector : KvSecInfo) (local_kv : Kv) where
  -- On a device that behaves like NOR flash, and where the sector has room for the pair in erased
  -- bytes, `create_kv_blob` succeeds. Then `read_kv` at the sector's `empty_kv` gives the key, the
  -- value's length and address, a right checksum and the status `FDB_KV_WRITE`; the value's bytes
  -- are at that address; and every byte but those of the pair and the sector's status is as it was.
  pub create_kv_blob-read_kv :
      (sector : KvSecInfo) (key value : List ℕ) (t : Kvdb) (s : S)
      → HasKvRoom (view s) cap t sector key value
      → (t2 : Kvdb) × (s2 : S) × (create_kv_blob d local_sector local_kv sector key value
            (length value)
            t
            s
          ≡ some (no_err, sector, t2, s2))
        × ((kv : Kv)
            → read_kv d t2 (record kv { start = sector.empty_kv }) s2
              ≡ some (
                no_err,
                stored_kv (record kv { start = sector.empty_kv }) KvStatus.write key value,
                s2,
              ))
        × (slice (view s2) (sector.empty_kv + 24 + length key) (length value) ≡ value)
        × ((p : ℕ)
            → p ≢ sector.addr
            → (p < sector.empty_kv) ⊎ (sector.empty_kv + 24 + length key + length value ≤ p)
            → view s2 p ≡ view s p)
  create_kv_blob-read_kv sector key value t s room =
      let (t2, s2, run, same, stored, other) =
        create_kv_blob-Created d view nor local_sector local_kv sector key value t s room in
      let db : t2.db ≡ t.db = ap (λ (x : Kvdb). x.db) same in
      let fits2 : Fits cap t2 sector.empty_kv key value = Fits-db t2 db room.fits in
      (
        t2,
        s2,
        run,
        λ kv.
            read_kv-IsStored d view nor t2 s2 (record kv { start = sector.empty_kv }) KvStatus.write
              key value fits2 stored,
        stored.bytes,
        other,
      )
