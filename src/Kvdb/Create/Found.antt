-- ===== src/Kvdb/Create/Found.antt =====
-- A pair that `create_kv_blob` of flashdb/fdb_kvdb.c has written is found by its key.
use flashdb_rs.Prelude.{
  ℕ, suc, zero, ◌+◌, ◌≤◌, ◌<◌, ◌≡◌, ◌≢◌, refl, ap, ap₂, ◌∙◌, true, some, List, [], ◌∷◌, arith,
  length, drop, ltb, ◌==◌, if◌then◌else◌,
}
use flashdb_rs.Types.{FdbErr, no_err, KvStatus, data_unused, u32}
use flashdb_rs.Flash.{Driver, flash_read}
use flashdb_rs.Flash.Nor.{slice, IsNor}
use flashdb_rs.Flash.Effects.{flash_read-slice}
use flashdb_rs.Kvdb.{Kv, KvSecInfo, KvCacheNode, Kvdb}
use flashdb_rs.Kvdb.Cache.{starts_with, get_kv_from_cache, update_kv_cache}
use flashdb_rs.Kvdb.Cache.Pairs.{AreActive, update_kv_cache-get_kv_from_cache}
use flashdb_rs.Kvdb.Pairs.Layout.{IsStored, Fits, Fits-db, HasKvRoom}
use flashdb_rs.Kvdb.Pairs.Stored.{read_kv-IsStored}
use flashdb_rs.Kvdb.Search.{find_kv, get_kv}
use flashdb_rs.Kvdb.Create.{create_kv_blob}
use flashdb_rs.Kvdb.Create.Created.{create_kv_blob-Created}

abbrev head_or_0 : List ℕ → ℕ
head_or_0 [] = 0
head_or_0 (c ∷ cs) = c

-- More bytes of the device start with the key where its bytes are the key.
starts_with-slice :
    (key : List ℕ) (m : ℕ → ℕ) (p n : ℕ)
    → slice m p (length key) ≡ key
    → length key ≤ n
    → starts_with key (slice m p n) ≡ true
unfolding starts_with
starts_with-slice [] m p n e h = refl
starts_with-slice (c ∷ key) m p zero e h = absurd (omega arith)
starts_with-slice (c ∷ key) m p (suc n) e h =
    let first : (c == m p) ≡ true = let same = ap head_or_0 e in ground arith in
    rw (first, starts_with) (starts_with-slice key m (suc p) n (ap (drop 1) e) (omega arith))

module _ {S : Type 0} (d : Driver S) (view : S → ℕ → ℕ) {cap : ℕ} (nor : IsNor d view cap) where
  get_kv_from_cache-db :
      (t : Kvdb) (s : S) (key : List ℕ) → (get_kv_from_cache d t s key).1.db ≡ t.db
  unfolding get_kv_from_cache
  get_kv_from_cache-db t s key = refl

  -- A pair whose address the cache gives is found, with its value's length and bytes.
  cached-get_kv :
      (sector : KvSecInfo) (key value : List ℕ) (kv : Kv) (buf_len a : ℕ) (t : Kvdb) (s : S)
      → Fits cap t a key value
      → IsStored (view s) a KvStatus.write key value
      → (get_kv_from_cache d t s key).0 ≡ some a
      → length value ≤ buf_len
      → (t2 : Kvdb) × (get_kv d sector key kv buf_len t s
          ≡ some (length value, value, length value, t2, s))
  unfolding get_kv find_kv
  cached-get_kv sector key value kv buf_len a t s fits stored hit large =
      let cached = (get_kv_from_cache d t s key).1 in
      let inside = fits.inside in
      let kv1 : Kv = record kv { start = a } in
      let fits1 : Fits cap cached a key value =
        Fits-db cached (get_kv_from_cache-db t s key) fits in
      let read = read_kv-IsStored d view nor cached s kv1 KvStatus.write key value fits1 stored in
      let bytes : (flash_read d cached.db.mode s (a + 24 + length key) (length value)).1 ≡ value =
        ap (λ x. (flash_read d x s (a + 24 + length key) (length value)).1) fits1.mode
        ∙ ap (λ (r : FdbErr × List ℕ). r.1)
            (flash_read-slice d view nor (a + 24 + length key) (length value) s (view s) refl
              (omega arith))
        ∙ stored.bytes in
      let whole : (if ltb (length value) buf_len then length value else buf_len) ≡ length value =
        ground arith in
      (cached, rw (get_kv, find_kv, hit, read, whole, bytes) refl)

  -- So is one whose address the cache was told last.
  pub updated-get_kv :
      (key value : List ℕ) (a : ℕ) (t : Kvdb) (s : S) (table : List KvCacheNode)
      → Fits cap t a key value
      → IsStored (view s) a KvStatus.write key value
      → a + 88 ≤ cap
      → t.kv_cache_table ≡ update_kv_cache table key a
      → 0 < length table
      → AreActive table
      → (sector : KvSecInfo) (kv : Kv) (buf_len : ℕ) → length value ≤ buf_len
      → (t2 : Kvdb) × (get_kv d sector key kv buf_len t s
          ≡ some (length value, value, length value, t2, s))
  updated-get_kv key value a t s table fits stored long cache pos active sector kv buf_len large =
      let small = fits.small in
      let short = fits.short in
      let at : u32 (a + 24) ≡ a + 24 = omega arith in
      let saved : (flash_read d t.db.mode s (u32 (a + 24)) 64).1 ≡ slice (view s) (a + 24) 64 =
        ap₂ (λ x y. (flash_read d x s y 64).1) fits.mode at
        ∙ ap (λ (r : FdbErr × List ℕ). r.1)
            (flash_read-slice d view nor (a + 24) 64 s (view s) refl (omega arith)) in
      let there =
        ap (starts_with key) saved
        ∙ starts_with-slice key (view s) (a + 24) 64 stored.name (omega arith) in
      let valid : a ≢ data_unused = λ e. absurd (omega arith) in
      let hit = update_kv_cache-get_kv_from_cache d s t table key a cache valid pos active there in
      cached-get_kv sector key value kv buf_len a t s fits stored hit large

  -- On a device that behaves like NOR flash, where the sector has room for the pair in erased bytes
  -- and the 64 bytes of a longest name lie on the device, and with a cache of at least one entry,
  -- `create_kv_blob` succeeds, and then `get_kv` of the key into a buffer that is large enough
  -- gives the value and its length, whatever was stored under the key before.
  pub create_kv_blob-get_kv :
      (local_sector : KvSecInfo) (local_kv : Kv)
      → (sector : KvSecInfo) (key value : List ℕ) (t : Kvdb) (s : S)
      → HasKvRoom (view s) cap t sector key value
      → sector.empty_kv + 88 ≤ cap
      → 0 < length t.kv_cache_table
      → AreActive t.kv_cache_table
      → (t2 : Kvdb) × (s2 : S) × (create_kv_blob d local_sector local_kv sector key value
            (length value)
            t
            s
          ≡ some (no_err, sector, t2, s2))
        × ((other : KvSecInfo) (kv : Kv) (spare : ℕ)
            → (t3 : Kvdb) × (get_kv d other key kv (length value + spare) t2 s2
                ≡ some (length value, value, length value, t3, s2)))
  create_kv_blob-get_kv local_sector local_kv sector key value t s room long pos active =
      let (t2, s2, run, same, stored, other) =
        create_kv_blob-Created d view nor local_sector local_kv sector key value t s room in
      let db : t2.db ≡ t.db = ap (λ (x : Kvdb). x.db) same in
      let cache = ap (λ (x : Kvdb). x.kv_cache_table) same in
      let fits2 : Fits cap t2 sector.empty_kv key value = Fits-db t2 db room.fits in
      (
        t2,
        s2,
        run,
        λ other kv spare.
            updated-get_kv key value sector.empty_kv t2 s2 t.kv_cache_table fits2 stored long cache
              pos active other kv (length value + spare) (omega arith),
      )
