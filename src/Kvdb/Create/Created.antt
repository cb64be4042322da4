-- ===== src/Kvdb/Create/Created.antt =====
-- What `create_kv_blob` of flashdb/fdb_kvdb.c leaves of the database and the device.
use flashdb_rs.Prelude.{
  ℕ, ◌+◌, ◌-◌, ◌≤◌, ◌<◌, ◌≡◌, ◌≢◌, refl, sym, ap, ap₂, ◌∙◌, subst, ◌⊎◌, Bool, true, false, some,
  List, arith, length, ◌==◌, ltb, ◌&&◌, if◌then◌else◌, Option, ◌>>=◌,
}
use flashdb_rs.Prelude.Bytes.{sub32}
use flashdb_rs.Types.{
  FdbErr, no_err, is_ok, Db, KvStatus, byte_erased, failed_addr, u32, wg_align, kv_name_err,
  saved_full,
}
use flashdb_rs.Flash.{Driver}
use flashdb_rs.Flash.Nor.{IsNor}
use flashdb_rs.Kvdb.{Kv, KvSecInfo, Kvdb}
use flashdb_rs.Kvdb.Cache.{update_sector_empty_addr_cache, update_kv_cache}
use flashdb_rs.Kvdb.Pairs.Layout.{IsStored, HasKvRoom}
use flashdb_rs.Kvdb.Alloc.{update_kv_sec_status}
use flashdb_rs.Kvdb.Alloc.Status.{update_kv_sec_status-Updated, update_kv_sec_status-keeps}
use flashdb_rs.Kvdb.Gc.{new_kv}
use flashdb_rs.Kvdb.Create.{KvHdr, cache_pair, write_pair, create_at, create_kv_blob}
use flashdb_rs.Kvdb.Create.Written.{new_hdr, written-IsStored, written-outside, kv_crc32-pair_crc}
use flashdb_rs.Kvdb.Create.Effects.{write_pair-written}

-- The object `t2` is `t` but for the cached sectors, the requested collection, and the address of
-- the key in the cache.
abbrev pub KeepsBut : List ℕ → ℕ → Kvdb → Kvdb → Type 0
KeepsBut key a t t2 = t2 ≡ record t {
  kv_cache_table = update_kv_cache t.kv_cache_table key a;
  sector_cache_table = t2.sector_cache_table;
  gc_request = t2.gc_request;
}

cache_pair-KeepsBut :
    (sec_addr : ℕ) (key : List ℕ) (hdr : KvHdr) (a : ℕ) (is_full : Bool) (t : Kvdb)
    → KeepsBut key a t (cache_pair sec_addr key hdr a is_full t)
unfolding cache_pair update_sector_empty_addr_cache
cache_pair-KeepsBut sec_addr key hdr a true t = refl
cache_pair-KeepsBut sec_addr key hdr a false t = refl

-- The header before its checksum is known.
abbrev plain_hdr : List ℕ → List ℕ → KvHdr
plain_hdr key value = record (new_hdr key value) { crc32 = 0 }

module _ {S : Type 0} (d : Driver S) (sector : KvSecInfo) (key value : List ℕ) (t : Kvdb)
    (s : S) where
  -- The body of `create_kv_blob`, with the lengths that it computes.
  abbrev blob_by : KvSecInfo → Kv → (len value_len : ℕ) → Option (FdbErr × KvSecInfo × Kvdb × S)
  blob_by local_sector local_kv len value_len =
      let hdr : KvHdr = record {
        len = len;
        crc32 = 0;
        name_len = length key;
        value_len = value_len;
      } in
      elim (ltb 64 (length key)) [
        | true ↦ some (kv_name_err, sector, t, s)
        | false ↦ elim (ltb (sub32 t.db.sec_size 16) len) [
          | true ↦ some (saved_full, sector, t, s)
          | false ↦ do
            (kv_addr, sector, t, s) ←
                if sector.empty_kv == failed_addr
                then new_kv d local_sector local_kv sector len t s
                else some (sector.empty_kv, sector, t, s)
            let (e, t, s) =
                if kv_addr == failed_addr
                then (saved_full, t, s)
                else create_at d sector key value hdr kv_addr t s
            some (e, sector, t, s)
        ]
      ]

  create_kv_blob-create_at :
      (local_sector : KvSecInfo) (local_kv : Kv) (m : ℕ → ℕ) (size : ℕ)
      → HasKvRoom m size t sector key value
      → let r = create_at d sector key value (plain_hdr key value) sector.empty_kv t s in
        create_kv_blob d local_sector local_kv sector key value (length value) t s
        ≡ some (r.0, sector, r.1, r.2)
  unfolding create_kv_blob
  create_kv_blob-create_at local_sector local_kv m size room =
      let fits = room.fits in
      let a = fits.inside in
      let b = fits.small in
      let c = fits.short in
      let e = room.sector_room in
      let g = room.sector_small in
      let n = length key in
      let v = length value in
      let short : ltb 64 n ≡ false = ground arith in
      let value_len : u32 v ≡ v = omega arith in
      let len : u32 (24 + wg_align n + wg_align v) ≡ 24 + n + v = omega arith in
      let left : sub32 t.db.sec_size 16 ≡ t.db.sec_size - 16 = omega arith in
      let small : ltb (t.db.sec_size - 16) (24 + n + v) ≡ false = ground arith in
      let given : (sector.empty_kv == failed_addr) ≡ false = ground arith in
      ap (λ x. blob_by local_sector local_kv (u32 (24 + wg_align n + wg_align x)) x) value_len
      ∙ ap (λ x. blob_by local_sector local_kv x v) len
      ∙ rw (short, blob_by, left, small, given, ◌>>=◌, given)

  -- What `create_at` leaves of the database behind the update of the sector's status.
  abbrev after_pair : Bool → Kvdb → Kvdb
  after_pair is_full t1 =
      let cached = cache_pair sector.addr key (new_hdr key value) sector.empty_kv is_full t1 in
      if is_full then record cached { gc_request = true } else cached

  after_pair-KeepsBut :
      (is_full : Bool) (t1 : Kvdb) → KeepsBut key sector.empty_kv t1 (after_pair is_full t1)
  after_pair-KeepsBut true t1 =
      ap (λ (x : Kvdb). record x { gc_request = true })
        (cache_pair-KeepsBut sector.addr key (new_hdr key value) sector.empty_kv true t1)
  after_pair-KeepsBut false t1 =
      cache_pair-KeepsBut sector.addr key (new_hdr key value) sector.empty_kv false t1

  -- The body of `create_at`, with the outcome of the update and the checksum.
  abbrev at_by : FdbErr × Bool × Kvdb × S → ℕ → FdbErr × Kvdb × S
  at_by (e, is_full, t, s) crc = elim (is_ok e) [
    | false ↦ (e, t, s)
    | true ↦
        let (e, t, s) =
          write_pair d sector.addr key value (record (plain_hdr key value) { crc32 = crc })
            sector.empty_kv is_full t s in
        (e, (if is_ok e && is_full then record t { gc_request = true } else t), s)
  ]

  create_at-write_pair :
      (is_full : Bool) (t1 : Kvdb) (s1 s2 : S)
      → update_kv_sec_status d sector (24 + length key + length value) false t s
        ≡ (no_err, is_full, t1, s1)
      → write_pair d sector.addr key value (new_hdr key value) sector.empty_kv is_full t1 s1
        ≡ (no_err, cache_pair sector.addr key (new_hdr key value) sector.empty_kv is_full t1, s2)
      → create_at d sector key value (plain_hdr key value) sector.empty_kv t s
        ≡ (no_err, after_pair is_full t1, s2)
  unfolding create_at
  create_at-write_pair is_full t1 s1 s2 h g =
      ap₂ at_by h (kv_crc32-pair_crc key value)
      ∙ ap
          (λ (r : FdbErr × Kvdb × S).
            (r.0, (if is_ok r.0 && is_full then record (r.1) { gc_request = true } else r.1), r.2))
          g

module _ {S : Type 0} (d : Driver S) (view : S → ℕ → ℕ) {cap : ℕ} (nor : IsNor d view cap)
    (local_sector : KvSecInfo) (local_kv : Kv) where
  -- What the call leaves of the database and the device.
  abbrev pub Created : KvSecInfo → List ℕ → List ℕ → Kvdb → S → Type 0
  Created sector key value t s =
      (t2 : Kvdb) × (s2 : S) × (create_kv_blob d local_sector local_kv sector key value
          (length value) t s
        ≡ some (no_err, sector, t2, s2))
      × KeepsBut key sector.empty_kv t t2
      × IsStored (view s2) sector.empty_kv KvStatus.write key value
      × ((p : ℕ)
          → p ≢ sector.addr
          → (p < sector.empty_kv) ⊎ (sector.empty_kv + 24 + length key + length value ≤ p)
          → view s2 p ≡ view s p)

  pub create_kv_blob-Created :
      (sector : KvSecInfo) (key value : List ℕ) (t : Kvdb) (s : S)
      → HasKvRoom (view s) cap t sector key value
      → Created sector key value t s
  create_kv_blob-Created sector key value t s room =
      let fits = room.fits in
      let a = sector.empty_kv in
      let inside = fits.inside in
      let small = fits.small in
      let behind = room.behind in
      let size = 24 + length key + length value in
      let (ok, db, kept) =
        update_kv_sec_status-Updated d view nor sector t s fits.mode (omega arith) room.marked size
          sector.store refl in
      let r = update_kv_sec_status d sector size false t s in
      let t1 = r.2 in
      let m1 = view r.3 in
      let free : (p : ℕ) → a ≤ p → p < a + 24 + length key + length value → m1 p ≡ byte_erased =
        λ p q h. kept p (λ e. absurd (omega arith)) ∙ room.free p q h in
      let (s2, pair, after) =
        write_pair-written d view nor m1 a key value inside small free room.key_bytes
          room.value_bytes fits.short sector.addr r.1 t1 r.3
          (ap (λ (x : Db). x.mode) db ∙ fits.mode) refl in
      let created =
        create_at-write_pair d sector key value t s r.1 t1 r.3 s2
          (ap (λ (e : FdbErr). (e, r.1, t1, r.3)) ok) pair in
      let t2 = after_pair d sector key value t s r.1 t1 in
      let stored : IsStored (view s2) a KvStatus.write key value =
        subst (λ m. IsStored m a KvStatus.write key value) (sym after)
          (written-IsStored m1 a key value) in
      let same : KeepsBut key a t t2 =
        after_pair-KeepsBut d sector key value t s r.1 t1
        ∙ ap
            (λ (x : Kvdb). record x {
              kv_cache_table = update_kv_cache x.kv_cache_table key a;
              sector_cache_table = t2.sector_cache_table;
              gc_request = t2.gc_request;
            })
            (update_kv_sec_status-keeps d sector size t s sector.store refl) in
      (
        t2,
        s2,
        create_kv_blob-create_at d sector key value t s local_sector local_kv (view s) cap room
            ∙ ap (λ (x : FdbErr × Kvdb × S). some (x.0, sector, x.1, x.2)) created,
        same,
        stored,
        λ p q h. ap (λ m. m p) after ∙ written-outside m1 a key value p h ∙ kept p q,
      )
