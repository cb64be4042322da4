-- ===== src/Kvdb/Search/LongKey.antt =====
-- A key of `FDB_KV_NAME_MAX` bytes in flashdb/fdb_kvdb.c: `create_kv_blob` takes it, and the search
-- does not find it.
use flashdb_rs.Prelude.{
  ℕ, zero, suc, ◌<◌, ◌≡◌, ◌≢◌, refl, ap, ◌∙◌, Bool, true, false, Bool-cases, inl, inr, some, List,
  [], ◌∷◌, length, set, arith, ◌==◌, leb, if◌then◌else◌,
}
use flashdb_rs.Types.{no_err, KvStatus}
use flashdb_rs.Flash.{Driver}
use flashdb_rs.Flash.Nor.{IsNor}
use flashdb_rs.Kvdb.{Kv, KvSecInfo, Kvdb}
use flashdb_rs.Kvdb.Cache.{starts_with}
use flashdb_rs.Kvdb.Pairs.{overlay, read_kv}
use flashdb_rs.Kvdb.Pairs.Layout.{HasKvRoom, stored_kv}
use flashdb_rs.Kvdb.Search.{find_kv_cb}
use flashdb_rs.Kvdb.Create.{create_kv_blob}
use flashdb_rs.Kvdb.Create.ReadBack.{create_kv_blob-read_kv}

-- A string has no NUL.
abbrev pub IsString : List ℕ → Type 0
IsString [] = Unit {0}
IsString (c ∷ key) = (c ≢ 0) × IsString key

-- No name with a NUL at one of the key's places starts with it.
starts_with-nul :
    (key name : List ℕ) (i : ℕ)
    → IsString key
    → i < length key
    → starts_with key (set name i 0) ≡ false
unfolding starts_with
starts_with-nul [] name i h k = absurd (omega arith)
starts_with-nul (c ∷ key) [] i h k = refl
starts_with-nul (c ∷ key) (b ∷ name) zero h k =
    let nul = h.0 in let other : (c == 0) ≡ false = ground arith in rw (starts_with, other) refl
starts_with-nul (c ∷ key) (b ∷ name) (suc i) h k = elim (Bool-cases (c == b)) [
  | inr other ↦ rw (starts_with, other) refl
  | inl same ↦ rw (starts_with, same) (starts_with-nul key name i h.1 (omega arith))
]

module _ {S : Type 0} (d : Driver S) where
  find_kv_cb-long :
      (key value : List ℕ) (kv : Kv) (found : Bool) (t : Kvdb) (s : S)
      → length key ≡ 64
      → IsString key
      → find_kv_cb d key (stored_kv kv KvStatus.write key value) found t s
        ≡ some (false, found, t, s)
  unfolding find_kv_cb
  find_kv_cb-long key value kv found t s e string =
      let full : (if leb 64 (length key) then 63 else length key) ≡ 63 = ground arith in
      let same : (length key == length key) ≡ true = ground arith in
      let other : starts_with key
            (set (overlay key kv.name) (if leb 64 (length key) then 63 else length key) 0)
          ≡ false =
        ap (λ i. starts_with key (set (overlay key kv.name) i 0)) full
        ∙ starts_with-nul key (overlay key kv.name) 63 string (omega arith) in
      rw (find_kv_cb, same, other) refl

  -- On a device that behaves like NOR flash, and where the sector has room for the pair in erased
  -- bytes, `create_kv_blob` with a key of 64 bytes succeeds, and `read_kv` at its place returns without an
  -- error; but the callback of the search for that key passes over the pair that was read.
  pub create_kv_blob-long_key :
      (view : S → ℕ → ℕ) {cap : ℕ} (nor : IsNor d view cap) (local_sector : KvSecInfo)
      → (local_kv : Kv) (sector : KvSecInfo) (key value : List ℕ) (t : Kvdb) (s : S)
      → HasKvRoom (view s) cap t sector key value
      → length key ≡ 64
      → IsString key
      → (t2 : Kvdb) × (s2 : S) × (create_kv_blob d local_sector local_kv sector key value
            (length value)
            t
            s
          ≡ some (no_err, sector, t2, s2))
        × ((kv : Kv) (found : Bool)
            → (kv2 : Kv) × (read_kv d t2 (record kv { start = sector.empty_kv }) s2
                ≡ some (no_err, kv2, s2))
              × (find_kv_cb d key kv2 found t2 s2 ≡ some (false, found, t2, s2)))
  create_kv_blob-long_key view nor local_sector local_kv sector key value t s room e string =
      let (t2, s2, run, read, bytes, other) =
        create_kv_blob-read_kv d view nor local_sector local_kv sector key value t s room in
      (
        t2,
        s2,
        run,
        λ kv found.
            let kv1 : Kv = record kv { start = sector.empty_kv } in
            (
              stored_kv kv1 KvStatus.write key value,
              read kv,
              find_kv_cb-long key value kv1 found t2 s2 e string,
            ),
      )
