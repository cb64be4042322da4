-- ===== src/Kvdb/Alloc/Status.antt =====
-- What `update_sec_status` of flashdb/fdb_kvdb.c leaves of a device and of the database.
use flashdb_rs.Prelude.{
  ℕ, suc, ◌+◌, ◌-◌, ◌^◌, ◌<◌, ◌≡◌, ◌≢◌, refl, sym, ap, ◌∙◌, subst, inl, inr, Bool, true, false,
  Bool-cases, bit_and, arith, ltb, ◌||◌, ◌%◌,
}
use flashdb_rs.Types.{FdbErr, no_err, custom, StoreStatus, store_index}
use flashdb_rs.Flash.{Driver}
use flashdb_rs.Flash.Nor.{IsNor}
use flashdb_rs.Status.{write_status}
use flashdb_rs.Status.Effects.{status_byte, later_status, write_status-Leaves}
use flashdb_rs.Kvdb.{KvSecInfo, Kvdb}
use flashdb_rs.Kvdb.Cache.{update_sector_status_store_cache}
use flashdb_rs.Kvdb.Alloc.{update_kv_sec_status, sec_remain_threshold}

module _ {S : Type 0} (d : Driver S) (view : S → ℕ → ℕ) {cap : ℕ} (nor : IsNor d view cap)
    (sector : KvSecInfo) (t : Kvdb) (s : S) (mode : t.db.mode ≡ custom) (inside : sector.addr < cap)
    (marked : view s sector.addr ≡ status_byte (store_index sector.store)) where
  -- A call that succeeds, keeps the database's description and changes at most the status byte.
  abbrev Updated : FdbErr × Bool × Kvdb × S → Type 0
  Updated r = (r.0 ≡ no_err) × (r.2.db ≡ t.db) × ((p : ℕ) → p ≢ sector.addr → view r.3 p ≡ view s p)

  -- The status after the one that the sector has is written.
  next_status :
      (i : ℕ)
      → suc i < 4
      → store_index sector.store < suc i
      → (full : Bool) (t2 : Kvdb) → t2.db ≡ t.db
      → let r = write_status d t.db.mode sector.addr 4 (suc i) true s in
        Updated (r.0, full, t2, r.1)
  next_status i h k full t2 e =
      let clears =
        ap (λ b. bit_and b (status_byte (suc i))) marked
        ∙ later_status (store_index sector.store) (suc i) k (omega arith) in
      let (ok, after) =
        write_status-Leaves d view nor 4 i sector.addr true s (view s) (omega arith) h refl inside
          clears in
      subst
        (λ x. let r = write_status d x sector.addr 4 (suc i) true s in Updated (r.0, full, t2, r.1))
        (sym mode) (ok, e, λ p q. ap (λ m. m p) after ∙ ground arith)

  pub update_kv_sec_status-Updated :
      (new_kv_len : ℕ) (st : StoreStatus)
      → sector.store ≡ st
      → Updated (update_kv_sec_status d sector new_kv_len false t s)
  unfolding update_kv_sec_status update_sector_status_store_cache
  update_kv_sec_status-Updated new_kv_len StoreStatus.unused e =
      let u : update_kv_sec_status d sector new_kv_len false t s ≡ (no_err, false, t, s) =
        rw (e, update_kv_sec_status) in
      subst Updated (sym u) (refl, refl, λ p q. refl)
  update_kv_sec_status-Updated new_kv_len StoreStatus.full e =
      let u : update_kv_sec_status d sector new_kv_len false t s ≡ (no_err, false, t, s) =
        rw (e, update_kv_sec_status) in
      subst Updated (sym u) (refl, refl, λ p q. refl)
  update_kv_sec_status-Updated new_kv_len StoreStatus.empty e =
      let r = write_status d t.db.mode sector.addr 4 2 true s in
      let t2 = update_sector_status_store_cache t sector.addr StoreStatus.using in
      let u : update_kv_sec_status d sector new_kv_len false t s ≡ (r.0, false, t2, r.1) =
        rw (e, update_kv_sec_status) in
      let low : store_index sector.store < 2 = ground arith in
      subst Updated (sym u) (next_status 1 (omega arith) low false t2 refl)
  update_kv_sec_status-Updated new_kv_len StoreStatus.using e =
      let left = (sector.remain + 2 ^ 64 - new_kv_len) % 2 ^ 64 in
      let r = write_status d t.db.mode sector.addr 4 3 true s in
      let t2 = update_sector_status_store_cache t sector.addr StoreStatus.full in
      let low : store_index sector.store < 3 = ground arith in
      elim (Bool-cases (ltb sector.remain sec_remain_threshold || ltb left sec_remain_threshold)) [
        | inl filled ↦
            let u : update_kv_sec_status d sector new_kv_len false t s ≡ (r.0, true, t2, r.1) =
              rw (e, update_kv_sec_status, filled) in
            subst Updated (sym u) (next_status 2 (omega arith) low true t2 refl)
        | inr room ↦
            let u : update_kv_sec_status d sector new_kv_len false t s ≡ (no_err, false, t, s) =
              rw (e, update_kv_sec_status, room) in
            subst Updated (sym u) (refl, refl, λ p q. refl)
      ]

-- The update leaves all of the database's object but the cached sectors.
pub update_kv_sec_status-keeps :
    {S : Type 0} (d : Driver S) (sector : KvSecInfo) (new_kv_len : ℕ) (t : Kvdb) (s : S)
    (st : StoreStatus)
    → sector.store ≡ st
    → let t2 = (update_kv_sec_status d sector new_kv_len false t s).2 in
      t2 ≡ record t { sector_cache_table = t2.sector_cache_table }
unfolding update_kv_sec_status update_sector_status_store_cache
update_kv_sec_status-keeps d sector new_kv_len t s StoreStatus.unused e =
    rw (e, update_kv_sec_status) refl
update_kv_sec_status-keeps d sector new_kv_len t s StoreStatus.full e =
    rw (e, update_kv_sec_status) refl
update_kv_sec_status-keeps d sector new_kv_len t s StoreStatus.empty e =
    rw (e, update_kv_sec_status) refl
update_kv_sec_status-keeps d sector new_kv_len t s StoreStatus.using e =
    let left = (sector.remain + 2 ^ 64 - new_kv_len) % 2 ^ 64 in
    elim (Bool-cases (ltb sector.remain sec_remain_threshold || ltb left sec_remain_threshold)) [
      | inl filled ↦ rw (e, update_kv_sec_status, filled) refl
      | inr room ↦ rw (e, update_kv_sec_status, room) refl
    ]
