-- ===== src/Kvdb/Delete/ReadBack.antt =====
-- The pair that `move_kv` of flashdb/fdb_kvdb.c leaves at its new place, as `read_kv` reads it.
use flashdb_rs.Prelude.{
  ℕ, suc, ◌+◌, ◌-◌, ◌≤◌, ◌<◌, ◌≡◌, ◌≢◌, refl, sym, ap, ◌∙◌, subst, ◌⊎◌, inl, inr, some, true, false,
  List, [], ◌∷◌, bit_and, arith, length,
}
use flashdb_rs.Types.{FdbErr, no_err, KvStatus, byte_erased}
use flashdb_rs.Flash.{Driver}
use flashdb_rs.Flash.Nor.{slice, patch, IsNor}
use flashdb_rs.Flash.Effects.{patch_other}
use flashdb_rs.Status.{write_status}
use flashdb_rs.Status.Effects.{status_byte, later_status}
use flashdb_rs.Kvdb.{Kv, KvSecInfo, Kvdb}
use flashdb_rs.Kvdb.Cache.{update_sector_empty_addr_cache}
use flashdb_rs.Kvdb.Alloc.{update_kv_sec_status}
use flashdb_rs.Kvdb.Alloc.Status.{update_kv_sec_status-Updated}
use flashdb_rs.Kvdb.Pairs.{read_kv}
use flashdb_rs.Kvdb.Pairs.Layout.{IsStored, Fits, Fits-db, HasKvRoom, stored_kv}
use flashdb_rs.Kvdb.Pairs.Stored.{read_kv-IsStored}
use flashdb_rs.Kvdb.Pairs.Kept.{IsStored-kept, IsStored-remarked}
use flashdb_rs.Kvdb.Delete.{copy_kv, move_data}
use flashdb_rs.Kvdb.Delete.Moved.{write_mark, copied-IsStored}

-- The pair to move lies on the device, outside of the target sector's header and the new place, and
-- the structure says how long it is.
pub record CanMove (m : ℕ → ℕ) (cap : ℕ) (kv : Kv) (sector : KvSecInfo) (st : KvStatus)
    (key value : List ℕ) : Type 0 where
  pub stored : IsStored m kv.start st key value
  pub len : kv.len ≡ 24 + length key + length value
  pub inside : kv.start + 24 + length key + length value ≤ cap
  pub apart :
      (sector.empty_kv + 24 + length key + length value ≤ kv.start)
      ⊎ (kv.start + 24 + length key + length value ≤ sector.addr)
  pub cells : (p : ℕ) → kv.start ≤ p → p < kv.start + 24 + length key + length value → m p < 256

module _ {S : Type 0} (d : Driver S) (view : S → ℕ → ℕ) {cap : ℕ} (nor : IsNor d view cap) where
  -- What the loop of `move_kv` leaves at `b` of a device in state `s`.
  abbrev Copied : ℕ → List ℕ → List ℕ → S → FdbErr × S → Type 0
  Copied b key value s r =
      (r.0 ≡ no_err)
      × IsStored (view r.1) b KvStatus.pre_write key value
      × ((p : ℕ) → (p < b) ⊎ (b + 24 + length key + length value ≤ p) → view r.1 p ≡ view s p)

  -- On a device that behaves like NOR flash, and where the sector has room for the pair, the copy
  -- of `move_kv` succeeds. Then `read_kv` at the new place gives the same key, lengths and value
  -- with a right checksum and the status `FDB_KV_WRITE`; the old pair is still as it was, and so is
  -- every byte but those of the new pair and the target sector's status.
  pub move_data-read_kv :
      (kv : Kv) (sector : KvSecInfo) (t : Kvdb) (s : S) (st : KvStatus) (key value : List ℕ)
      → HasKvRoom (view s) cap t sector key value
      → CanMove (view s) cap kv sector st key value
      → let out = move_data d kv sector.empty_kv sector t s in
        (out.0 ≡ no_err)
        × ((to : Kv)
            → read_kv d out.1 (record to { start = sector.empty_kv }) out.2
              ≡ some (
                no_err,
                stored_kv (record to { start = sector.empty_kv }) KvStatus.write key value,
                out.2,
              ))
        × (slice (view out.2) (sector.empty_kv + 24 + length key) (length value) ≡ value)
        × IsStored (view out.2) kv.start st key value
        × ((p : ℕ)
            → p ≢ sector.addr
            → (p < sector.empty_kv) ⊎ (sector.empty_kv + 24 + length key + length value ≤ p)
            → view out.2 p ≡ view s p)
  unfolding move_data update_sector_empty_addr_cache
  move_data-read_kv kv sector t s st key value room can =
      let fits = room.fits in
      let a = kv.start in
      let b = sector.empty_kv in
      let inside = fits.inside in
      let small = fits.small in
      let behind = room.behind in
      let source = can.inside in
      let (ok, db, kept) =
        update_kv_sec_status-Updated d view nor sector t s fits.mode (omega arith) room.marked
          kv.len sector.store refl in
      let r = update_kv_sec_status d sector kv.len false t s in
      let t1 = r.2 in
      let s1 = r.3 in
      let fits1 : Fits cap t1 b key value = Fits-db t1 db fits in
      let stored1 : IsStored (view s1) a st key value = IsStored-kept can.stored (view s1) (λ p q h.
        kept p
          (λ e. elim can.apart [ inl x ↦ absurd (omega arith) | inr x ↦ absurd (omega arith) ])) in
      let apart : (b + 24 + length key + length value ≤ a)
          ⊎ (a + 24 + length key + length value ≤ b) =
        elim can.apart [ inl x ↦ inl x | inr x ↦ inr (omega arith) ] in
      let free1 : (p : ℕ)
          → b ≤ p
          → p < b + 24 + length key + length value
          → view s1 p ≡ byte_erased =
        λ p q h. kept p (λ e. absurd (omega arith)) ∙ room.free p q h in
      let cells1 : (p : ℕ) → a ≤ p → p < a + 24 + length key + length value → view s1 p < 256 =
        λ p q h.
          subst (λ x. x < 256)
            (sym (
              kept p (λ e. elim can.apart [
                | inl x ↦ absurd (omega arith)
                | inr x ↦ absurd (omega arith)
              ])))
            (can.cells p q h) in
      let size : kv.len - 4 ≡ 20 + length key + length value = let e = can.len in omega arith in
      let s2 = (write_status d t1.db.mode b 6 1 false s1).1 in
      let c = copy_kv d t1 a b (kv.len - 4) (suc (kv.len - 4)) 0 no_err s2 in
      let (copied_ok, copied_pair, copied_other) =
        subst (Copied b key value s1) (sym (ap (λ n. copy_kv d t1 a b n (suc n) 0 no_err s2) size))
          (copied-IsStored d view nor t1 s1 a b st key value fits1.mode (omega arith) stored1 source
            inside apart free1 cells1) in
      let clears =
        ap (λ x. bit_and x (status_byte 2)) copied_pair.marked
        ∙ later_status 1 2 (omega arith) (omega arith) in
      let s4 = (write_status d t1.db.mode b 6 2 true c.1).1 in
      let after : view s4 ≡ patch (view c.1) b (status_byte 2 ∷ []) =
        write_mark d view nor t1 b 1 true c.1 fits1.mode (omega arith) (omega arith) clears in
      let outside : (p : ℕ)
          → (p < b) ⊎ (b + 24 + length key + length value ≤ p)
          → view s4 p ≡ view s1 p =
        λ p q.
          ap (λ m. m p) after
          ∙ patch_other (view c.1) b (status_byte 2) p
              (λ e. elim q [ inl x ↦ absurd (omega arith) | inr x ↦ absurd (omega arith) ])
          ∙ copied_other p q in
      let new : IsStored (view s4) b KvStatus.write key value =
        subst (λ m. IsStored m b KvStatus.write key value) (sym after)
          (IsStored-remarked copied_pair KvStatus.write) in
      let out = (move_data d kv b sector t s).1 in
      (
        copied_ok,
        λ to.
            read_kv-IsStored d view nor out s4 (record to { start = sector.empty_kv })
              KvStatus.write key value (Fits-db out db fits) new,
        new.bytes,
        IsStored-kept stored1 (view s4) (λ p q h.
            outside p (elim apart [ inl x ↦ inr (omega arith) | inr x ↦ inl (omega arith) ])),
        λ p q h. outside p h ∙ kept p q,
      )
