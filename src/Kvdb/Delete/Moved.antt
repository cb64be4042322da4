-- ===== src/Kvdb/Delete/Moved.antt =====
-- A pair that `move_kv` of flashdb/fdb_kvdb.c has copied, as `read_kv` reads it.
use flashdb_rs.Prelude.{
  ℕ, zero, suc, ◌+◌, ◌-◌, ◌^◌, ◌≤◌, ◌<◌, ◌≡◌, refl, sym, ap, ap₂, ◌∙◌, subst, ◌⊎◌, inl, inr, Bool,
  false, List, [], ◌∷◌, bit_and, arith, length,
}
use flashdb_rs.Types.{FdbErr, no_err, custom, KvStatus, kv_index, byte_erased}
use flashdb_rs.Flash.{Driver}
use flashdb_rs.Flash.Nor.{slice, patch, IsNor}
use flashdb_rs.Flash.Effects.{patch_above, patch_below, patch_other}
use flashdb_rs.Status.{write_status}
use flashdb_rs.Status.Effects.{status_byte, write_status-Leaves}
use flashdb_rs.Kvdb.{Kvdb}
use flashdb_rs.Kvdb.Pairs.Layout.{IsStored}
use flashdb_rs.Kvdb.Pairs.Kept.{IsStored-kept}
use flashdb_rs.Kvdb.Delete.{copy_kv}
use flashdb_rs.Kvdb.Delete.Copied.{IsCopied, CanCopy, copy_kv-IsCopied}

slice_shift :
    (k m : ℕ → ℕ) (x y n : ℕ)
    → ((i : ℕ) → i < n → k (x + i) ≡ m (y + i))
    → slice k x n ≡ slice m y n
slice_shift k m x y zero h = refl
slice_shift k m x y (suc n) h =
    let e : x + 0 ≡ x = omega arith in
    let f : y + 0 ≡ y = omega arith in
    ap₂ ◌∷◌ (ap k (sym e) ∙ h 0 (omega arith) ∙ ap m f) (
      slice_shift k m (suc x) (suc y) n (λ i q.
        let e : suc x + i ≡ x + suc i = omega arith in
        let f : y + suc i ≡ suc y + i = omega arith in ap k e ∙ h (suc i) (omega arith) ∙ ap m f))

-- What was copied is a pair again, with the status that lies at the target.
IsCopied-IsStored :
    {a b : ℕ} {m k : ℕ → ℕ} {st : KvStatus} {key value : List ℕ} (st2 : KvStatus)
    → IsStored m a st key value
    → IsCopied a b m k (20 + length key + length value)
    → m b ≡ status_byte (kv_index st2)
    → IsStored k b st2 key value
IsCopied-IsStored {a} {b} {m} {k} {key} {value} st2 stored copied marked =
    let shifted : (o n : ℕ)
        → 4 ≤ o
        → o + n ≤ 24 + length key + length value
        → slice k (b + o) n ≡ slice m (a + o) n =
      λ o n h q. slice_shift k m (b + o) (a + o) n (λ i r.
        let e : b + o + i ≡ b + 4 + (o - 4 + i) = omega arith in
        let f : a + 4 + (o - 4 + i) ≡ a + o + i = omega arith in
        ap k e ∙ copied.copied (o - 4 + i) (omega arith) ∙ ap m f) in
    let g : b + 24 + length key ≡ b + (24 + length key) = omega arith in
    let h : a + (24 + length key) ≡ a + 24 + length key = omega arith in
    record {
      marked = copied.other b (inl (omega arith)) ∙ marked;
      hdr = shifted 4 20 (omega arith) (omega arith) ∙ stored.hdr;
      name = shifted 24 (length key) (omega arith) (omega arith) ∙ stored.name;
      bytes =
          ap (λ x. slice k x (length value)) g
          ∙ shifted (24 + length key) (length value) (omega arith) (omega arith)
          ∙ ap (λ x. slice m x (length value)) h
          ∙ stored.bytes;
    }

module _ {S : Type 0} (d : Driver S) (view : S → ℕ → ℕ) {cap : ℕ} (nor : IsNor d view cap) where
  -- A status byte is written, where the device allows it.
  pub write_mark :
      (t : Kvdb) (b i : ℕ) (sync : Bool) (s : S)
      → t.db.mode ≡ custom
      → b < cap
      → suc i < 6
      → bit_and (view s b) (status_byte (suc i)) ≡ status_byte (suc i)
      → view (write_status d t.db.mode b 6 (suc i) sync s).1
        ≡ patch (view s) b (status_byte (suc i) ∷ [])
  write_mark t b i sync s mode inside h clears =
      ap (λ x. view (write_status d x b 6 (suc i) sync s).1) mode
      ∙ (write_status-Leaves d view nor 6 i b sync s (view s) (omega arith) h refl inside clears).1

  -- The copy itself, between the two writes of the status.
  module _ (t : Kvdb) (s : S) (a b : ℕ) (st : KvStatus) (key value : List ℕ)
      (mode : t.db.mode ≡ custom) (small : cap < 2 ^ 32) (stored : IsStored (view s) a st key value)
      (source : a + 24 + length key + length value ≤ cap)
      (target : b + 24 + length key + length value ≤ cap)
      (apart : (b + 24 + length key + length value ≤ a) ⊎ (a + 24 + length key + length value ≤ b))
      (free : (p : ℕ) → b ≤ p → p < b + 24 + length key + length value → view s p ≡ byte_erased)
      (cells : (p : ℕ) → a ≤ p → p < a + 24 + length key + length value → view s p < 256) where
    abbrev pub total : ℕ
    total = 20 + length key + length value

    abbrev pub begun : S
    begun = (write_status d t.db.mode b 6 1 false s).1

    abbrev mark : List ℕ
    mark = status_byte 1 ∷ []

    begun-patch : view begun ≡ patch (view s) b mark
    begun-patch =
        write_mark t b 0 false s mode (omega arith) (omega arith)
          (ap (λ x. bit_and x (status_byte 1)) (free b (omega arith) (omega arith)))

    begun-source : IsStored (patch (view s) b mark) a st key value
    begun-source = IsStored-kept stored (patch (view s) b mark) (λ p q r.
        patch_other (view s) b (status_byte 1) p
          (λ e. elim apart [ inl x ↦ absurd (omega arith) | inr x ↦ absurd (omega arith) ]))

    can_copy : CanCopy a b (patch (view s) b mark) cap total
    can_copy = record {
      source = omega arith;
      target = omega arith;
      small = small;
      apart = elim apart [ inl x ↦ inl (omega arith) | inr x ↦ inr (omega arith) ];
      free =
          λ p q r. patch_above (view s) b mark p (omega arith) ∙ free p (omega arith) (omega arith);
      cells = λ p q r.
          subst (λ x. x < 256)
            (sym (
              patch_other (view s) b (status_byte 1) p
                (λ e. elim apart [ inl x ↦ absurd (omega arith) | inr x ↦ absurd (omega arith) ])))
            (cells p (omega arith) (omega arith));
    }

    abbrev pub copied : FdbErr × S
    copied = copy_kv d t a b total (suc total) 0 no_err begun

    pub copied-IsStored :
        (copied.0 ≡ no_err)
        × IsStored (view copied.1) b KvStatus.pre_write key value
        × ((p : ℕ)
            → (p < b) ⊎ (b + 24 + length key + length value ≤ p)
            → view copied.1 p ≡ view s p)
    copied-IsStored =
        let m = patch (view s) b mark in
        let start : IsCopied a b m (view begun) 0 = record {
          copied = λ i h. absurd (omega arith);
          other = λ p q. ap (λ k. k p) begun-patch;
        } in
        let (ok, done) =
          copy_kv-IsCopied d view nor t mode a b m total can_copy (suc total) 0 begun (omega arith)
            (omega arith) start in
        (
          ok,
          IsCopied-IsStored KvStatus.pre_write begun-source done (ground arith),
          λ p q. elim q [
            | inl lo ↦ done.other p (inl (omega arith)) ∙ patch_below (view s) b mark p lo
            | inr hi ↦
                done.other p (inr (omega arith)) ∙ patch_above (view s) b mark p (omega arith)
          ],
        )
