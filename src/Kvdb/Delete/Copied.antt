-- ===== src/Kvdb/Delete/Copied.antt =====
-- The loop of `move_kv` of flashdb/fdb_kvdb.c that copies a pair, 32 bytes at a time.
use flashdb_rs.Prelude.{
  ℕ, zero, suc, ◌+◌, ◌-◌, ◌^◌, ◌≤◌, ◌<◌, ◌≡◌, refl, sym, ap, ap₂, ◌∙◌, subst, ◌⊎◌, inl, inr, true,
  false, Bool-cases, List, arith, length, take, ltb, ltb→lt, if◌then◌else◌,
}
use flashdb_rs.Prelude.Bytes.{AreBytes}
use flashdb_rs.Types.{FdbErr, no_err, custom, byte_erased, u32, wg_align}
use flashdb_rs.Flash.{Driver, flash_read, flash_write}
use flashdb_rs.Flash.Nor.{slice, patch, Programs, IsNor}
use flashdb_rs.Flash.Effects.{
  flash_write-Leaves, flash_read-slice, patch_below, patch_above, slice_congr, Programs-erased,
}
use flashdb_rs.Flash.Slices.{take-slice}
use flashdb_rs.Kvdb.{Kvdb}
use flashdb_rs.Kvdb.Delete.{copy_kv}

length-slice : (m : ℕ → ℕ) (a n : ℕ) → length (slice m a n) ≡ n
length-slice m a zero = refl
length-slice m a (suc n) = ap suc (length-slice m (suc a) n)

slice-AreBytes :
    (m : ℕ → ℕ) (a n : ℕ) → ((p : ℕ) → a ≤ p → p < a + n → m p < 256) → AreBytes (slice m a n)
slice-AreBytes m a zero h = tt
slice-AreBytes m a (suc n) h = (
  h a (omega arith) (omega arith),
  slice-AreBytes m (suc a) n (λ p q r. h p (omega arith) (omega arith)),
)

patch-slice :
    (k : ℕ → ℕ) (x : ℕ) (m : ℕ → ℕ) (y n i : ℕ)
    → i < n
    → patch k x (slice m y n) (x + i) ≡ m (y + i)
patch-slice k x m y zero i h = absurd (omega arith)
patch-slice k x m y (suc n) zero h =
    let e : x + 0 ≡ x = omega arith in let f : y + 0 ≡ y = omega arith in rw (e, f) (ground arith)
patch-slice k x m y (suc n) (suc i) h =
    let e : x + suc i ≡ suc x + i = omega arith in
    let f : suc y + i ≡ y + suc i = omega arith in
    ap (patch k x (slice m y (suc n))) e
    ∙ ground (arith, patch-slice k (suc x) m (suc y) n i (omega arith))
    ∙ ap m f

-- The first `len` bytes behind the status were copied from `a` to `b`; no other has changed.
module _ (a b : ℕ) where
  pub record IsCopied (m k : ℕ → ℕ) (len : ℕ) : Type 0 where
    pub copied : (i : ℕ) → i < len → k (b + 4 + i) ≡ m (a + 4 + i)
    pub other : (p : ℕ) → (p < b + 4) ⊎ (b + 4 + len ≤ p) → k p ≡ m p

  -- `total` bytes may be copied: the regions do not meet, and the target is erased.
  pub record CanCopy (m : ℕ → ℕ) (size total : ℕ) : Type 0 where
    pub source : a + 4 + total ≤ size
    pub target : b + 4 + total ≤ size
    pub small : size < 2 ^ 32
    pub apart : (b + 4 + total ≤ a + 4) ⊎ (a + 4 + total ≤ b + 4)
    pub free : (p : ℕ) → b + 4 ≤ p → p < b + 4 + total → m p ≡ byte_erased
    pub cells : (p : ℕ) → a + 4 ≤ p → p < a + 4 + total → m p < 256

  -- One round.
  IsCopied-next :
      (m k : ℕ → ℕ) (size total len n : ℕ)
      → CanCopy m size total
      → IsCopied m k len
      → len + n ≤ total
      → IsCopied m (patch k (b + 4 + len) (slice m (a + 4 + len) n)) (len + n)
  IsCopied-next m k size total len n can done h = record {
    copied = λ i q. elim (Bool-cases (ltb i len)) [
      | inl old ↦
          patch_below k (b + 4 + len) (slice m (a + 4 + len) n) (b + 4 + i) (ground arith)
          ∙ done.copied i (ltb→lt i len old)
      | inr new ↦
          let j = i - len in
          let e : b + 4 + i ≡ b + 4 + len + j = ground arith in
          let f : a + 4 + len + j ≡ a + 4 + i = ground arith in
          ap (patch k (b + 4 + len) (slice m (a + 4 + len) n)) e
          ∙ patch-slice k (b + 4 + len) m (a + 4 + len) n j (ground arith)
          ∙ ap m f
    ];
    other = λ p q. elim q [
      | inl lo ↦
          patch_below k (b + 4 + len) (slice m (a + 4 + len) n) p (omega arith)
          ∙ done.other p (inl lo)
      | inr hi ↦
          patch_above k (b + 4 + len) (slice m (a + 4 + len) n) p
            (omega (arith, length-slice m (a + 4 + len) n))
          ∙ done.other p (inr (omega arith))
    ];
  }

  -- The source is still there.
  source-slice :
      (m k : ℕ → ℕ) (size total len n : ℕ)
      → CanCopy m size total
      → IsCopied m k len
      → len + n ≤ total
      → slice k (a + 4 + len) n ≡ slice m (a + 4 + len) n
  source-slice m k size total len n can done h = slice_congr k m (a + 4 + len) n (λ p q r.
      done.other p (elim can.apart [ inl x ↦ inr (omega arith) | inr x ↦ inl (omega arith) ]))

  next-Programs :
      (m k : ℕ → ℕ) (size total len n : ℕ)
      → CanCopy m size total
      → IsCopied m k len
      → len + n ≤ total
      → Programs k (b + 4 + len) (slice m (a + 4 + len) n)
  next-Programs m k size total len n can done h =
      Programs-erased k (b + 4 + len) (slice m (a + 4 + len) n)
        (λ p q r.
          done.other p (inr q)
          ∙ can.free p (omega arith) (omega (arith, length-slice m (a + 4 + len) n)))
        (slice-AreBytes m (a + 4 + len) n (λ p q r. can.cells p (omega arith) (omega arith)))

module _ {S : Type 0} (d : Driver S) (view : S → ℕ → ℕ) {cap : ℕ} (nor : IsNor d view cap)
    (t : Kvdb) (mode : t.db.mode ≡ custom) (a b : ℕ) (m : ℕ → ℕ) (total : ℕ)
    (can : CanCopy a b m cap total) where
  abbrev part : ℕ → ℕ
  part len = if ltb (len + 32) total then 32 else total - len

  part-within : (len : ℕ) → len < total → (0 < part len) × (len + part len ≤ total)
  part-within len h = (ground arith, ground arith)

  -- The write of one round, with its mode and its bytes.
  abbrev put : ℕ → S → FdbErr × S
  put len = flash_write d custom (b + 4 + len) (slice m (a + 4 + len) (part len)) true

  copy_kv-step :
      (fuel len : ℕ) (result : FdbErr) (s : S)
      → IsCopied a b m (view s) len
      → ltb len total ≡ true
      → copy_kv d t a b total (suc fuel) len result s
        ≡ copy_kv d t a b total fuel (len + part len) (put len s).0 (put len s).1
  unfolding copy_kv
  copy_kv-step fuel len result s done more =
      let x = can.source in
      let y = can.target in
      let z = can.small in
      let n = part len in
      let (pos, within) = part-within len (ltb→lt len total more) in
      let from : u32 (a + 4 + len) ≡ a + 4 + len = omega arith in
      let to : u32 (b + 4 + len) ≡ b + 4 + len = omega arith in
      let size : wg_align n ≡ n = omega arith in
      let buf : take n (flash_read d t.db.mode s (u32 (a + 4 + len)) (wg_align n)).1
          ≡ slice m (a + 4 + len) n =
        ap₂ (λ p q. take n (flash_read d t.db.mode s p q).1) from size
        ∙ ap (λ q. take n (flash_read d q s (a + 4 + len) n).1) mode
        ∙ ap (λ (r : FdbErr × List ℕ). take n r.1)
            (flash_read-slice d view nor (a + 4 + len) n s (view s) refl (omega arith))
        ∙ take-slice (view s) (a + 4 + len) n n (omega arith)
        ∙ source-slice a b m (view s) cap total len n can done within in
      let write : flash_write d t.db.mode (u32 (b + 4 + len))
            (take n (flash_read d t.db.mode s (u32 (a + 4 + len)) (wg_align n)).1) true s
          ≡ put len s =
        ap
          (λ q.
            flash_write d q (u32 (b + 4 + len))
              (take n (flash_read d t.db.mode s (u32 (a + 4 + len)) (wg_align n)).1) true s)
          mode
        ∙ ap₂ (λ p q. flash_write d custom p q true s) to buf in
      rw (more, copy_kv)
        (ap (λ (r : FdbErr × S). copy_kv d t a b total fuel (len + part len) r.0 r.1) write)

  copy_kv-stop :
      (fuel len : ℕ) (result : FdbErr) (s : S)
      → ltb len total ≡ false
      → copy_kv d t a b total (suc fuel) len result s ≡ (result, s)
  unfolding copy_kv
  copy_kv-stop fuel len result s h = rw (h, copy_kv)

  pub copy_kv-IsCopied :
      (fuel len : ℕ) (s : S)
      → len ≤ total
      → total - len < fuel
      → IsCopied a b m (view s) len
      → let r = copy_kv d t a b total fuel len no_err s in
        (r.0 ≡ no_err) × IsCopied a b m (view r.1) total
  copy_kv-IsCopied zero len s h k done = absurd (omega arith)
  copy_kv-IsCopied (suc fuel) len s h k done = elim (Bool-cases (ltb len total)) [
    | inr end ↦
        let e = copy_kv-stop fuel len no_err s end in
        let same : len ≡ total = ground arith in
        subst (λ (r : FdbErr × S). (r.0 ≡ no_err) × IsCopied a b m (view r.1) total) (sym e)
          (refl, subst (IsCopied a b m (view s)) same done)
    | inl more ↦
        let y = can.target in
        let n = part len in
        let (pos, within) = part-within len (ltb→lt len total more) in
        let (ok, after) =
          flash_write-Leaves d view nor (b + 4 + len) (slice m (a + 4 + len) n) true s (view s) refl
            (omega (arith, length-slice m (a + 4 + len) n))
            (next-Programs a b m (view s) cap total len n can done within) in
        let s2 = (put len s).1 in
        let next : IsCopied a b m (view s2) (len + n) =
          subst (λ k. IsCopied a b m k (len + n)) (sym after)
            (IsCopied-next a b m (view s) cap total len n can done within) in
        let e =
          copy_kv-step fuel len no_err s done more
          ∙ ap (λ e. copy_kv d t a b total fuel (len + n) e s2) ok in
        subst (λ (r : FdbErr × S). (r.0 ≡ no_err) × IsCopied a b m (view r.1) total) (sym e)
          (copy_kv-IsCopied fuel (len + n) s2 within (omega arith) next)
  ]
