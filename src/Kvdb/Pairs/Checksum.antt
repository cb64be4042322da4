-- ===== src/Kvdb/Pairs/Checksum.antt =====
-- The checksum that `read_kv` of flashdb/fdb_kvdb.c takes in parts of 32 bytes.
use flashdb_rs.Prelude.{
  ℕ, zero, suc, ◌+◌, ◌-◌, ◌^◌, ◌≤◌, ◌<◌, ◌≡◌, refl, sym, ap, ap₂, ◌∙◌, true, false, Bool-cases, inl,
  inr, [], ◌∷◌, ◌++◌, arith, ltb, ltb→lt, if◌then◌else◌, take,
}
use flashdb_rs.Types.{custom, u32, wg_align}
use flashdb_rs.Flash.{Driver, flash_read}
use flashdb_rs.Flash.Nor.{slice, IsNor}
use flashdb_rs.Flash.Effects.{flash_read-slice}
use flashdb_rs.Flash.Slices.{take-slice}
use flashdb_rs.Crc.{calc_crc32, crc_loop}
use flashdb_rs.Prelude.Xor.{bit_xor_twice}
use flashdb_rs.Crc.Reference.{calc_crc32-append}
use flashdb_rs.Kvdb.{Kvdb}
use flashdb_rs.Kvdb.Pairs.{crc_data}

pub slice-append : (m : ℕ → ℕ) (a n k : ℕ) → slice m a n ++ slice m (a + n) k ≡ slice m a (n + k)
slice-append m a zero k =
    let e : a + 0 ≡ a = omega arith in
    let f : zero + k ≡ k = omega arith in ap (λ x. slice m x k) e ∙ ap (λ x. slice m a x) (sym f)
slice-append m a (suc n) k =
    let e : a + suc n ≡ suc a + n = omega arith in
    let f : suc (n + k) ≡ suc n + k = omega arith in
    ap (λ x. m a ∷ (slice m (suc a) n ++ slice m x k)) e
    ∙ ap (λ l. m a ∷ l) (slice-append m (suc a) n k)
    ∙ ap (λ x. slice m a x) f

calc_crc32-nil : (crc : ℕ) → calc_crc32 crc [] ≡ crc
unfolding calc_crc32 crc_loop
calc_crc32-nil crc = bit_xor_twice crc 0xffff_ffff

module _ {S : Type 0} (d : Driver S) (view : S → ℕ → ℕ) {cap : ℕ} (nor : IsNor d view cap)
    (t : Kvdb) (s : S) (start total : ℕ) (mode : t.db.mode ≡ custom)
    (fits : start + 24 + total ≤ cap) (small : cap < 2 ^ 32) where
  abbrev from : ℕ → ℕ
  from len = start + 24 + len

  -- The bytes of one round.
  round-slice :
      (len size : ℕ)
      → len + size ≤ total
      → take size (flash_read d t.db.mode s (u32 (from len)) (wg_align size)).1
        ≡ slice (view s) (from len) size
  round-slice len size h =
      let at : u32 (from len) ≡ from len = omega arith in
      let n : wg_align size ≡ size = omega arith in
      ap₂ (λ a k. take size (flash_read d t.db.mode s a k).1) at n
      ∙ ap (λ mode. take size (flash_read d mode s (from len) size).1) mode
      ∙ ap (λ r. take size r.1)
          (flash_read-slice d view nor (from len) size s (view s) refl (omega arith))
      ∙ take-slice (view s) (from len) size size (omega arith)

  -- The size of a round.
  abbrev part : ℕ → ℕ
  part len = if ltb (len + 32) total then 32 else total - len

  part-within : (len : ℕ) → len < total → (0 < part len) × (len + part len ≤ total)
  part-within len h = (ground arith, ground arith)

  crc_data-step :
      (fuel len crc : ℕ)
      → ltb len total ≡ true
      → crc_data d t s start total (suc fuel) len crc
        ≡ crc_data d t s start total fuel (len + part len) (
            calc_crc32 crc
              (take (part len) (flash_read d t.db.mode s (u32 (from len)) (wg_align (part len))).1))
  unfolding crc_data
  crc_data-step fuel len crc h = rw (h, crc_data)

  crc_data-stop :
      (fuel len crc : ℕ)
      → ltb len total ≡ false
      → crc_data d t s start total (suc fuel) len crc ≡ crc
  unfolding crc_data
  crc_data-stop fuel len crc h = rw (h, crc_data)

  crc_data-from :
      (fuel len crc : ℕ)
      → len ≤ total
      → total - len < fuel
      → crc_data d t s start total fuel len crc
        ≡ calc_crc32 crc (slice (view s) (from len) (total - len))
  crc_data-from zero len crc h k = absurd (omega arith)
  crc_data-from (suc fuel) len crc h k = elim (Bool-cases (ltb len total)) [
    | inr done ↦
        let none_left : 0 ≡ total - len = ground arith in
        crc_data-stop fuel len crc done
        ∙ sym (calc_crc32-nil crc)
        ∙ ap (λ n. calc_crc32 crc (slice (view s) (from len) n)) none_left
    | inl more ↦
        let size = part len in
        let (pos, within) = part-within len (ltb→lt len total more) in
        let rest = total - (len + size) in
        let all : size + rest ≡ total - len = omega arith in
        let next : from len + size ≡ from (len + size) = omega arith in
        crc_data-step fuel len crc more
        ∙ ap (λ bs. crc_data d t s start total fuel (len + size) (calc_crc32 crc bs))
            (round-slice len size within)
        ∙ crc_data-from fuel (len + size) (calc_crc32 crc (slice (view s) (from len) size)) within
            (omega arith)
        ∙ calc_crc32-append crc (slice (view s) (from len) size)
            (slice (view s) (from (len + size)) rest)
        ∙ ap (λ a. calc_crc32 crc (slice (view s) (from len) size ++ slice (view s) a rest))
            (sym next)
        ∙ ap (calc_crc32 crc) (slice-append (view s) (from len) size rest)
        ∙ ap (λ n. calc_crc32 crc (slice (view s) (from len) n)) all
  ]

  -- On a device that reads back its contents, the loop of `read_kv` ends with the checksum of all
  -- the bytes that follow the pair's header, as if they were read at once: it continues the
  -- checksum that it starts from.
  pub crc_data-calc_crc32 :
      (crc : ℕ)
      → crc_data d t s start total (suc total) 0 crc
        ≡ calc_crc32 crc (slice (view s) (start + 24) total)
  crc_data-calc_crc32 crc =
      let e : from 0 ≡ start + 24 = omega arith in
      let n : total - 0 ≡ total = omega arith in
      crc_data-from (suc total) 0 crc (omega arith) (omega arith)
      ∙ ap₂ (λ a n. calc_crc32 crc (slice (view s) a n)) e n
