-- ===== src/Tests/Short.antt =====
-- A device on which no name is too long, whichever headers `read_kv` marks: a sector with one pair.
use flashdb_rs.Prelude.{
  ℕ, suc, ◌+◌, ◌≤◌, ◌<◌, ◌≡◌, ◌≢◌, refl, ap, ◌∙◌, subst, sym, ◌⊎◌, inl, inr, Bool, true, false,
  Bool-cases, Option-cases, none, some, List, [], ◌∷◌, arith, ltb, ltb→lt, ◌==◌, ◌||◌,
  if◌then◌else◌, take,
}
use flashdb_rs.Prelude.Bits.{passes, passes-at}
use flashdb_rs.Prelude.Bytes.{field, le_value}
use flashdb_rs.Types.{FdbErr, Db, KvStatus, kv_index, kv_status, write_gran, wg_align}
use flashdb_rs.Flash.{flash_read, flash_write}
use flashdb_rs.Flash.Nor.{patch, slice}
use flashdb_rs.Flash.Effects.{patch_above}
use flashdb_rs.Flash.Slices.{field-slice}
use flashdb_rs.Status.{get_status, set_status, write_status}
use flashdb_rs.Kvdb.{Kv, Kvdb, kv_status_num}
use flashdb_rs.Kvdb.Pairs.{read_kv_body, read_kv}
use flashdb_rs.Kvdb.Pairs.Lengths.{AreShort}
use flashdb_rs.Tests.Memory.{memory, blank}
use flashdb_rs.Tests.Empty.{keys}

-- The header of a sector in use, and the pair "a" with the value "vw".
abbrev image_bytes : List ℕ
image_bytes =
    0x3f ∷ 0x7f ∷ 0xff ∷ 0xff ∷ 0x46 ∷ 0x44 ∷ 0x42 ∷ 0x30 ∷ 0xff ∷ 0xff ∷ 0xff ∷ 0xff ∷ 0xff ∷ 0xff
    ∷ 0xff ∷ 0xff ∷ 0x3f ∷ 0xff ∷ 0xff ∷ 0xff ∷ 0x4b ∷ 0x56 ∷ 0x30 ∷ 0x30 ∷ 27 ∷ 0 ∷ 0 ∷ 0 ∷ 0x44
    ∷ 0x39 ∷ 0xc4 ∷ 0x4d ∷ 1 ∷ 0xff ∷ 0xff ∷ 0xff ∷ 2 ∷ 0 ∷ 0 ∷ 0 ∷ 0x61 ∷ 0x76 ∷ 0x77 ∷ []

abbrev pub image : ℕ → ℕ
image = patch blank 0 image_bytes

-- The image, of which bytes may have become the mark of a wrong header.
abbrev pub IsImage : (ℕ → ℕ) → Type 0
IsImage m = (p : ℕ) → (m p ≡ image p) ⊎ (m p ≡ 7)

abbrev word : (ℕ → ℕ) → ℕ → ℕ
word m p = le_value (slice m p 4)

-- The least that a byte can be.
abbrev floor : ℕ → ℕ
floor p = if ltb (image p) 7 then image p else 7

abbrev test : ℕ → Bool
test p = (p == 24) || (p == 36) || ltb 512 (word floor p)

test_table : passes test 43 ≡ true
unfolding passes
test_table = refl

module _ (m : ℕ → ℕ) (is : IsImage m) where
  floor_le : (p : ℕ) → floor p ≤ m p
  floor_le p = elim (is p) [ inl e ↦ ground arith | inr e ↦ ground arith ]

  floor_above : (p : ℕ) → 43 ≤ p → 7 ≤ m p
  floor_above p h =
      let blank_there : image p ≡ 0xff = patch_above blank 0 image_bytes p h in
      elim (is p) [ inl e ↦ omega arith | inr e ↦ omega arith ]

  long : (p : ℕ) → p ≢ 24 → p ≢ 36 → 512 < word m p
  long p h k = elim (Bool-cases (ltb p 43)) [
    | inr above ↦
        let p0 = floor_above p (ground arith) in
        let p1 = floor_above (suc p) (ground arith) in
        let p2 = floor_above (suc (suc p)) (ground arith) in omega arith
    | inl below ↦
        let here = passes-at test 43 p (ltb→lt p 43 below) test_table in
        let most : ltb 512 (word floor p) ≡ true = ground arith in
        let most2 = ltb→lt 512 (word floor p) most in
        let p0 = floor_le p in
        let p1 = floor_le (suc p) in
        let p2 = floor_le (suc (suc p)) in let p3 = floor_le (suc (suc (suc p))) in omega arith
  ]

  at_36 : (word m 36 < 24) ⊎ (512 < word m 36)
  at_36 =
      let p0 : (m 36 ≡ 2) ⊎ (m 36 ≡ 7) = is 36 in
      let p1 : (m 37 ≡ 0) ⊎ (m 37 ≡ 7) = is 37 in
      let p2 : (m 38 ≡ 0) ⊎ (m 38 ≡ 7) = is 38 in
      let p3 : (m 39 ≡ 0) ⊎ (m 39 ≡ 7) = is 39 in ground arith

  -- Only the pair at 16 has a length that may be.
  at_16 : (a : ℕ) → 24 ≤ word m (a + 8) → word m (a + 8) ≤ 512 → a ≡ 16
  at_16 a low high = elim (Bool-cases (a == 16)) [
    | inl e ↦ ground arith
    | inr other ↦ elim (Bool-cases (a == 28)) [
      | inr more ↦ let big = long (a + 8) (ground arith) (ground arith) in absurd (omega arith)
      | inl e ↦
          let here : a + 8 ≡ 36 = ground arith in
          let low36 : 24 ≤ word m 36 = subst (λ p. 24 ≤ word m p) here low in
          let high36 : word m 36 ≤ 512 = subst (λ p. word m p ≤ 512) here high in
          let both = at_36 in absurd (ground arith)
    ]
  ]

  name_short : m 32 ≤ 64
  name_short = let p : (m 32 ≡ 1) ⊎ (m 32 ≡ 7) = is 32 in ground arith

  marked-IsImage : (a : ℕ) → IsImage (patch m a (7 ∷ []))
  marked-IsImage a p = elim (Bool-cases (p == a)) [
    | inl e ↦ inr (rw (patch, e) refl)
    | inr e ↦ elim (is p) [ inl x ↦ inl (rw (patch, e) x) | inr x ↦ inr (rw (patch, e) x) ]
  ]

module _ (t : Kvdb) (same : t.db ≡ keys.db) (m : ℕ → ℕ) (is : IsImage m) where
  header : (a : ℕ) → (flash_read memory t.db.mode m a 24).1 ≡ slice m a 24
  unfolding flash_read
  header a = ap (λ (x : Db). (flash_read memory x.mode m a 24).1) same

  write-IsImage :
      (a : ℕ)
      → IsImage (write_status memory t.db.mode a kv_status_num (kv_index KvStatus.err_hdr) true m).1
  unfolding write_status set_status flash_write
  write-IsImage a =
      subst (λ (x : Db). IsImage (write_status memory x.mode a kv_status_num 5 true m).1) (sym same)
        (marked-IsImage m is (a + 0))

  read_kv_body-some :
      (hdr : List ℕ) (kv : Kv) → field 16 1 hdr ≤ 64 → ¬ (read_kv_body memory t m hdr kv ≡ none)
  unfolding read_kv_body
  read_kv_body-some hdr kv short h =
      let fits : ltb 64 (wg_align (field 16 1 hdr)) ≡ false = ground arith in ground arith

  name_len : (a : ℕ) → a ≡ 16 → field 16 1 (flash_read memory t.db.mode m a 24).1 ≤ 64
  name_len a e =
      let there : field 16 1 (flash_read memory t.db.mode m a 24).1 ≡ m 32 =
        ap (field 16 1) (header a) ∙ ap (λ x. field 16 1 (slice m x 24)) e ∙ omega arith in
      let short = name_short m is in omega arith

  abbrev bad_len : ℕ → Bool
  bad_len len = (len == 0xffff_ffff) || ltb t.db.max_size len || ltb len 24

  short :
      (kv : Kv)
      → bad_len (field 8 4 (flash_read memory t.db.mode m kv.start 24).1) ≡ false
      → field 16 1 (flash_read memory t.db.mode m kv.start 24).1 ≤ 64
  short kv good =
      let a = kv.start in
      let max : t.db.max_size ≡ 512 = ap (λ (x : Db). x.max_size) same in
      let len : field 8 4 (flash_read memory t.db.mode m a 24).1 ≡ word m (a + 8) =
        ap (field 8 4) (header a) ∙ ap le_value (field-slice m a 8 4 24 (omega arith)) in
      name_len a (at_16 m is a (ground arith) (ground arith))

  read_kv-some : (kv : Kv) → ¬ (read_kv memory t kv m ≡ none)
  unfolding read_kv
  read_kv-some kv out =
      let hdr = (flash_read memory t.db.mode m kv.start 24).1 in
      let status = kv_status (get_status write_gran (take 1 hdr) kv_status_num) in
      elim (Bool-cases (bad_len (field 8 4 hdr))) [
        | inl bad ↦ absurd (ground arith)
        | inr good ↦
            let kv1 : Kv = record kv { status = status; len = field 8 4 hdr } in
            let some_body = read_kv_body-some hdr kv1 (short kv good) in
            elim (Option-cases (read_kv_body memory t m hdr kv1)) [
              | inl no_body ↦ some_body no_body
              | inr (r, body) ↦ absurd (ground arith)
            ]
      ]

  read_kv-IsImage :
      (kv : Kv) (e : FdbErr) (kv2 : Kv) (m2 : ℕ → ℕ)
      → read_kv memory t kv m ≡ some (e, kv2, m2)
      → IsImage m2
  unfolding read_kv
  read_kv-IsImage kv e kv2 m2 run =
      let hdr = (flash_read memory t.db.mode m kv.start 24).1 in
      let status = kv_status (get_status write_gran (take 1 hdr) kv_status_num) in
      let w =
        (write_status memory t.db.mode kv.start kv_status_num (kv_index KvStatus.err_hdr) true
          m).1 in
      elim (Bool-cases (bad_len (field 8 4 hdr))) [
        | inl bad ↦ elim (Bool-cases (kv_index status == kv_index KvStatus.err_hdr)) [
          | inl known ↦ let e2 : m2 ≡ m = ground arith in subst IsImage (sym e2) is
          | inr fresh ↦
              let e2 : m2 ≡ w = ground arith in subst IsImage (sym e2) (write-IsImage kv.start)
        ]
        | inr good ↦
            let kv1 : Kv = record kv { status = status; len = field 8 4 hdr } in
            elim (Option-cases (read_kv_body memory t m hdr kv1)) [
              | inl no_body ↦ absurd (ground arith)
              | inr ((e1, kv3), body) ↦ let e2 : m2 ≡ m = ground arith in subst IsImage (sym e2) is
            ]
      ]

pub IsImage-AreShort : AreShort memory keys.db IsImage
IsImage-AreShort t kv m same is = elim (Option-cases (read_kv memory t kv m)) [
  | inl out ↦ absurd (read_kv-some t same m is kv out)
  | inr ((e, kv2, m2), run) ↦ (e, kv2, m2, run, read_kv-IsImage t same m is kv e kv2 m2 run)
]

pub image-IsImage : IsImage image
image-IsImage p = inl refl
