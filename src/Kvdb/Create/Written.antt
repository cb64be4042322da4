-- ===== src/Kvdb/Create/Written.antt =====
-- What `write_kv_hdr`, `align_write` and the writes of `create_kv_blob` of flashdb/fdb_kvdb.c leave on
-- a device.
use flashdb_rs.Prelude.{
  ℕ, ◌+◌, ◌-◌, ◌≤◌, ◌<◌, ◌≡◌, refl, ap, ap₂, ◌∙◌, ◌⊎◌, inl, inr, List, [], ◌∷◌, ◌++◌, bit_and,
  arith, length, take,
}
use flashdb_rs.Prelude.Bytes.{AreBytes, le_bytes, le_bytes-AreBytes, append-AreBytes}
use flashdb_rs.Types.{KvStatus, byte_erased, wg_align}
use flashdb_rs.Flash.Nor.{patch, Programs}
use flashdb_rs.Flash.Effects.{patch_below, patch_above, slice_congr, slice-patch, Programs-erased}
use flashdb_rs.Status.Effects.{status_byte, later_status}
use flashdb_rs.Crc.{calc_crc32}
use flashdb_rs.Crc.Reference.{calc_crc32-append}
use flashdb_rs.Kvdb.Pairs.Layout.{IsStored, pair_crc, pair_hdr}
use flashdb_rs.Kvdb.Create.{KvHdr, crc_padding, kv_crc32}

pub take_all : (bs : List ℕ) → take (length bs) bs ≡ bs
take_all [] = refl
take_all (b ∷ bs) = ap (λ l. b ∷ l) (take_all bs)

-- The header that `create_kv_blob` writes.
abbrev pub new_hdr : List ℕ → List ℕ → KvHdr
new_hdr key value = record {
  len = 24 + length key + length value;
  crc32 = pair_crc key value;
  name_len = length key;
  value_len = length value;
}

-- Without padding the checksum is that of the header's lengths, the key and the value.
pub kv_crc32-pair_crc :
    (key value : List ℕ) → kv_crc32 key value (length key) (length value) ≡ pair_crc key value
unfolding kv_crc32 crc_padding
kv_crc32-pair_crc key value =
    let n : wg_align (length key) - length key ≡ 0 = omega arith in
    let v : wg_align (length value) - length value ≡ 0 = omega arith in
    let nb = length key ∷ 0xff ∷ 0xff ∷ 0xff ∷ [] in
    let vb = le_bytes 4 (length value) in
    let head = calc_crc32 (calc_crc32 0 nb) vb in
    ap₂
      (λ x y. crc_padding x (
        calc_crc32 (crc_padding y (calc_crc32 head (take (length key) key)))
          (take (length value) value)))
      v n
    ∙ ap₂ (λ x y. calc_crc32 (calc_crc32 head x) y) (take_all key) (take_all value)
    ∙ calc_crc32-append head key value
    ∙ calc_crc32-append (calc_crc32 0 nb) vb (key ++ value)
    ∙ calc_crc32-append 0 nb (vb ++ (key ++ value))

-- The contents after each of the five writes.
module _ (m : ℕ → ℕ) (a : ℕ) (key value : List ℕ) where
  abbrev pub opened : ℕ → ℕ
  opened = patch m a (status_byte 1 ∷ [])

  abbrev pub headed : ℕ → ℕ
  headed = patch opened (a + 4) (pair_hdr key value)

  abbrev pub named : ℕ → ℕ
  named = patch headed (a + 24) key

  abbrev pub valued : ℕ → ℕ
  valued = patch named (a + 24 + length key) value

  abbrev pub written : ℕ → ℕ
  written = patch valued a (status_byte 2 ∷ [])

  written-behind : (p : ℕ) → a < p → written p ≡ valued p
  written-behind p h = patch_above valued a (status_byte 2 ∷ []) p (omega arith)

  pub written-IsStored : IsStored written a KvStatus.write key value
  written-IsStored = record {
    marked = ground arith;
    hdr =
        slice_congr written headed (a + 4) 20 (λ p q r.
          written-behind p (omega arith)
          ∙ patch_below named (a + 24 + length key) value p (omega arith)
          ∙ patch_below headed (a + 24) key p (omega arith))
        ∙ slice-patch opened (a + 4) (pair_hdr key value);
    name =
        slice_congr written named (a + 24) (length key) (λ p q r.
          written-behind p (omega arith)
          ∙ patch_below named (a + 24 + length key) value p (omega arith))
        ∙ slice-patch headed (a + 24) key;
    bytes =
        slice_congr written valued (a + 24 + length key) (length value)
          (λ p q r. written-behind p (omega arith))
        ∙ slice-patch named (a + 24 + length key) value;
  }

  pub written-outside :
      (p : ℕ) → (p < a) ⊎ (a + 24 + length key + length value ≤ p) → written p ≡ m p
  written-outside p h = elim h [
    | inl lo ↦
        patch_below valued a (status_byte 2 ∷ []) p lo
        ∙ patch_below named (a + 24 + length key) value p (omega arith)
        ∙ patch_below headed (a + 24) key p (omega arith)
        ∙ patch_below opened (a + 4) (pair_hdr key value) p (omega arith)
        ∙ patch_below m a (status_byte 1 ∷ []) p lo
    | inr hi ↦
        written-behind p (omega arith)
        ∙ patch_above named (a + 24 + length key) value p hi
        ∙ patch_above headed (a + 24) key p (omega arith)
        ∙ patch_above opened (a + 4) (pair_hdr key value) p (omega arith)
        ∙ patch_above m a (status_byte 1 ∷ []) p (omega arith)
  ]

  -- The writes only turn ones into zeros, where the pair goes to erased bytes.
  module _ (free : (p : ℕ) → a ≤ p → p < a + 24 + length key + length value → m p ≡ byte_erased)
      (key_bytes : AreBytes key) (value_bytes : AreBytes value) (short : length key ≤ 64) where
    pub opened-Programs : bit_and (m a) (status_byte 1) ≡ status_byte 1
    opened-Programs = rw (free a (omega arith) (omega arith))

    still_free :
        (p : ℕ) → a + 4 ≤ p → p < a + 24 + length key + length value → opened p ≡ byte_erased
    still_free p q r = patch_above m a (status_byte 1 ∷ []) p (omega arith) ∙ free p (omega arith) r

    pair_hdr-AreBytes : AreBytes (pair_hdr key value)
    pair_hdr-AreBytes =
        let name_bytes : List ℕ = length key ∷ 0xff ∷ 0xff ∷ 0xff ∷ [] in
        let lengths = name_bytes ++ le_bytes 4 (length value) in
        let crc = le_bytes 4 (pair_crc key value) in
        let len = le_bytes 4 (24 + length key + length value) in
        let small : AreBytes name_bytes =
          (omega arith, (omega arith, (omega arith, (omega arith, tt)))) in
        append-AreBytes (le_bytes 4 0x3030_564b) (len ++ (crc ++ lengths))
          (le_bytes-AreBytes 4 0x3030_564b)
          (append-AreBytes len (crc ++ lengths)
            (le_bytes-AreBytes 4 (24 + length key + length value))
            (append-AreBytes crc lengths (le_bytes-AreBytes 4 (pair_crc key value)) (
              append-AreBytes name_bytes (le_bytes 4 (length value)) small
                (le_bytes-AreBytes 4 (length value)))))

    pub headed-Programs : Programs opened (a + 4) (pair_hdr key value)
    headed-Programs =
        Programs-erased opened (a + 4) (pair_hdr key value) (λ p q r. still_free p q (omega arith))
          pair_hdr-AreBytes

    pub named-Programs : Programs headed (a + 24) key
    named-Programs =
        Programs-erased headed (a + 24) key
          (λ p q r.
            patch_above opened (a + 4) (pair_hdr key value) p (omega arith)
            ∙ still_free p (omega arith) (omega arith))
          key_bytes

    pub valued-Programs : Programs named (a + 24 + length key) value
    valued-Programs =
        Programs-erased named (a + 24 + length key) value
          (λ p q r.
            patch_above headed (a + 24) key p q
            ∙ patch_above opened (a + 4) (pair_hdr key value) p (omega arith)
            ∙ still_free p (omega arith) r)
          value_bytes

    pub written-Programs : bit_and (valued a) (status_byte 2) ≡ status_byte 2
    written-Programs =
        let e : valued a ≡ status_byte 1 =
          patch_below named (a + 24 + length key) value a (omega arith)
          ∙ patch_below headed (a + 24) key a (omega arith)
          ∙ patch_below opened (a + 4) (pair_hdr key value) a (omega arith)
          ∙ ground arith in
        ap (λ b. bit_and b (status_byte 2)) e ∙ later_status 1 2 (omega arith) (omega arith)
