-- ===== src/Tsdb/Append/Contents.antt =====
-- The contents of a device after each of the four writes of `write_tsl` in flashdb/fdb_tsdb.c, and
-- the log that is read from them.
use flashdb_rs.Prelude.{
  ℕ, ◌+◌, ◌^◌, ◌≤◌, ◌<◌, ◌≡◌, refl, ap, ◌∙◌, ◌⊎◌, inl, inr, List, [], ◌∷◌, ◌++◌, bit_and, arith,
  length, take, drop,
}
use flashdb_rs.Prelude.Bytes.{
  field, AreBytes, le_bytes, le_value, le_bytes-AreBytes, append-AreBytes, le_value-le_bytes4,
  le_value-le_bytes8,
}
use flashdb_rs.Types.{TslStatus, byte_erased, tsl_status, write_gran}
use flashdb_rs.Flash.Nor.{slice, patch, Programs}
use flashdb_rs.Flash.Effects.{patch_below, patch_above, slice_congr, slice-patch, Programs-erased}
use flashdb_rs.Flash.Slices.{field-slice, slice-patch_part}
use flashdb_rs.Status.{get_status, count_unwritten, is_written}
use flashdb_rs.Status.Effects.{status_byte}
use flashdb_rs.Tsdb.{tsl_status_num}
use flashdb_rs.Tsdb.Sector.{decode_tsl}
use flashdb_rs.Tsdb.Append.{idx_bytes}

-- An entry is decoded by its fields, once its status is `FDB_TSL_WRITE`.
decode_tsl-write :
    (max_len index : ℕ) (buf : List ℕ) (time log_len log : ℕ)
    → tsl_status (get_status write_gran (take 1 buf) tsl_status_num) ≡ TslStatus.write
    → field 8 8 buf ≡ time
    → field 16 4 buf ≡ log_len
    → field 20 4 buf ≡ log
    → decode_tsl max_len index buf ≡ (record {
      status = TslStatus.write;
      time = time;
      log_len = log_len;
      index = index;
      log = log;
    })
unfolding decode_tsl
decode_tsl-write max_len index buf time log_len log hs ht hl ha =
    rw (hs, decode_tsl, hs, ht, hl, ha)

written_status :
    tsl_status (get_status write_gran (status_byte 2 ∷ []) tsl_status_num) ≡ TslStatus.write
unfolding get_status count_unwritten is_written
written_status = refl

module _ (m : ℕ → ℕ) (idx log time : ℕ) (buf : List ℕ) where
  -- The contents after each of the four writes of `write_tsl`.
  abbrev pub begun : ℕ → ℕ
  begun = patch m idx (status_byte 1 ∷ [])

  abbrev pub indexed : ℕ → ℕ
  indexed = patch begun (idx + 8) (idx_bytes time (length buf) log)

  abbrev pub filled : ℕ → ℕ
  filled = patch indexed log buf

  abbrev pub stored : ℕ → ℕ
  stored = patch filled idx (status_byte 2 ∷ [])

  module _ (apart : idx + 24 ≤ log) where
    entry-slice :
        (o n : ℕ)
        → o + n ≤ 16
        → slice stored (idx + 8 + o) n ≡ take n (drop o (idx_bytes time (length buf) log))
    entry-slice o n h =
        slice_congr stored indexed (idx + 8 + o) n (λ p q r.
          patch_above filled idx (status_byte 2 ∷ []) p (omega arith)
          ∙ patch_below indexed log buf p (omega arith))
        ∙ slice-patch_part begun (idx + 8) (idx_bytes time (length buf) log) o n h

    -- A field of the entry, at an offset from its start.
    entry-field :
        (o n : ℕ)
        → o + n ≤ 16
        → field (8 + o) n (slice stored idx 24)
          ≡ le_value (take n (drop o (idx_bytes time (length buf) log)))
    entry-field o n h =
        let e : idx + (8 + o) ≡ idx + 8 + o = omega arith in
        ap le_value (
          field-slice stored idx (8 + o) n 24 (omega arith)
          ∙ ap (λ x. slice stored x n) e
          ∙ entry-slice o n h)

    pub log-slice : slice stored log (length buf) ≡ buf
    log-slice =
        slice_congr stored filled log (length buf)
          (λ p q r. patch_above filled idx (status_byte 2 ∷ []) p (omega arith))
        ∙ slice-patch indexed log buf

    stored-status : stored idx ≡ status_byte 2
    stored-status = ground arith

    -- The index entry as `read_tsl` decodes it.
    pub decode_tsl-stored :
        (max_len : ℕ)
        → time < 2 ^ 64
        → length buf < 2 ^ 32
        → log < 2 ^ 32
        → decode_tsl max_len idx (slice stored idx 24) ≡ (record {
          status = TslStatus.write;
          time = time;
          log_len = length buf;
          index = idx;
          log = log;
        })
    decode_tsl-stored max_len ht hl ha =
        decode_tsl-write max_len idx (slice stored idx 24) time (length buf) log
          (ap (λ b. tsl_status (get_status write_gran (b ∷ []) tsl_status_num)) stored-status
            ∙ written_status)
          (entry-field 0 8 (omega arith) ∙ le_value-le_bytes8 time ht)
          (entry-field 8 4 (omega arith) ∙ le_value-le_bytes4 (length buf) hl)
          (entry-field 12 4 (omega arith) ∙ le_value-le_bytes4 log ha)

    -- Outside the entry and the log nothing changes.
    pub stored-outside :
        (p : ℕ) → (p < idx) ⊎ ((idx + 24 ≤ p) × (p < log)) ⊎ (log + length buf ≤ p) → stored p ≡ m p
    stored-outside p h =
        let meta = idx_bytes time (length buf) log in
        let last = status_byte 2 ∷ [] in
        let first = status_byte 1 ∷ [] in
        elim h [
          | inl a ↦
              patch_below filled idx last p a
              ∙ patch_below indexed log buf p (omega arith)
              ∙ patch_below begun (idx + 8) meta p (omega arith)
              ∙ patch_below m idx first p a
          | inr (inl b) ↦
              patch_above filled idx last p (omega arith)
              ∙ patch_below indexed log buf p b.1
              ∙ patch_above begun (idx + 8) meta p (omega arith)
              ∙ patch_above m idx first p (omega arith)
          | inr (inr c) ↦
              patch_above filled idx last p (omega arith)
              ∙ patch_above indexed log buf p c
              ∙ patch_above begun (idx + 8) meta p (omega arith)
              ∙ patch_above m idx first p (omega arith)
        ]

    -- The four writes only turn ones into zeros, where the entry and the log go to erased bytes.
    module _ (free : (p : ℕ) → idx ≤ p → p < log + length buf → m p ≡ byte_erased)
        (bytes : AreBytes buf) where
      pub begun-Programs : bit_and (m idx) (status_byte 1) ≡ status_byte 1
      begun-Programs = rw (free idx (omega arith) (omega arith))

      pub indexed-Programs : Programs begun (idx + 8) (idx_bytes time (length buf) log)
      indexed-Programs =
          Programs-erased begun (idx + 8) (idx_bytes time (length buf) log)
            (λ p q r.
              patch_above m idx (status_byte 1 ∷ []) p (omega arith)
              ∙ free p (omega arith) (omega arith))
            (append-AreBytes (le_bytes 8 time) (le_bytes 4 (length buf) ++ le_bytes 4 log)
              (le_bytes-AreBytes 8 time)
              (append-AreBytes (le_bytes 4 (length buf)) (le_bytes 4 log)
                (le_bytes-AreBytes 4 (length buf)) (le_bytes-AreBytes 4 log)))

      pub filled-Programs : Programs indexed log buf
      filled-Programs =
          Programs-erased indexed log buf
            (λ p q r.
              patch_above begun (idx + 8) (idx_bytes time (length buf) log) p (omega arith)
              ∙ patch_above m idx (status_byte 1 ∷ []) p (omega arith)
              ∙ free p (omega arith) r)
            bytes

      pub stored-Programs : bit_and (filled idx) (status_byte 2) ≡ status_byte 2
      stored-Programs =
          let e : filled idx ≡ status_byte 1 =
            patch_below indexed log buf idx (omega arith)
            ∙ patch_below begun (idx + 8) (idx_bytes time (length buf) log) idx (omega arith)
            ∙ ground arith in
          rw e
