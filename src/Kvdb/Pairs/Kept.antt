-- ===== src/Kvdb/Pairs/Kept.antt =====
-- A pair on a device of flashdb/fdb_kvdb.c, when other bytes or its own status are written.
use flashdb_rs.Prelude.{ℕ, ◌+◌, ◌≤◌, ◌<◌, ◌≡◌, ◌∙◌, List, [], ◌∷◌, arith, length}
use flashdb_rs.Types.{KvStatus, kv_index}
use flashdb_rs.Flash.Nor.{patch}
use flashdb_rs.Flash.Effects.{slice_congr, patch_above}
use flashdb_rs.Status.Effects.{status_byte}
use flashdb_rs.Kvdb.Pairs.Layout.{IsStored}

module _ {m : ℕ → ℕ} {a : ℕ} {st : KvStatus} {key value : List ℕ}
    (stored : IsStored m a st key value) where
  -- The bytes behind the status are as they were.
  pub IsStored-behind :
      (k : ℕ → ℕ) (st2 : KvStatus)
      → k a ≡ status_byte (kv_index st2)
      → ((p : ℕ) → a + 4 ≤ p → p < a + 24 + length key + length value → k p ≡ m p)
      → IsStored k a st2 key value
  IsStored-behind k st2 marked same = record {
    marked = marked;
    hdr = slice_congr k m (a + 4) 20 (λ p q r. same p q (omega arith)) ∙ stored.hdr;
    name =
        slice_congr k m (a + 24) (length key) (λ p q r. same p (omega arith) (omega arith))
        ∙ stored.name;
    bytes =
        slice_congr k m (a + 24 + length key) (length value) (λ p q r. same p (omega arith) r)
        ∙ stored.bytes;
  }

  pub IsStored-kept :
      (k : ℕ → ℕ)
      → ((p : ℕ) → a ≤ p → p < a + 24 + length key + length value → k p ≡ m p)
      → IsStored k a st key value
  IsStored-kept k same =
      IsStored-behind k st (same a (omega arith) (omega arith) ∙ stored.marked)
        (λ p q r. same p (omega arith) r)

  pub IsStored-remarked :
      (st2 : KvStatus) → IsStored (patch m a (status_byte (kv_index st2) ∷ [])) a st2 key value
  IsStored-remarked st2 =
      IsStored-behind (patch m a (status_byte (kv_index st2) ∷ [])) st2 (ground arith)
        (λ p q r. patch_above m a (status_byte (kv_index st2) ∷ []) p (omega arith))
