-- ===== src/Kvdb/Search/Ends.antt =====
-- `kv_iterator` of flashdb/fdb_kvdb.c ends, and so does the search for a key.
use flashdb_rs.Prelude.{ℕ, ◌+◌, ◌^◌, ◌≤◌, ◌<◌, ◌≡◌, Bool, true, false, Option, some, ◌==◌, ◌||◌}
use flashdb_rs.Types.{failed_addr}
use flashdb_rs.Flash.{Driver}
use flashdb_rs.Kvdb.{Kv, KvSecInfo, Kvdb}
use flashdb_rs.Kvdb.Pairs.Lengths.{AreShort}
use flashdb_rs.Kvdb.Search.{KvCallback, kv_sector_loop}

module _ {S : Type 0} (d : Driver S) {A : Type 0} (callback : KvCallback d A) where
  -- The callback returns and leaves the database's object and the device as they were.
  abbrev Keeps : Type 0
  Keeps =
      (kv : Kv) (a : A) (t : Kvdb) (s : S)
      → (stop : Bool) × (a2 : A) × (callback kv a t s ≡ some (stop, a2, t, s))

  module _ (keeps : Keeps) (P : S → Type 0) where
    module _ (t : Kvdb) (sector : KvSecInfo) (sector_end : ℕ)
        (behind : sector.addr + t.db.sec_size ≡ sector_end) (small : sector_end < 2 ^ 31)
        (room : 24 ≤ t.db.sec_size) (some_pair : 24 ≤ t.db.max_size)
        (short : t.db.max_size < 2 ^ 31) (names : AreShort d t.db P) where
      abbrev Ends : Option (Bool × Kv × A × Kvdb × S) → Type 0
      Ends o = (stop : Bool) × (kv : Kv) × (a : A) × (s : S) × (o ≡ some (stop, kv, a, t, s)) × P s

    -- The loop over the sectors returns; the database's description and the device's state at the
    -- callback's calls are left to the callback.
    abbrev Returns : Option (Kv × A × Kvdb × S) → Type 0
    Returns o = (kv : Kv) × (a : A) × (t : Kvdb) × (s : S) × (o ≡ some (kv, a, t, s))

    -- What the loop does after a sector.
    abbrev go_on : ℕ → Bool → ℕ → ℕ → KvSecInfo → Kv → A → Kvdb → S → Option (Kv × A × Kvdb × S)
    go_on fuel stop next traversed sector kv a t s = elim (stop || (next == failed_addr)) [
      | true ↦ some (kv, a, t, s)
      | false ↦ kv_sector_loop d callback fuel next traversed sector kv a t s
    ]
