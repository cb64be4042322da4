-- ===== src/Kvdb/Search/Found.antt =====
-- What `find_kv_no_cache` of flashdb/fdb_kvdb.c has found.
use flashdb_rs.Prelude.{ℕ, ◌≡◌, Bool, true, List, ◌==◌, length}
use flashdb_rs.Types.{KvStatus, kv_index}
use flashdb_rs.Flash.{Driver}
use flashdb_rs.Kvdb.{Kv, Kvdb}
use flashdb_rs.Kvdb.Cache.{starts_with}
use flashdb_rs.Kvdb.Pairs.Intact.{IsIntact}

-- The pair was written in full, its name is the key, and it is what the device holds at its address,
-- where the checksum that is stored is that of the header and the data.
pub record IsPairOf {S : Type 0} (d : Driver S) (key : List ℕ) (t : Kvdb) (s : S) (kv : Kv)
    : Type 0 where
  pub len : (length key == kv.name_len) ≡ true
  pub intact : IsIntact d t s kv
  pub written : (kv_index kv.status == kv_index KvStatus.write) ≡ true
  pub name : starts_with key kv.name ≡ true

module _ {S : Type 0} (d : Driver S) (key : List ℕ) where
  abbrev Found : Bool → Kv → Kvdb → S → Type 0
  Found find_ok kv t s = find_ok ≡ true → IsPairOf d key t s kv
