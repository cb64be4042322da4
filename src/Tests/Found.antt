-- ===== src/Tests/Found.antt =====
-- The theorems on finding a pair in the key-value database, through its cache and without it.
use flashdb_rs.Prelude.{ℕ, ◌+◌, arith, ◌≡◌, refl, true, some, List, [], ◌∷◌}
use flashdb_rs.Types.{no_err, data_unused}
use flashdb_rs.Kvdb.{Kv, KvSecInfo, KvCacheNode, Kvdb}
use flashdb_rs.Kvdb.Cache.{update_kv_cache, get_kv_from_cache, starts_with}
use flashdb_rs.Kvdb.Cache.Pairs.{update_kv_cache-get_kv_from_cache}
use flashdb_rs.Kvdb.Walk.Ring.{IsKvRing}
use flashdb_rs.Kvdb.Search.{get_kv}
use flashdb_rs.Kvdb.Create.{create_kv_blob}
use flashdb_rs.Kvdb.Create.Found.{create_kv_blob-get_kv}
use flashdb_rs.Flash.{flash_read}
use flashdb_rs.Tests.Memory.{memory, contents, memory-IsNor}
use flashdb_rs.Tests.Empty.{no_kv, no_sector, keys}
use flashdb_rs.Tests.Pairs.{one_pair, first_of_two}
use flashdb_rs.Tests.Stored.{key_a, key_b, value_b, with_nodes, one_pair-HasKvRoom}

pub keys-IsKvRing : IsKvRing keys.db 2
keys-IsKvRing = record {
  some_sector = omega arith;
  room = omega arith;
  whole = refl;
  small = omega arith;
}

abbrev pub one_node : List KvCacheNode
one_node = (record { name_crc = 0; active = 0; addr = data_unused }) ∷ []

-- The cache behind the update, for the pair at 16.
abbrev cached_a : Kvdb
cached_a = with_nodes (update_kv_cache one_node key_a 16)

name_there : starts_with key_a (flash_read memory keys.db.mode one_pair 40 64).1 ≡ true
unfolding starts_with flash_read
name_there = refl

update_kv_cache-get_kv_from_cache_example :
    (get_kv_from_cache memory cached_a one_pair key_a).0 ≡ some 16
update_kv_cache-get_kv_from_cache_example =
    update_kv_cache-get_kv_from_cache memory one_pair cached_a one_node key_a 16 refl
      (λ e. absurd (omega arith)) (omega arith) (omega arith, tt) name_there

create_kv_blob-get_kv_example :
    (t2 : Kvdb) × (s2 : ℕ → ℕ) × (create_kv_blob memory no_sector no_kv first_of_two key_b value_b 2
        (with_nodes one_node)
        one_pair
      ≡ some (no_err, first_of_two, t2, s2))
    × ((other : KvSecInfo) (kv : Kv) (spare : ℕ)
        → (t3 : Kvdb) × (get_kv memory other key_b kv (2 + spare) t2 s2
            ≡ some (2, value_b, 2, t3, s2)))
create_kv_blob-get_kv_example =
    create_kv_blob-get_kv memory contents (memory-IsNor 512) no_sector no_kv first_of_two key_b
      value_b (with_nodes one_node) one_pair (one_pair-HasKvRoom one_node 0x62 (omega arith))
      (omega arith) (omega arith) (omega arith, tt)
