-- ===== src/Tests/Replace.antt =====
-- The theorems on adding and replacing a pair, applied to a sector with one pair.
use flashdb_rs.Prelude.{
  ℕ, ◌+◌, ◌≤◌, ◌<◌, arith, ◌≡◌, ◌≢◌, refl, ◌⊎◌, inl, false, true, some, [], ◌∷◌,
}
use flashdb_rs.Types.{no_err, KvStatus, DirtyStatus, failed_addr}
use flashdb_rs.Flash.{flash_read}
use flashdb_rs.Status.{get_status, count_unwritten, is_written}
use flashdb_rs.Crc.{calc_crc32, crc_loop, crc_round}
use flashdb_rs.Kvdb.{Kv, KvSecInfo, Kvdb}
use flashdb_rs.Kvdb.Cache.{
  find_slot, update_sector_cache, get_sector_from_cache, starts_with, lookup_kv, get_kv_from_cache,
  update_kv_cache, age_nodes,
}
use flashdb_rs.Kvdb.Walk.{
  get_next_kv_addr, find_next_kv_addr, find_magic_loop, scan_magic, get_next_kv_sector_addr,
}
use flashdb_rs.Kvdb.Pairs.{crc_data, read_kv_body, read_kv}
use flashdb_rs.Kvdb.Pairs.Layout.{Fits-db, HasKvRoom-kept, stored_kv}
use flashdb_rs.Kvdb.Search.{
  cache_header, read_kv_sector_header, check_kv_sector_header, read_kv_sector_info, kv_loop,
  kv_sector, kv_sector_loop, kv_iterator, find_kv_cb, find_kv_no_cache, find_kv, get_kv,
}
use flashdb_rs.Kvdb.Store.{replace_kv}
use flashdb_rs.Kvdb.Store.Added.{replace_kv-added}
use flashdb_rs.Kvdb.Store.Replaced.{CanReplace, replace_kv-get_kv}
use flashdb_rs.Tests.Memory.{memory, contents, memory-IsNor}
use flashdb_rs.Tests.Empty.{no_kv, no_sector}
use flashdb_rs.Tests.Pairs.{one_pair, pair_a, first_of_two}
use flashdb_rs.Tests.Stored.{
  key_a, value_v, key_b, value_b, with_nodes, one_pair-HasKvRoom, one_pair-IsStored, one_pair-Fits,
}
use flashdb_rs.Tests.Found.{one_node}

-- The current sector is the first one, and nothing is cached.
abbrev begun : Kvdb
begun = record (with_nodes one_node) { cur_sector = first_of_two }

abbrev last_seen : Kv
last_seen = record pair_a { start = failed_addr }

missing_run :
    find_kv memory no_sector key_b no_kv begun one_pair ≡ some (false, last_seen, begun, one_pair)
unfolding find_kv get_kv_from_cache lookup_kv find_kv_no_cache kv_iterator kv_sector_loop kv_sector
    kv_loop find_kv_cb read_kv_sector_info read_kv_sector_header check_kv_sector_header cache_header
    get_sector_from_cache update_sector_cache find_slot starts_with read_kv read_kv_body crc_data
    calc_crc32 crc_loop crc_round get_status count_unwritten is_written flash_read get_next_kv_addr
    find_next_kv_addr find_magic_loop scan_magic get_next_kv_sector_addr
missing_run = refl

replace_kv-added_example :
    (t2 : Kvdb) × (s2 : ℕ → ℕ) × (replace_kv memory no_sector no_kv key_b value_b 2 begun one_pair
      ≡ some (no_err, t2, s2))
    × ((sector : KvSecInfo) (kv2 : Kv) (spare : ℕ)
        → (t3 : Kvdb) × (get_kv memory sector key_b kv2 (2 + spare) t2 s2
            ≡ some (2, value_b, 2, t3, s2)))
    × ((p : ℕ) → p ≢ 0 → (p < 42) ⊎ (69 ≤ p) → s2 p ≡ one_pair p)
replace_kv-added_example =
    replace_kv-added memory contents (memory-IsNor 512) no_sector no_kv key_b value_b last_seen
      begun begun one_pair one_pair missing_run
      (HasKvRoom-kept one_pair begun refl (one_pair-HasKvRoom one_node 0x62 (omega arith)) refl
        (λ p h k. refl))
      (omega arith) (omega arith) (omega arith, tt)

-- The cache once the pair at 16 was found.
abbrev with_a : Kvdb
with_a = record begun {
  kv_cache_table = (record { name_crc = 59575; active = 64; addr = 16 }) ∷ [];
}

found_run :
    find_kv memory no_sector key_a no_kv begun one_pair ≡ some (true, pair_a, with_a, one_pair)
unfolding find_kv get_kv_from_cache lookup_kv find_kv_no_cache kv_iterator kv_sector_loop kv_sector
    kv_loop find_kv_cb read_kv_sector_info read_kv_sector_header check_kv_sector_header cache_header
    get_sector_from_cache update_sector_cache find_slot starts_with read_kv read_kv_body crc_data
    calc_crc32 crc_loop crc_round get_status count_unwritten is_written flash_read get_next_kv_addr
    get_next_kv_sector_addr update_kv_cache age_nodes
found_run = refl

one_pair-CanReplace : CanReplace one_pair 512 with_a pair_a key_a value_b value_v DirtyStatus.clean
one_pair-CanReplace = record {
  fits = Fits-db with_a refl one_pair-Fits;
  stored = one_pair-IsStored;
  sector = record { behind = omega arith; marked = refl };
  room =
      HasKvRoom-kept one_pair with_a refl (one_pair-HasKvRoom one_node 0x61 (omega arith)) refl
        (λ p h k. refl);
  long = omega arith;
  header = inl (omega arith);
  dirty_apart = λ e. absurd (omega arith);
  apart = inl (omega arith);
}

replace_kv-get_kv_example :
    (t2 : Kvdb) × (s2 : ℕ → ℕ) × (replace_kv memory no_sector no_kv key_a value_b 2 begun one_pair
      ≡ some (no_err, t2, s2))
    × ((sector : KvSecInfo) (kv : Kv) (spare : ℕ)
        → (t3 : Kvdb) × (get_kv memory sector key_a kv (2 + spare) t2 s2
            ≡ some (2, value_b, 2, t3, s2)))
    × ((kv : Kv)
        → read_kv memory t2 (record kv { start = 16 }) s2
          ≡ some (no_err, stored_kv (record kv { start = 16 }) KvStatus.deleted key_a value_v, s2))
replace_kv-get_kv_example =
    replace_kv-get_kv memory contents (memory-IsNor 512) no_sector no_kv key_a value_b value_v
      pair_a DirtyStatus.clean begun with_a one_pair one_pair found_run one_pair-CanReplace
      (omega arith) (omega arith, tt)
