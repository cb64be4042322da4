-- ===== src/Tests/Pairs.antt =====
-- A sector with one pair, in which the key is found.
use flashdb_rs.Prelude.{ℕ, ◌≡◌, refl, true, some, List, [], ◌∷◌, replicate, set}
use flashdb_rs.Types.{KvStatus, StoreStatus, DirtyStatus}
use flashdb_rs.Flash.{flash_read}
use flashdb_rs.Flash.Nor.{patch}
use flashdb_rs.Status.{get_status, count_unwritten, is_written}
use flashdb_rs.Crc.{calc_crc32, crc_loop, crc_round}
use flashdb_rs.Kvdb.{Kv, KvSecInfo}
use flashdb_rs.Kvdb.Cache.{find_slot, update_sector_cache, get_sector_from_cache}
use flashdb_rs.Kvdb.Walk.{
  get_next_kv_addr, find_next_kv_addr, find_magic_loop, scan_magic, get_next_kv_sector_addr,
}
use flashdb_rs.Kvdb.Pairs.{crc_data, read_kv_body, read_kv, traverse_kvs}
use flashdb_rs.Kvdb.Search.{
  measure, check_clean, cache_header, read_kv_sector_header, check_kv_sector_header,
  read_kv_sector_info,
}
use flashdb_rs.FreeSpace.{continue_ff_addr, ff_loop, scan_buf}
use flashdb_rs.Kvdb.Alloc.{
  alloc_kv, alloc_in, alloc_kv_cb, sector_statistics_cb, kv_sector_iterator, kv_sectors_loop,
  visit_kv_sector,
}
use flashdb_rs.Tests.Memory.{memory, blank}
use flashdb_rs.Tests.Empty.{no_kv, no_sector, keys}

-- The header of a sector in use, and the pair "a" with the value "v".
abbrev pub sector_bytes : List ℕ
sector_bytes =
    0x3f ∷ 0x7f ∷ 0xff ∷ 0xff ∷ 0x46 ∷ 0x44 ∷ 0x42 ∷ 0x30 ∷ 0xff ∷ 0xff ∷ 0xff ∷ 0xff ∷ 0xff ∷ 0xff
    ∷ 0xff ∷ 0xff ∷ 0x3f ∷ 0xff ∷ 0xff ∷ 0xff ∷ 0x4b ∷ 0x56 ∷ 0x30 ∷ 0x30 ∷ 26 ∷ 0 ∷ 0 ∷ 0 ∷ 0x9f
    ∷ 0x1e ∷ 0xa6 ∷ 0xff ∷ 1 ∷ 0xff ∷ 0xff ∷ 0xff ∷ 1 ∷ 0 ∷ 0 ∷ 0 ∷ 0x61 ∷ 0x76 ∷ []

abbrev pub one_pair : ℕ → ℕ
one_pair = patch blank 0 sector_bytes

abbrev pub pair_a : Kv
pair_a = record {
  status = KvStatus.write;
  crc_is_ok = true;
  name_len = 1;
  len = 26;
  value_len = 1;
  name = set (replicate 64 0) 0 0x61;
  start = 16;
  value = 41;
}

-- What is known of the sector after its pair was counted.
abbrev pub first_of_two : KvSecInfo
first_of_two = record {
  check_ok = true;
  store = StoreStatus.using;
  dirty = DirtyStatus.clean;
  addr = 0;
  magic = 0x3042_4446;
  combined = 0xffff_ffff;
  remain = 214;
  empty_kv = 42;
}

alloc_run :
    alloc_kv memory no_kv no_sector 50 keys one_pair ≡ some (42, first_of_two, keys, one_pair)
unfolding alloc_kv alloc_in alloc_kv_cb sector_statistics_cb kv_sector_iterator kv_sectors_loop
    visit_kv_sector read_kv_sector_info read_kv_sector_header check_kv_sector_header cache_header
    measure check_clean traverse_kvs get_sector_from_cache update_sector_cache find_slot read_kv
    read_kv_body crc_data calc_crc32 crc_loop crc_round get_status count_unwritten is_written
    flash_read get_next_kv_addr find_next_kv_addr find_magic_loop scan_magic get_next_kv_sector_addr
    continue_ff_addr ff_loop scan_buf
alloc_run = refl
