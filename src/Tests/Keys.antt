-- ===== src/Tests/Keys.antt =====
-- The theorems on the key-value database's caches, applied to a table of two sectors.
use flashdb_rs.Prelude.{ℕ, ◌%◌, arith, ◌≡◌, refl, ◌⊎◌, true, some, none, List, [], ◌∷◌}
use flashdb_rs.Types.{StoreStatus, DirtyStatus, data_unused}
use flashdb_rs.Flash.Nor.{slice}
use flashdb_rs.Crc.{calc_crc32}
use flashdb_rs.Kvdb.{KvSecInfo}
use flashdb_rs.Kvdb.Pairs.{crc_data}
use flashdb_rs.Kvdb.Pairs.Checksum.{crc_data-calc_crc32}
use flashdb_rs.Tests.Memory.{memory, contents, memory-IsNor}
use flashdb_rs.Tests.Empty.{keys}
use flashdb_rs.Kvdb.Cache.{update_sector_cache, get_sector_from_cache, find_slot}
use flashdb_rs.Kvdb.Cache.Sectors.{update_sector_cache-get_self, update_sector_cache-get_other}

abbrev sector_at : ℕ → KvSecInfo
sector_at addr = record {
  check_ok = true;
  store = StoreStatus.using;
  dirty = DirtyStatus.clean;
  addr = addr;
  magic = 0x3042_4446;
  combined = 0xffff_ffff;
  remain = 100;
  empty_kv = addr;
}

abbrev table : List KvSecInfo
table = sector_at 4096 ∷ sector_at data_unused ∷ []

-- The free entry is taken.
cache_run : update_sector_cache table (sector_at 0) ≡ sector_at 4096 ∷ sector_at 0 ∷ []
unfolding update_sector_cache find_slot
cache_run = refl

update_sector_cache-get_self_example :
    let after = get_sector_from_cache (update_sector_cache table (sector_at 0)) 0 in
    (after ≡ some (sector_at 0)) ⊎ ((after ≡ none) × (get_sector_from_cache table 0 ≡ none))
update_sector_cache-get_self_example = update_sector_cache-get_self table (sector_at 0) refl

update_sector_cache-get_other_example :
    get_sector_from_cache (update_sector_cache table (sector_at 0)) 4096
    ≡ get_sector_from_cache table 4096
update_sector_cache-get_other_example =
    update_sector_cache-get_other table (sector_at 0) 4096 refl refl

-- 40 bytes behind the header of a pair at 16: two rounds.
abbrev some_bytes : ℕ → ℕ
some_bytes p = p % 256

crc_data-calc_crc32_example :
    crc_data memory keys some_bytes 16 40 41 0 7 ≡ calc_crc32 7 (slice some_bytes 40 40)
crc_data-calc_crc32_example =
    crc_data-calc_crc32 memory contents (memory-IsNor 512) keys some_bytes 16 40 refl (omega arith)
      (omega arith) 7
