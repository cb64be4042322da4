-- ===== src/Tests/Iterate.antt =====
-- The theorem on going through all pairs, applied to a sector with one pair.
use flashdb_rs.Kvdb.{Kvdb}
use flashdb_rs.Kvdb.Iterate.{KvIterator}
use flashdb_rs.Tests.Empty.{no_kv}

-- As `fdb_kv_iterator_init` leaves it.
abbrev at_start : KvIterator
at_start = record {
  curr_kv = no_kv;
  iterated_cnt = 0;
  iterated_obj_bytes = 0;
  iterated_value_bytes = 0;
  sector_addr = 0;
  traversed_len = 0;
}
