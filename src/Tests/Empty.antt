-- ===== src/Tests/Empty.antt =====
-- A key-value database of two sectors, before anything is known of it.
use flashdb_rs.Prelude.{false, [], replicate}
use flashdb_rs.Types.{DbType, KvStatus, StoreStatus, DirtyStatus}
use flashdb_rs.Kvdb.{Kv, KvSecInfo, Kvdb}
use flashdb_rs.Tests.Memory.{two_sectors}

abbrev pub no_kv : Kv
no_kv = record {
  status = KvStatus.unused;
  crc_is_ok = false;
  name_len = 0;
  len = 0;
  value_len = 0;
  name = replicate 64 0;
  start = 0;
  value = 0;
}

abbrev pub no_sector : KvSecInfo
no_sector = record {
  check_ok = false;
  store = StoreStatus.unused;
  dirty = DirtyStatus.unused;
  addr = 0;
  magic = 0;
  combined = 0;
  remain = 0;
  empty_kv = 0;
}

abbrev pub keys : Kvdb
keys = record {
  db = record two_sectors { type = DbType.kv };
  default_kvs = [];
  gc_request = false;
  in_recovery_check = false;
  cur_kv = no_kv;
  cur_sector = no_sector;
  last_is_complete_del = false;
  kv_cache_table = [];
  sector_cache_table = [];
}
