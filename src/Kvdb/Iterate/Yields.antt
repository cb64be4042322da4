-- ===== src/Kvdb/Iterate/Yields.antt =====
-- `fdb_kv_iterate` of flashdb/fdb_kvdb.c ends, and yields pairs that are alive.
use flashdb_rs.Kvdb.{Kvdb}
