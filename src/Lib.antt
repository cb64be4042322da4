-- ===== src/Lib.antt =====
-- A model of FlashDB, the C library in flashdb/ that the crate compiles, and of what its parts do.
--
-- The configuration is the one of build.rs: only FDB_USING_CUSTOM_MODE, one bit of write
-- granularity, 64-bit timestamps, the caches of the key-value database on.
--
-- The parts, from the bottom up:
--
-- Types: the enumerations, structures and macros of flashdb/inc/fdb_def.h and fdb_low_lvl.h. A word
--   of the machine is a number, and where the code may wrap, the wrap is written out (u32, sub32). A
--   timestamp is its 64-bit pattern; slt and sle compare patterns as int64_t, and slt32 as int.
-- Flash: _fdb_flash_read, _fdb_flash_write and _fdb_flash_erase of flashdb/fdb_utils.c. The driver
--   (the user's fdb_custom_read, fdb_custom_write and fdb_custom_erase) is a parameter with a device
--   state of any type. Code that changes the device is a function from states to a status and a state;
--   `>>` is the early return on an error. Flash.Nor states what NOR flash does (IsNor): a read gives
--   the contents, a write that only clears bits takes effect, an erase sets bytes to 0xff.
-- Status: the status tables (_fdb_set_status, _fdb_get_status, _fdb_write_status,
--   _fdb_read_status), for every write granularity.
-- Crc: fdb_calc_crc32 with its table, and the bitwise checksum it is compared with.
-- FreeSpace: _fdb_continue_ff_addr.
-- Init: _fdb_init_ex, _fdb_init_finish and _fdb_deinit of flashdb/fdb.c, and the blobs.
-- Tsdb: the time series database, flashdb/fdb_tsdb.c. Walk has the address arithmetic, Sector reads,
--   formats and iterates over sectors, Append has tsl_append and what it calls, Query has the
--   iterators and the binary search, Load has fdb_tsdb_init, fdb_tsdb_control and the rest. The
--   children of each are named for what they prove.
-- Kvdb: the key-value database, flashdb/fdb_kvdb.c: the two caches (Cache), the walk over sectors and
--   pairs (Walk), reading a pair (Pairs), finding and getting one (Search), room for a new one
--   (Alloc: alloc_kv, update_sec_status, format_sector), deleting and moving one (Delete: del_kv,
--   move_kv), garbage collection (Gc: do_gc, new_kv), creating one (Create: create_kv_blob), setting
--   one (Store: set_kv, fdb_kv_set_default), opening and recovering a database (Load:
--   _fdb_kv_load, fdb_kvdb_init, fdb_kvdb_control), and going through all pairs (Iterate:
--   fdb_kv_iterate, fdb_kvdb_check). The children of each are named for what they prove. A name that
--   fdb_tsdb.c declares too has `kv` in it here, as format_kv_sector.
-- Tests: a device in memory and small databases, on which the functions are run and the theorems
--   applied.
--
-- A function that may stop the program (FDB_ASSERT) returns `none` there, and so does read_kv where
-- it would write a name of more than 64 bytes behind the end of its array; all that call it stop
-- with it. The loops of the source are on fuel: a walk over sectors has one round for each sector
-- and one more, which is enough when the database consists of whole sectors; a walk over entries
-- has as many rounds as the last index address; the binary search, the scan of free space and the
-- walk over the pairs of a sector have one round for each byte of the range and one more. The
-- rounds of the recovery of a key-value database, which nothing bounds in the code, are an
-- argument. For those with a theorem below, that the fuel is enough is a part of it.
--
-- A structure that the C code leaves uninitialized is an argument (`local_sector`, `local_kv`), so
-- that no theorem depends on what it holds. A callback of an iterator is a function on a state of any
-- type and on the device.
--
-- Not modelled: fdb_kv_print, which only prints; kv_auto_update, which is not compiled; the lock
-- callbacks, the log messages, names, paths and the user's data; flashdb/fdb_file.c, which is not
-- compiled; flashdb/shim.c and the Rust bindings.
pub mod Prelude
pub mod Types
pub mod Flash
pub mod Status
pub mod Crc
pub mod FreeSpace
pub mod Init
pub mod Tsdb
pub mod Kvdb
pub mod Tests
