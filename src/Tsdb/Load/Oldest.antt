-- ===== src/Tsdb/Load/Oldest.antt =====
-- The sector that `fdb_tsdb_init` of flashdb/fdb_tsdb.c takes for the oldest one, and what
-- `fdb_tsdb_control` cannot change.
use flashdb_rs.Prelude.{ℕ, ◌*◌, ◌≤◌, ◌<◌, ◌≡◌, true, some, arith}
use flashdb_rs.Types.{Db}
use flashdb_rs.Tsdb.{Tsdb, SecInfo}
use flashdb_rs.Tsdb.Walk.{get_next_sector_addr}
use flashdb_rs.Tsdb.Walk.Ring.{IsRing}
use flashdb_rs.Tsdb.Load.{Command, Reply, configure, fdb_tsdb_control, oldest_after}

-- The oldest sector is the one that the walk through the sectors reaches after the latest one,
-- where the latest one lies in the database.
pub oldest_after-get_next_sector_addr :
    (db : Db) (n : ℕ) (sector : SecInfo)
    → IsRing db n
    → 2 ≤ n
    → sector.addr < db.max_size
    → oldest_after db sector.addr ≡ get_next_sector_addr db sector db.sec_size
unfolding oldest_after get_next_sector_addr
oldest_after-get_next_sector_addr db n sector ring h k =
    let small = ring.small in
    let whole = ring.whole in
    let two : 2 * db.sec_size ≤ n * db.sec_size = grind arith in ground arith

-- Once the database is initialized, no command changes the storage's description: such a command
-- stops the program.
pub fdb_tsdb_control-fixed :
    (command : Command) (t : Tsdb) (reply : Reply) (t2 : Tsdb)
    → t.db.init_ok ≡ true
    → fdb_tsdb_control command t ≡ some (reply, t2)
    → (t2.db ≡ t.db)
      × (t2.cur_sec ≡ t.cur_sec)
      × (t2.last_time ≡ t.last_time)
      × (t2.max_len ≡ t.max_len)
unfolding fdb_tsdb_control configure
fdb_tsdb_control-fixed command t reply t2 h k =
    (ground arith, ground arith, ground arith, ground arith)
