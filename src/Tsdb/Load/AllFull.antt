-- ===== src/Tsdb/Load/AllFull.antt =====
-- `fdb_tsdb_init` of flashdb/fdb_tsdb.c on a database in which every sector is full.
use flashdb_rs.Prelude.{
  ℕ, zero, suc, ◌+◌, ◌-◌, ◌*◌, ◌%◌, ◌≤◌, ◌<◌, ◌≡◌, ◌≢◌, refl, ap, ◌∙◌, Bool, true, false, Option,
  none, some, arith, ltb, ◌==◌,
}
use native.Mathlib.Nat.{mod-eq_of_lt}
use flashdb_rs.Prelude.Bytes.{field}
use flashdb_rs.Types.{
  FdbErr, no_err, init_failed, DbType, StoreStatus, store_index, data_unused, u32, Db,
}
use flashdb_rs.Flash.{Driver, flash_read}
use flashdb_rs.Init.{init_ex, init_finish}
use flashdb_rs.Tsdb.{SecInfo, Tsdb, sector_magic_word, sector_magic_offset, sector_hdr_data_size}
use flashdb_rs.Tsdb.Walk.Ring.{IsRing, ring_addrs}
use flashdb_rs.Tsdb.Sector.{read_sector_info, visit_sector}
use flashdb_rs.Tsdb.Sector.Iterate.{visit_all, sector_iterator-visit_all}
use flashdb_rs.Tsdb.Load.{
  CheckArgs, check_sec_hdr_cb, oldest_after, locate, restore_last_time, load_checked, load,
  fdb_tsdb_init,
}

-- The database as `fdb_tsdb_init` sets it up, with an oldest address.
abbrev pub opened : ℕ → Tsdb → ℕ → Tsdb
opened max_len t oldest = record t {
  max_len = max_len;
  rollover = true;
  db = record (t.db) { oldest_addr = oldest };
  cur_sec = record (t.cur_sec) { addr = data_unused };
}

module _ {S : Type 0} (d : Driver S) where
  -- Every sector's header is in order and says that the sector is full; a read at the address
  -- `FDB_DATA_UNUSED` finds no sector; and the structure of the current sector, which nothing has
  -- filled before, does not say that it is in use or empty.
  pub record AreFull (max_len : ℕ) (t : Tsdb) (s : S) (n : ℕ) : Type 0 where
    pub full :
        (j : ℕ) (sector : SecInfo) (traversal : Bool)
        → j < n
        → (e : FdbErr) × (out : SecInfo) × (read_sector_info d
              (opened max_len t data_unused)
              s
              (j * t.db.sec_size)
              sector
              traversal
            ≡ some (e, out))
          × (out.check_ok ≡ true)
          × (store_index out.status ≡ store_index StoreStatus.full)
    pub nowhere :
        (field sector_magic_offset 4 (flash_read d t.db.mode s data_unused sector_hdr_data_size).1
          == sector_magic_word)
        ≡ false
    pub not_using : store_index t.cur_sec.status ≢ store_index StoreStatus.using
    pub not_empty : store_index t.cur_sec.status ≢ store_index StoreStatus.empty

  check_sec_hdr_cb-full :
      (sector : SecInfo) (args : CheckArgs) (s : S)
      → sector.check_ok ≡ true
      → store_index sector.status ≡ store_index StoreStatus.full
      → check_sec_hdr_cb d sector args s ≡ (false, args, s)
  unfolding check_sec_hdr_cb
  check_sec_hdr_cb-full sector args s ok full = rw (ok, check_sec_hdr_cb, full) refl

  module _ (max_len : ℕ) (t : Tsdb) (s : S) (n : ℕ) (ring : IsRing t.db n)
      (are : AreFull max_len t s n) where
    abbrev t1 : Tsdb
    t1 = opened max_len t data_unused

    visit-full :
        (j : ℕ) (sector : SecInfo) (args : CheckArgs)
        → j < n
        → (out : SecInfo) × (visit_sector d StoreStatus.unused
              (check_sec_hdr_cb d)
              true
              t1
              (j * t.db.sec_size)
              sector
              args
              s
            ≡ some (false, out, args, s))
    unfolding visit_sector
    visit-full j sector args h =
        let (e, out, read, ok, full) = are.full j sector false h in
        let (e2, out2, read2, ok2, full2) = are.full j out true h in
        (out2, rw (read, visit_sector, read2, check_sec_hdr_cb-full out2 args s ok2 full2) refl)

    visit_all-full :
        (m k : ℕ) (sector : SecInfo) (args : CheckArgs)
        → k + m ≤ n
        → (out : SecInfo) × (visit_all d StoreStatus.unused
              (check_sec_hdr_cb d)
              true
              t1
              (ring_addrs n t.db.sec_size k m)
              sector
              args
              s
            ≡ some (out, args, s))
    unfolding visit_all
    visit_all-full zero k sector args h = (sector, refl)
    visit_all-full (suc m) k sector args h =
        let inside : k % n ≡ k = mod-eq_of_lt (omega arith) in
        let (out, here) = visit-full (k % n) sector args (omega arith) in
        let (out2, rest) = visit_all-full m (suc k) out args (omega arith) in
        (out2, rw (here, visit_all) rest)

    oldest : oldest_after (t1.db) data_unused ≡ t.db.sec_size - 1
    unfolding oldest_after
    oldest =
        let small = ring.small in
        let pos = ring.sec_pos in
        let whole = ring.whole in
        let some_sector = ring.some_sector in
        let one : t.db.sec_size ≤ n * t.db.sec_size = grind arith in
        let wrap : u32 (data_unused + t.db.sec_size) ≡ t.db.sec_size - 1 = omega arith in
        rw (oldest_after, wrap) (ground arith)

    -- What is left of the database: `cur_sec` is the structure that a read at no sector leaves.
    abbrev left : Tsdb
    left = record (opened max_len t (t.db.sec_size - 1)) {
      cur_sec = record (t.cur_sec) {
        addr = data_unused;
        check_ok = false;
        magic =
            field sector_magic_offset 4
              (flash_read d t.db.mode s data_unused sector_hdr_data_size).1;
      };
    }

    abbrev begun : CheckArgs
    begun = record {
      check_failed = false;
      empty_num = 0;
      empty_addr = 0;
      cur_sec = record (t.cur_sec) { addr = data_unused };
    }

    locate-begun : locate begun t1 ≡ opened max_len t (t.db.sec_size - 1)
    unfolding locate
    locate-begun = ap (opened max_len t) oldest

    read-nowhere :
        (a : ℕ)
        → read_sector_info d
            (opened max_len t a)
            s
            data_unused
            (record (t.cur_sec) { addr = data_unused })
            true
          ≡ some (init_failed, left.cur_sec)
    unfolding read_sector_info
    read-nowhere a = let e = are.nowhere in rw (e, read_sector_info) refl

    restored : (sec : SecInfo) → restore_last_time d sec left s ≡ some left
    unfolding restore_last_time
    restored sec =
        let h = are.not_using in
        let k = are.not_empty in
        let using : (store_index t.cur_sec.status == 2) ≡ false = ground arith in
        let empty : (store_index t.cur_sec.status == 1) ≡ false = ground arith in
        rw (using, restore_last_time, empty) refl

    -- What `load_checked` does once the current sector is known.
    abbrev located : SecInfo → Tsdb → Option (FdbErr × Tsdb × S)
    located sector t = elim (read_sector_info d t s t.cur_sec.addr t.cur_sec true) [
      | none ↦ none
      | some (_, cur_sec) ↦ elim (restore_last_time d sector (record t { cur_sec = cur_sec }) s) [
        | none ↦ none
        | some t ↦ some (no_err, t, s)
      ]
    ]

    load_checked-located :
        (sector : SecInfo) → load_checked d sector begun t1 s ≡ located sector (locate begun t1)
    unfolding load_checked
    load_checked-located sector = refl

    load_checked-full :
        (sector : SecInfo) → load_checked d sector begun t1 s ≡ some (no_err, left, s)
    load_checked-full sector =
        load_checked-located sector
        ∙ ap (located sector) locate-begun
        ∙ rw (located, read-nowhere (t.db.sec_size - 1), restored sector) refl

    ring1 : IsRing t1.db n
    ring1 = record {
      some_sector = ring.some_sector;
      sec_pos = ring.sec_pos;
      whole = ring.whole;
      small = ring.small;
    }

    load-full :
        (sector : SecInfo)
        → max_len < t.db.sec_size
        → load d sector max_len t s ≡ some (no_err, left, s)
    unfolding load
    load-full sector h =
        let short : ltb max_len t.db.sec_size ≡ true = ground arith in
        let (out, all) = visit_all-full n 0 (record sector { addr = 0 }) begun (omega arith) in
        let walk =
          sector_iterator-visit_all d StoreStatus.unused (check_sec_hdr_cb d) true t1 ring1 0
            (record sector { addr = 0 }) begun s ring.some_sector (omega arith)
          ∙ all in
        rw (short, load, walk) (load_checked-full sector)

  -- After a check of the geometry that succeeds, with a length of logs below the sector's size, and
  -- where every sector of the database is full, a read at `FDB_DATA_UNUSED` finds no sector, and the
  -- structure of the current sector says neither that it is in use nor that it is empty:
  -- `fdb_tsdb_init` reports success, with an oldest address that is one less than the sector's size,
  -- which is that of no sector where the size is more than 1, and `FDB_DATA_UNUSED` as the current
  -- sector's address.
  pub fdb_tsdb_init-all_full :
      (max_len : ℕ) (t : Tsdb) (s : S) (n : ℕ) (sector : SecInfo) (db : Db)
      → init_ex DbType.ts t.db ≡ some (no_err, db)
      → IsRing db n
      → max_len < db.sec_size
      → AreFull max_len (record t { db = db }) s n
      → (t2 : Tsdb) × (fdb_tsdb_init d sector max_len t s ≡ some (no_err, t2, s))
        × (t2.db.oldest_addr ≡ db.sec_size - 1)
        × (t2.cur_sec.addr ≡ data_unused)
  unfolding fdb_tsdb_init init_finish
  fdb_tsdb_init-all_full max_len t s n sector db init ring h are =
      let t1 : Tsdb = record t { db = db } in
      let loaded = load-full max_len t1 s n ring are sector h in
      let end = left max_len t1 s n ring are in
      (
        record end { db = init_finish no_err end.db },
        rw (init, fdb_tsdb_init, loaded) refl,
        refl,
        refl,
      )
