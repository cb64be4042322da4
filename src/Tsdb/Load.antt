-- ===== src/Tsdb/Load.antt =====
-- Opening, formatting and configuring a time series database: `check_sec_hdr_cb`,
-- `tsl_format_all`, `fdb_tsl_clean`, `fdb_tsdb_control`, `fdb_tsdb_init` and `fdb_tsdb_deinit` of
-- flashdb/fdb_tsdb.c.
pub mod Oldest
pub mod AllFull
use flashdb_rs.Prelude.{
  ℕ, ◌+◌, ◌-◌, ◌%◌, ◌^◌, Bool, true, false, Option, none, some, ◌==◌, ltb, leb, not, ◌&&◌, ◌||◌,
  if◌then◌else◌,
}
use flashdb_rs.Prelude.Bytes.{sub32}
use flashdb_rs.Types.{
  FdbErr, no_err, read_err, is_ok, DbType, StoreStatus, store_index, data_unused, u32, Db,
}
use flashdb_rs.Flash.{Driver}
use flashdb_rs.Init.{init_ex, init_finish, deinit}
use flashdb_rs.Tsdb.{SecInfo, Tsdb}
use flashdb_rs.Tsdb.Sector.{read_sector_info, format_sector, sector_iterator}

-- `struct check_sec_hdr_cb_args`, and what the callback changes through its `db`.
pub record CheckArgs : Type 0 where
  pub check_failed : Bool
  pub empty_num : ℕ
  pub empty_addr : ℕ
  pub cur_sec : SecInfo

-- `fdb_tsdb_control`'s commands, with what they read through `arg`.
pub data Command : Type 0 where
  set_sec_size set_max_size : ℕ → Command
  get_sec_size set_lock set_unlock get_rollover get_last_time : Command
  set_rollover set_file_mode set_not_format : Bool → Command

-- What it writes through `arg`.
pub data Reply : Type 0 where
  nothing : Reply
  word : ℕ → Reply
  flag : Bool → Reply

-- An option that must be set before the initialization.
unfoldable pub configure : Tsdb → Db → Option (Reply × Tsdb)
configure t db = if t.db.init_ok then none else some (nothing, record t { db = db })

-- The assertions on `init_ok` stop the program.
unfoldable pub fdb_tsdb_control : Command → Tsdb → Option (Reply × Tsdb)
fdb_tsdb_control command t = elim command [
  | set_sec_size size ↦ configure t (record (t.db) { sec_size = size })
  | get_sec_size ↦ some (word t.db.sec_size, t)
  | set_lock ↦ some (nothing, t)
  | set_unlock ↦ some (nothing, t)
  | set_rollover on ↦ if t.db.init_ok then some (nothing, record t { rollover = on }) else none
  | get_rollover ↦ some (flag t.rollover, t)
  | get_last_time ↦ some (word t.last_time, t)
  | set_file_mode on ↦ some (nothing, t)
  | set_max_size size ↦ configure t (record (t.db) { max_size = size })
  | set_not_format on ↦ configure t (record (t.db) { not_formatable = on })
]

unfoldable pub fdb_tsdb_deinit : Tsdb → Tsdb
fdb_tsdb_deinit t = record t { db = deinit t.db }

-- The oldest sector's address, from the last one.
unfoldable pub oldest_after : Db → ℕ → ℕ
oldest_after db latest_addr =
    if leb db.max_size (u32 (latest_addr + db.sec_size)) then 0 else u32 (latest_addr + db.sec_size)

-- The current and the oldest sector, when every header is in order.
unfoldable pub locate : CheckArgs → Tsdb → Tsdb
locate args t =
    let cur_sec =
      if ltb 0 args.empty_num || t.rollover
      then args.cur_sec
      else record (args.cur_sec) { addr = sub32 t.db.max_size t.db.sec_size } in
    let latest_addr = if ltb 0 args.empty_num then args.empty_addr else cur_sec.addr in
    record t {
      cur_sec = cur_sec;
      db = record (t.db) { oldest_addr = oldest_after t.db latest_addr };
    }

module _ {S : Type 0} (d : Driver S) where
  unfoldable pub check_sec_hdr_cb : SecInfo → CheckArgs → S → Bool × CheckArgs × S
  check_sec_hdr_cb sector args s =
      let unset = args.cur_sec.addr == data_unused in
      let failed = record args { check_failed = true } in
      if not sector.check_ok
      then (true, failed, s)
      else if store_index sector.status == store_index StoreStatus.using
      then (if unset then (false, record args { cur_sec = sector }, s) else (true, failed, s))
      else if store_index sector.status == store_index StoreStatus.empty
      then (
        false,
        record args {
          empty_num = (args.empty_num + 1) % 2 ^ 64;
          empty_addr = sector.addr;
          cur_sec = if ((args.empty_num + 1) % 2 ^ 64 == 1) && unset then sector else args.cur_sec;
        },
        s,
      )
      else (false, args, s)

  -- The state is whether an assertion has failed in `format_sector`.
  unfoldable pub format_all_cb : Tsdb → SecInfo → Bool → S → Bool × Bool × S
  format_all_cb t sector stopped s = elim (format_sector d t sector.addr s) [
    | none ↦ (true, true, s)
    | some (_, s) ↦ (false, stopped, s)
  ]

  unfoldable pub tsl_format_all : SecInfo → Tsdb → S → Option (Tsdb × S)
  tsl_format_all sector t s =
      elim (sector_iterator d StoreStatus.unused (format_all_cb t) false t
        (record sector { addr = 0 }) false s) [
          | none ↦ none
          | some (_, stopped, s) ↦ elim stopped [
            | true ↦ none
            | false ↦
                let t = record t {
                  db = record (t.db) { oldest_addr = 0 };
                  cur_sec = record (t.cur_sec) { addr = 0 };
                  last_time = 0;
                } in
                elim (read_sector_info d t s 0 t.cur_sec false) [
                  | none ↦ none
                  | some (_, cur_sec) ↦ some (record t { cur_sec = cur_sec }, s)
                ]
          ]
        ]

  unfoldable pub fdb_tsl_clean : SecInfo → Tsdb → S → Option (Tsdb × S)
  fdb_tsl_clean sector t s = tsl_format_all sector t s

  -- The last time that was saved, once the current sector was read.
  unfoldable pub restore_last_time : SecInfo → Tsdb → S → Option Tsdb
  restore_last_time sec t s =
      let status = store_index t.cur_sec.status in
      let addr = t.cur_sec.addr in
      let last =
        if addr == 0 then sub32 t.db.max_size t.db.sec_size else sub32 addr t.db.sec_size in
      elim (status == store_index StoreStatus.using) [
        | true ↦ some (record t { last_time = t.cur_sec.end_time })
        | false ↦
            elim ((status == store_index StoreStatus.empty) && not (t.db.oldest_addr == addr)) [
              | false ↦ some t
              | true ↦ elim (read_sector_info d t s last sec false) [
                | none ↦ none
                | some (_, sec) ↦ some (record t { last_time = sec.end_time })
              ]
            ]
      ]

  -- What follows the check of the headers, up to `__exit`.
  unfoldable pub load_checked : SecInfo → CheckArgs → Tsdb → S → Option (FdbErr × Tsdb × S)
  load_checked sector args t s = elim (args.check_failed && t.db.not_formatable) [
    | true ↦ some (read_err, record t { cur_sec = args.cur_sec }, s)
    | false ↦
        elim (if args.check_failed
          then tsl_format_all sector (record t { cur_sec = args.cur_sec }) s
          else some (locate args t, s)) [
            | none ↦ none
            | some (t, s) ↦ elim (read_sector_info d t s t.cur_sec.addr t.cur_sec true) [
              | none ↦ none
              | some (_, cur_sec) ↦
                  elim (restore_last_time sector (record t { cur_sec = cur_sec }) s) [
                    | none ↦ none
                    | some t ↦ some (no_err, t, s)
                  ]
            ]
          ]
  ]

  -- The database with the options that `fdb_tsdb_init` sets; then the headers are checked.
  unfoldable pub load : SecInfo → ℕ → Tsdb → S → Option (FdbErr × Tsdb × S)
  load sector max_len t s =
      let cur_sec = record (t.cur_sec) { addr = data_unused } in
      let t = record t {
        max_len = max_len;
        rollover = true;
        db = record (t.db) { oldest_addr = data_unused };
        cur_sec = cur_sec;
      } in
      let args : CheckArgs = record {
        check_failed = false;
        empty_num = 0;
        empty_addr = 0;
        cur_sec = cur_sec;
      } in
      elim (ltb max_len t.db.sec_size) [
        | false ↦ none
        | true ↦
            elim (sector_iterator d StoreStatus.unused check_sec_hdr_cb true t
              (record sector { addr = 0 }) args s) [
                | none ↦ none
                | some (_, args, s) ↦ load_checked sector args t s
              ]
      ]

  -- `fdb_tsdb_init`; `sector` is what the local structure holds before it is written.
  unfoldable pub fdb_tsdb_init : SecInfo → ℕ → Tsdb → S → Option (FdbErr × Tsdb × S)
  fdb_tsdb_init sector max_len t s = elim (init_ex DbType.ts t.db) [
    | none ↦ none
    | some (e, db) ↦
        elim (if is_ok e
          then load sector max_len (record t { db = db }) s
          else some (e, record t { db = db }, s)) [
            | none ↦ none
            | some (result, t, s) ↦ some (result, record t { db = init_finish result t.db }, s)
          ]
  ]
