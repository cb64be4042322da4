-- ===== src/Tsdb/Append.antt =====
-- Appending a log: `write_tsl`, `update_sec_status`, `tsl_append` and the two entry points of
-- flashdb/fdb_tsdb.c. In the source `update_sec_status` is always called with `&db->cur_sec`, so
-- its `sector` and `db->cur_sec` are one object.
pub mod Errors
pub mod Layout
pub mod Switch
pub mod Counts
pub mod Contents
pub mod ReadBack
use flashdb_rs.Prelude.{
  ℕ, ◌+◌, ◌-◌, ◌%◌, ◌^◌, true, false, Option, none, some, List, ◌++◌, ◌==◌, ltb, ◌&&◌,
  if◌then◌else◌, take,
}
use flashdb_rs.Prelude.Bytes.{le_bytes, sub32, slt, sle}
use flashdb_rs.Types.{
  FdbErr, no_err, write_err, init_failed, saved_full, is_ok, Db, Blob, TslStatus, StoreStatus,
  tsl_index, store_index, u32, wg_align,
}
use flashdb_rs.Flash.{Driver, Step, ◌>>◌, done, flash_write}
use flashdb_rs.Status.{write_status}
use flashdb_rs.Tsdb.{
  SecInfo, Tsdb, sector_start_time_offset, sector_end0_offset, sector_end1_offset, end_time_offset,
  end_idx_offset, end_status_offset, log_idx_data_size, log_idx_ts_offset, tsl_status_num,
  sector_store_status_num,
}
use flashdb_rs.Tsdb.Sector.{read_sector_info, format_sector}

-- The bytes of `struct log_idx_data` from `time` on.
abbrev pub idx_bytes : ℕ → ℕ → ℕ → List ℕ
idx_bytes time log_len log_addr = le_bytes 8 time ++ (le_bytes 4 log_len ++ le_bytes 4 log_addr)

-- The outcome of a call that may change the database and the device. `none` stops the program.
abbrev pub Outcome : Type 0 → Type 0
Outcome S = Option (FdbErr × Tsdb × S)

-- The current sector's information after the log was written.
unfoldable pub count_append : Tsdb → Blob → ℕ → Tsdb
count_append t blob cur_time =
    let sector = t.cur_sec in
    let size = wg_align blob.size in
    record t {
      cur_sec = record sector {
        end_idx = sector.empty_idx;
        end_time = cur_time;
        empty_idx = u32 (sector.empty_idx + log_idx_data_size);
        empty_data = sub32 sector.empty_data (u32 size);
        remain = (sector.remain + 2 ^ 64 - (log_idx_data_size + size)) % 2 ^ 64;
      };
      last_time = cur_time;
    }

module _ {S : Type 0} (d : Driver S) where
  -- `write_tsl`
  unfoldable pub write_tsl : Tsdb → Blob → ℕ → Step S
  write_tsl t blob time =
      let mode = t.db.mode in
      let idx_addr = t.cur_sec.empty_idx in
      let log_len = u32 blob.size in
      let log_addr = sub32 t.cur_sec.empty_data (wg_align log_len) in
      write_status d mode idx_addr tsl_status_num (tsl_index TslStatus.pre_write) false
      >> flash_write d mode (u32 (idx_addr + log_idx_ts_offset)) (idx_bytes time log_len log_addr)
          false
      >> flash_write d mode log_addr (take blob.size blob.buf) false
      >> write_status d mode idx_addr tsl_status_num (tsl_index TslStatus.write) true

  -- The end node's timestamp and index, written into one entry of `end_info`.
  unfoldable pub write_end_info : Tsdb → ℕ → ℕ → Step S
  write_end_info t offset end_index =
      let mode = t.db.mode in
      let addr = t.cur_sec.addr + offset in
      write_status d mode (u32 (addr + end_status_offset)) tsl_status_num
        (tsl_index TslStatus.pre_write) false
      >> flash_write d mode (u32 (addr + end_time_offset)) (le_bytes 8 t.last_time) false
      >> flash_write d mode (u32 (addr + end_idx_offset)) (le_bytes 4 end_index) false
      >> write_status d mode (u32 (addr + end_status_offset)) tsl_status_num
          (tsl_index TslStatus.write) true

  -- The sector's last writes: the end information in the first free entry, and the status.
  unfoldable pub close_sector : Tsdb → Step S
  close_sector t =
      let sector = t.cur_sec in
      let end_index = sub32 sector.empty_idx log_idx_data_size in
      let end_info : Step S =
        if tsl_index sector.end_info_stat0 == tsl_index TslStatus.unused
        then write_end_info t sector_end0_offset end_index
        else if tsl_index sector.end_info_stat1 == tsl_index TslStatus.unused
        then write_end_info t sector_end1_offset end_index
        else done in
      end_info
      >> write_status d t.db.mode sector.addr sector_store_status_num (store_index StoreStatus.full)
          true

  -- The current sector becomes the one at `new_sec_addr`, which is formatted if it is not empty.
  unfoldable pub enter_sector : Tsdb → ℕ → S → Outcome S
  enter_sector t new_sec_addr s = elim (read_sector_info d t s new_sec_addr t.cur_sec false) [
    | none ↦ none
    | some (_, sector) ↦
        let t = record t { cur_sec = sector } in
        elim (store_index sector.status == store_index StoreStatus.empty) [
          | true ↦ some (no_err, t, s)
          | false ↦
              let after = u32 (new_sec_addr + t.db.sec_size) in
              let db = record (t.db) {
                oldest_addr = if ltb after t.db.max_size then after else 0;
              } in
              let t = record t { db = db } in
              elim (format_sector d t new_sec_addr s) [
                | none ↦ none
                | some (_, s) ↦ elim (read_sector_info d t s new_sec_addr t.cur_sec false) [
                  | none ↦ none
                  | some (_, sector) ↦ some (no_err, record t { cur_sec = sector }, s)
                ]
              ]
        ]
  ]

  -- The first half of `update_sec_status`: a sector without room for the log is closed, and the
  -- next one entered.
  unfoldable pub switch_sector : Tsdb → Blob → S → Outcome S
  switch_sector t blob s =
      let sector = t.cur_sec in
      let in_use = store_index sector.status == store_index StoreStatus.using in
      elim (in_use && ltb sector.remain (log_idx_data_size + wg_align blob.size)) [
        | false ↦ some (
          if store_index sector.status == store_index StoreStatus.full then saved_full else no_err,
          t,
          s,
        )
        | true ↦
            let (e, s) = close_sector t s in
            elim (is_ok e) [
              | false ↦ some (e, t, s)
              | true ↦
                  let t = record t { cur_sec = record sector { status = StoreStatus.full } } in
                  let next = u32 (sector.addr + t.db.sec_size) in
                  elim (ltb next t.db.max_size) [
                    | true ↦ enter_sector t next s
                    | false ↦ elim t.rollover [
                      | true ↦ enter_sector t 0 s
                      | false ↦ some (saved_full, t, s)
                    ]
                  ]
            ]
      ]

  -- Its second half: an empty sector comes into use.
  unfoldable pub open_sector : Tsdb → ℕ → S → FdbErr × Tsdb × S
  open_sector t cur_time s = elim (store_index t.cur_sec.status == store_index StoreStatus.empty) [
    | false ↦ (no_err, t, s)
    | true ↦
        let sector = record (t.cur_sec) { status = StoreStatus.using; start_time = cur_time } in
        let mode = t.db.mode in
        let opened : Step S =
          write_status d mode sector.addr sector_store_status_num (store_index StoreStatus.using)
            true
          >> flash_write d mode (u32 (sector.addr + sector_start_time_offset)) (le_bytes 8 cur_time)
              true in
        let (e, s) = opened s in (e, record t { cur_sec = sector }, s)
  ]

  -- `update_sec_status`
  unfoldable pub update_sec_status : Tsdb → Blob → ℕ → S → Outcome S
  update_sec_status t blob cur_time s = elim (switch_sector t blob s) [
    | none ↦ none
    | some (e, t, s) ↦ elim (is_ok e) [
      | false ↦ some (e, t, s)
      | true ↦ some (open_sector t cur_time s)
    ]
  ]

  -- `tsl_append`; `cur_time` is the timestamp that was passed, or what `get_time` returned.
  unfoldable pub tsl_append : Tsdb → Blob → ℕ → S → Outcome S
  tsl_append t blob cur_time s = elim (ltb t.max_len blob.size) [
    | true ↦ some (write_err, t, s)
    | false ↦ elim (sle cur_time t.last_time) [
      | true ↦ some (write_err, t, s)
      | false ↦ elim (update_sec_status t blob cur_time s) [
        | none ↦ none
        | some (e, t, s) ↦ elim (is_ok e) [
          | false ↦ some (e, t, s)
          | true ↦
              let (e, s) = write_tsl t blob cur_time s in
              elim (is_ok e) [
                | false ↦ some (e, t, s)
                | true ↦ some (no_err, count_append t blob cur_time, s)
              ]
        ]
      ]
    ]
  ]

  -- `fdb_tsl_append` (the clock's value is an argument) and `fdb_tsl_append_with_ts`. The lock
  -- callbacks around the call do not touch the database.
  unfoldable pub fdb_tsl_append : (get_time : ℕ) → Tsdb → Blob → S → Outcome S
  fdb_tsl_append get_time t blob s = elim t.db.init_ok [
    | false ↦ some (init_failed, t, s)
    | true ↦ tsl_append t blob get_time s
  ]

  unfoldable pub fdb_tsl_append_with_ts : Tsdb → Blob → ℕ → S → Outcome S
  fdb_tsl_append_with_ts t blob timestamp s = elim t.db.init_ok [
    | false ↦ some (init_failed, t, s)
    | true ↦ tsl_append t blob timestamp s
  ]
