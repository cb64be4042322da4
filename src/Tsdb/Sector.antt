-- ===== src/Tsdb/Sector.antt =====
-- Reading and formatting sectors: `read_tsl`, `read_sector_info`, `format_sector` and
-- `sector_iterator` of flashdb/fdb_tsdb.c.
pub mod Names
pub mod Iterate
pub mod Format
use flashdb_rs.Prelude.{
  ℕ, zero, suc, ◌+◌, ◌-◌, ◌/◌, ◌%◌, Bool, true, false, Option, none, some, List, ◌++◌, ◌==◌, ltb,
  ◌&&◌, ◌||◌, if◌then◌else◌, take, drop,
}
use flashdb_rs.Prelude.Bytes.{le_bytes, field, sub32}
use flashdb_rs.Types.{
  FdbErr, no_err, read_err, init_failed, Db, TslStatus, StoreStatus, tsl_index, tsl_status,
  store_index, store_status, write_gran, data_unused, failed_addr, u32, wg_align,
}
use flashdb_rs.Flash.{Driver, Step, ◌>>◌, done, flash_read, flash_write, flash_erase}
use flashdb_rs.Status.{get_status, write_status}
use flashdb_rs.Tsdb.{
  Tsl, SecInfo, Tsdb, sector_magic_word, sector_hdr_data_size, sector_magic_offset,
  sector_start_time_offset, sector_end0_offset, sector_end1_offset, end_time_offset, end_idx_offset,
  end_status_offset, log_idx_data_size, tsl_status_num, sector_store_status_num,
}
use flashdb_rs.Tsdb.Walk.{get_next_sector_addr}

-- `struct log_idx_data` in the buffer, given the rest of the node.
unfoldable pub decode_tsl : ℕ → ℕ → List ℕ → Tsl
decode_tsl max_len index buf =
    let status = tsl_status (get_status write_gran (take 1 buf) tsl_status_num) in
    let blank : Tsl = record {
      status = status;
      time = 0;
      log_len = max_len;
      index = index;
      log = data_unused;
    } in
    let written : Tsl = record {
      status = status;
      time = field 8 8 buf;
      log_len = field 16 4 buf;
      index = index;
      log = field 20 4 buf;
    } in
    elim status [ TslStatus.pre_write ↦ blank | TslStatus.unused ↦ blank | _ ↦ written ]

-- One entry of `end_info` in the header's buffer.
end_stat : ℕ → List ℕ → TslStatus
end_stat offset buf =
    tsl_status
      (get_status write_gran (take 1 (drop (offset + end_status_offset) buf)) tsl_status_num)

-- The end information of a sector: from the first entry that is written, else as it was. `none`
-- is the assertion that stops the program when both entries are half written.
unfoldable pub read_end_info : List ℕ → SecInfo → Option SecInfo
unfolding end_stat
read_end_info buf sector =
    let stat0 = end_stat sector_end0_offset buf in
    let stat1 = end_stat sector_end1_offset buf in
    let sector = record sector { end_info_stat0 = stat0; end_info_stat1 = stat1 } in
    let from = λ (offset : ℕ). record sector {
      end_time = field (offset + end_time_offset) 8 buf;
      end_idx = field (offset + end_idx_offset) 4 buf;
    } in
    if tsl_index stat0 == tsl_index TslStatus.write
    then some (from sector_end0_offset)
    else if tsl_index stat1 == tsl_index TslStatus.write
    then some (from sector_end1_offset)
    else if (tsl_index stat0 == tsl_index TslStatus.pre_write)
        && (tsl_index stat1 == tsl_index TslStatus.pre_write)
    then none
    else some sector

-- The sector's information after one more entry of it was read.
unfoldable pub count_tsl : Tsl → ℕ → SecInfo → SecInfo
count_tsl tsl remain sector = record sector {
  end_time =
      if tsl_index tsl.status == tsl_index TslStatus.pre_write then sector.end_time else tsl.time;
  end_idx = tsl.index;
  empty_idx = u32 (sector.empty_idx + log_idx_data_size);
  empty_data = sub32 sector.empty_data (wg_align tsl.log_len);
  remain = remain;
}

-- The layout of a sector before its entries are counted.
unfoldable pub clear_counts : ℕ → SecInfo → SecInfo
clear_counts sec_size sector =
    let empty_idx = u32 (sector.addr + sector_hdr_data_size) in
    let empty_data = u32 (sector.addr + sec_size) in
    record sector {
      empty_idx = empty_idx;
      empty_data = empty_data;
      remain = sub32 empty_data empty_idx;
    }

module _ {S : Type 0} (d : Driver S) where
  -- The result is always `FDB_NO_ERR`.
  unfoldable pub read_tsl : Tsdb → S → ℕ → Tsl
  read_tsl t s index =
      decode_tsl t.max_len index (flash_read d t.db.mode s index log_idx_data_size).1

  -- The loop over the entries of a sector in use, from `index` on, with its rounds as fuel.
  unfoldable pub traverse : Tsdb → S → ℕ → ℕ → SecInfo → Option (FdbErr × SecInfo)
  traverse t s zero index sector = none
  traverse t s (suc fuel) index sector =
      let tsl = read_tsl t s index in
      let size = log_idx_data_size + wg_align tsl.log_len in
      elim (tsl_index tsl.status == tsl_index TslStatus.unused) [
        | true ↦ some (no_err, sector)
        | false ↦ elim (ltb size sector.remain) [
          | false ↦ some (read_err, count_tsl tsl 0 sector)
          | true ↦
              traverse t s fuel (u32 (index + log_idx_data_size))
                (count_tsl tsl (sector.remain - size) sector)
        ]
      ]

  -- `read_sector_info`; `sector` is what the structure holds before the call.
  unfoldable pub read_sector_info : Tsdb → S → ℕ → SecInfo → Bool → Option (FdbErr × SecInfo)
  read_sector_info t s addr sector traversal =
      let buf = (flash_read d t.db.mode s addr sector_hdr_data_size).1 in
      let magic = field sector_magic_offset 4 buf in
      let named = record sector { addr = addr; magic = magic } in
      elim (magic == sector_magic_word) [
        | false ↦ some (init_failed, record named { check_ok = false })
        | true ↦
            let header = record named {
              check_ok = true;
              status = store_status (get_status write_gran (take 1 buf) sector_store_status_num);
              start_time = field sector_start_time_offset 8 buf;
            } in
            elim (read_end_info buf header) [
              | none ↦ none
              | some sector ↦
                  let sector = clear_counts t.db.sec_size sector in
                  elim ((store_index sector.status == store_index StoreStatus.using) && traversal) [
                    | false ↦ some (no_err, sector)
                    | true ↦ traverse t s (suc sector.remain) sector.empty_idx sector
                  ]
            ]
      ]

  -- `format_sector`, whose assertion stops it at an address that is no sector's.
  unfoldable pub format_sector : Tsdb → ℕ → S → Option (FdbErr × S)
  format_sector t addr s =
      let mode = t.db.mode in
      let header : Step S =
        write_status d mode addr sector_store_status_num (store_index StoreStatus.empty) true
        >> flash_write d mode (u32 (addr + sector_magic_offset)) (le_bytes 4 sector_magic_word)
            true in
      if addr % t.db.sec_size == 0
      then some ((flash_erase d mode addr t.db.sec_size >> header) s)
      else none

  -- `sector_iterator`. A callback takes and returns the state that it reaches through its
  -- arguments (in `A`, and on the device), and says whether to stop.
  module _ {A : Type 0} (status : StoreStatus) (callback : SecInfo → A → S → Bool × A × S)
      (traversal : Bool) (t : Tsdb) where
    -- The body of the loop.
    unfoldable pub visit_sector : ℕ → SecInfo → A → S → Option (Bool × SecInfo × A × S)
    visit_sector sec_addr sector a s = elim (read_sector_info t s sec_addr sector false) [
      | none ↦ none
      | some (_, sector) ↦
          elim ((store_index status == store_index StoreStatus.unused)
            || (store_index status == store_index sector.status)) [
              | false ↦ some (false, sector, a, s)
              | true ↦
                  elim (if traversal
                    then read_sector_info t s sec_addr sector true
                    else some (no_err, sector)) [
                      | none ↦ none
                      | some (_, sector) ↦
                          let (stop, a, s) = callback sector a s in some (stop, sector, a, s)
                    ]
            ]
    ]

    -- The loop, with its rounds as fuel.
    unfoldable pub sector_loop : ℕ → ℕ → ℕ → SecInfo → A → S → Option (SecInfo × A × S)
    sector_loop zero sec_addr traversed_len sector a s = none
    sector_loop (suc fuel) sec_addr traversed_len sector a s =
        elim (visit_sector sec_addr sector a s) [
          | none ↦ none
          | some (stop, sector, a, s) ↦
              let traversed_len = u32 (traversed_len + t.db.sec_size) in
              let next = get_next_sector_addr t.db sector traversed_len in
              elim (stop || (next == failed_addr)) [
                | true ↦ some (sector, a, s)
                | false ↦ sector_loop fuel next traversed_len sector a s
              ]
        ]

    unfoldable pub sector_iterator : SecInfo → A → S → Option (SecInfo × A × S)
    sector_iterator sector a s =
        sector_loop (suc (t.db.max_size / t.db.sec_size)) sector.addr 0 sector a s
