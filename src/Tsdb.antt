-- ===== src/Tsdb.antt =====
-- The time series database, flashdb/fdb_tsdb.c: its structures, and the offsets of the structures
-- on flash with one bit of write granularity and `FDB_USING_TIMESTAMP_64BIT` (the crate's default).
-- A timestamp is its 64-bit pattern.
pub mod Walk
pub mod Sector
pub mod Append
pub mod Query
pub mod Load
use flashdb_rs.Prelude.{ℕ, Bool, ◌≡◌}
use flashdb_rs.Types.{Db, TslStatus, StoreStatus}

-- `struct fdb_tsl`; `index` and `log` are the fields of `addr`.
pub record Tsl : Type 0 where
  pub status : TslStatus
  pub time : ℕ
  pub log_len : ℕ
  pub index : ℕ
  pub log : ℕ

-- `struct tsdb_sec_info`
pub record SecInfo : Type 0 where
  pub check_ok : Bool
  pub status : StoreStatus
  pub addr : ℕ
  pub magic : ℕ
  pub start_time : ℕ
  pub end_time : ℕ
  pub end_idx : ℕ
  pub end_info_stat0 : TslStatus
  pub end_info_stat1 : TslStatus
  pub remain : ℕ
  pub empty_idx : ℕ
  pub empty_data : ℕ

-- `struct fdb_tsdb`, without the clock and the user's data.
pub record Tsdb : Type 0 where
  pub db : Db
  pub cur_sec : SecInfo
  pub last_time : ℕ
  pub max_len : ℕ
  pub rollover : Bool

abbrev pub sector_magic_word : ℕ
sector_magic_word = 0x304c_5354

-- `sizeof(struct sector_hdr_data)`, a multiple of the granularity, and its offsets.
abbrev pub sector_hdr_data_size : ℕ
sector_hdr_data_size = 56

abbrev pub sector_magic_offset : ℕ
sector_magic_offset = 4

abbrev pub sector_start_time_offset : ℕ
sector_start_time_offset = 8

-- The offsets in `end_info[0]` and `end_info[1]`, which are 16 bytes long.
abbrev pub sector_end0_offset : ℕ
sector_end0_offset = 16

abbrev pub sector_end1_offset : ℕ
sector_end1_offset = 32

abbrev pub end_time_offset : ℕ
end_time_offset = 0

abbrev pub end_idx_offset : ℕ
end_idx_offset = 8

abbrev pub end_status_offset : ℕ
end_status_offset = 12

-- `sizeof(struct log_idx_data)` and its offsets.
abbrev pub log_idx_data_size : ℕ
log_idx_data_size = 24

abbrev pub log_idx_ts_offset : ℕ
log_idx_ts_offset = 8

abbrev pub tsl_status_num : ℕ
tsl_status_num = 6

abbrev pub sector_store_status_num : ℕ
sector_store_status_num = 4
