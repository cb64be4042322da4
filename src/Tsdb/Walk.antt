-- ===== src/Tsdb/Walk.antt =====
-- The address arithmetic of flashdb/fdb_tsdb.c: the sectors in a ring, and the index entries of
-- one sector.
pub mod Ring
use flashdb_rs.Prelude.{ℕ, ◌+◌, ◌-◌, Bool, ltb, leb, if◌then◌else◌}
use flashdb_rs.Prelude.Bytes.{sub32}
use flashdb_rs.Types.{Db, StoreStatus, failed_addr, u32, store_index}
use flashdb_rs.Tsdb.{Tsl, SecInfo, sector_hdr_data_size, log_idx_data_size}

unfoldable pub get_next_sector_addr : Db → SecInfo → ℕ → ℕ
get_next_sector_addr db pre_sec traversed_len =
    if leb (u32 (traversed_len + db.sec_size)) db.max_size
    then (if ltb (u32 (pre_sec.addr + db.sec_size)) db.max_size
        then u32 (pre_sec.addr + db.sec_size)
        else 0)
    else failed_addr

unfoldable pub get_last_sector_addr : Db → SecInfo → ℕ → ℕ
get_last_sector_addr db pre_sec traversed_len =
    if leb (u32 (traversed_len + db.sec_size)) db.max_size
    then (if leb db.sec_size pre_sec.addr
        then pre_sec.addr - db.sec_size
        else sub32 db.max_size db.sec_size)
    else failed_addr

-- The additions here are made at `size_t`, the type of the `sizeof`, and only the result is cut.
unfoldable pub get_next_tsl_addr : SecInfo → Tsl → ℕ
get_next_tsl_addr sector pre_tsl = elim sector.status [
  | StoreStatus.empty ↦ failed_addr
  | _ ↦
      if leb (pre_tsl.index + log_idx_data_size) sector.end_idx
      then u32 (pre_tsl.index + log_idx_data_size)
      else failed_addr
]

unfoldable pub get_last_tsl_addr : SecInfo → Tsl → ℕ
get_last_tsl_addr sector pre_tsl = elim sector.status [
  | StoreStatus.empty ↦ failed_addr
  | _ ↦
      if leb (sector.addr + sector_hdr_data_size + log_idx_data_size) pre_tsl.index
      then pre_tsl.index - log_idx_data_size
      else failed_addr
]
