-- ===== src/Kvdb/Walk.antt =====
-- The walk over sectors and pairs of flashdb/fdb_kvdb.c.
pub mod Ring
pub mod Progress
use flashdb_rs.Prelude.{
  ℕ, zero, suc, ◌+◌, ◌-◌, ◌*◌, ◌%◌, ◌^◌, Bool, true, false, Option, none, some, List, ◌==◌, ltb,
  leb, ◌&&◌, ◌||◌, if◌then◌else◌, not,
}
use flashdb_rs.Prelude.Bytes.{field}
use flashdb_rs.Types.{is_ok, StoreStatus, store_index, failed_addr, u32, align_down, wg_align}
use flashdb_rs.Flash.{Driver, flash_read}
use flashdb_rs.Kvdb.{
  Kv, KvSecInfo, Kvdb, kv_magic_word, kv_magic_offset, kv_sector_hdr_size, sector_not_combined,
}
use flashdb_rs.Kvdb.Cache.{get_sector_from_cache}

-- `get_next_sector_addr`
unfoldable pub get_next_kv_sector_addr : Kvdb → KvSecInfo → ℕ → ℕ
get_next_kv_sector_addr t pre_sec traversed_len =
    let cur_block_size =
      if pre_sec.combined == sector_not_combined
      then t.db.sec_size
      else u32 (pre_sec.combined * t.db.sec_size) in
    if leb (u32 (traversed_len + cur_block_size)) t.db.max_size
    then (if ltb (u32 (pre_sec.addr + cur_block_size)) t.db.max_size
        then u32 (pre_sec.addr + cur_block_size)
        else 0)
    else failed_addr

-- The inner loop of `find_next_kv_addr`, over the bytes that start a magic word (`count` of them
-- are left). The offset is an `unsigned long`.
unfoldable pub scan_magic : (start_bak start end : ℕ) → List ℕ → (count i : ℕ) → Option ℕ
scan_magic start_bak start end buf zero i = none
scan_magic start_bak start end buf (suc count) i =
    let addr = (u32 (start + i) + 2 ^ 64 - kv_magic_offset) % 2 ^ 64 in
    if not (ltb (u32 (start + i)) end)
    then none
    else if (field i 4 buf == kv_magic_word) && leb start_bak addr
    then some (u32 addr)
    else scan_magic start_bak start end buf count (suc i)

module _ {S : Type 0} (d : Driver S) where
  -- The outer loop, with its rounds as fuel.
  unfoldable pub find_magic_loop : Kvdb → S → ℕ → ℕ → ℕ → ℕ → Option ℕ
  find_magic_loop t s start_bak zero start end = none
  find_magic_loop t s start_bak (suc fuel) start end = elim (ltb (start + 32) end) [
    | false ↦ some failed_addr
    | true ↦
        let (e, buf) = flash_read d t.db.mode s start 32 in
        elim (is_ok e) [
          | false ↦ some failed_addr
          | true ↦ elim (scan_magic start_bak start end buf 28 0) [
            | some addr ↦ some addr
            | none ↦ find_magic_loop t s start_bak fuel (u32 (start + 28)) end
          ]
        ]
  ]

  unfoldable pub find_next_kv_addr : Kvdb → S → ℕ → ℕ → Option ℕ
  find_next_kv_addr t s start end =
      let at_end : Bool =
        elim (get_sector_from_cache t.sector_cache_table (align_down start t.db.sec_size)) [
          | none ↦ false
          | some sector ↦ start == sector.empty_kv
        ] in
      elim at_end [
        | true ↦ some failed_addr
        | false ↦ find_magic_loop t s start (suc (end - start)) start end
      ]

  unfoldable pub get_next_kv_addr : Kvdb → S → KvSecInfo → Kv → Option ℕ
  get_next_kv_addr t s sector pre_kv =
      let sector_end = u32 (sector.addr + t.db.sec_size) in
      let from =
        if pre_kv.crc_is_ok
        then u32 (pre_kv.start + pre_kv.len)
        else u32 (pre_kv.start + wg_align 1) in
      if store_index sector.store == store_index StoreStatus.empty
      then some failed_addr
      else if pre_kv.start == failed_addr
      then some (u32 (sector.addr + kv_sector_hdr_size))
      else elim (leb pre_kv.start sector_end) [
        | false ↦ some failed_addr
        | true ↦
            elim (find_next_kv_addr t s from (u32 (sector_end + 2 ^ 32 - kv_sector_hdr_size))) [
              | none ↦ none
              | some addr ↦ some (
                  if (addr == failed_addr) || ltb sector_end addr || (pre_kv.len == 0)
                  then failed_addr
                  else addr)
            ]
      ]
