-- ===== src/Kvdb/Pairs.antt =====
-- Reading pairs: `read_kv`, `read_sector_info`, `kv_iterator` and what finds and gets a pair, of
-- flashdb/fdb_kvdb.c.
pub mod Checksum
pub mod Layout
pub mod Stored
pub mod Kept
pub mod Lengths
pub mod Intact
use flashdb_rs.Prelude.{
  ℕ, zero, suc, ◌+◌, ◌-◌, ◌/◌, ◌%◌, ◌^◌, Bool, true, false, Option, none, some, List, ◌++◌, ◌==◌,
  ltb, leb, not, ◌&&◌, ◌||◌, if◌then◌else◌, length, take, drop, set,
}
use flashdb_rs.Prelude.Bytes.{field, sub32}
use flashdb_rs.Types.{
  FdbErr, no_err, read_err, init_failed, is_ok, KvStatus, StoreStatus, DirtyStatus, Blob, kv_index,
  kv_status, store_index, store_status, dirty_status, write_gran, failed_addr, u32, wg_align,
}
use flashdb_rs.Flash.{Driver, flash_read}
use flashdb_rs.Status.{get_status, write_status}
use flashdb_rs.Crc.{calc_crc32}
use flashdb_rs.FreeSpace.{continue_ff_addr}
use flashdb_rs.Kvdb.{
  Kv, KvSecInfo, Kvdb, kv_name_max, kv_hdr_data_size, kv_sector_hdr_size, kv_sector_magic_word,
  sector_not_combined, sector_combined, kv_status_num,
}
use flashdb_rs.Kvdb.Cache.{
  update_sector_cache, get_sector_from_cache, update_kv_cache, get_kv_from_cache, starts_with,
}
use flashdb_rs.Kvdb.Walk.{get_next_kv_addr, get_next_kv_sector_addr}

-- Bytes read into the start of a buffer.
abbrev pub overlay : List ℕ → List ℕ → List ℕ
overlay bytes buf = bytes ++ drop (length bytes) buf

module _ {S : Type 0} (d : Driver S) where
  -- The loop over the name and the value, from `len` on, 32 bytes at a time, with its rounds as
  -- fuel.
  unfoldable pub crc_data : Kvdb → S → (start crc_data_len fuel len crc : ℕ) → ℕ
  crc_data t s start crc_data_len zero len crc = crc
  crc_data t s start crc_data_len (suc fuel) len crc =
      let size = if ltb (len + 32) crc_data_len then 32 else crc_data_len - len in
      let buf =
        (flash_read d t.db.mode s (u32 (start + kv_hdr_data_size + len)) (wg_align size)).1 in
      let rest =
        crc_data t s start crc_data_len fuel (len + size) (calc_crc32 crc (take size buf)) in
      if ltb len crc_data_len then rest else crc

  -- `read_kv` once the header was read and its length found valid. Behind a right checksum the name
  -- is read in its full length: `none` where it would be written behind the end of the array, over
  -- the fields that follow it in memory.
  unfoldable pub read_kv_body : Kvdb → S → List ℕ → Kv → Option (FdbErr × Kv)
  read_kv_body t s hdr kv =
      let name_len = field 16 1 hdr in
      let crc_data_len = kv.len - kv_hdr_data_size in
      let crc = calc_crc32 (calc_crc32 0 (take 4 (drop 16 hdr))) (take 4 (drop 20 hdr)) in
      let name_addr = u32 (kv.start + kv_hdr_data_size) in
      let end = if leb kv_name_max name_len then kv_name_max - 1 else name_len in
      let read_name =
        λ (n : ℕ). overlay (flash_read d t.db.mode s name_addr (wg_align n)).1 kv.name in
      if crc_data t s kv.start crc_data_len (suc crc_data_len) 0 crc == field 12 4 hdr
      then (if ltb kv_name_max (wg_align name_len)
          then none
          else some (
            no_err,
            record kv {
              crc_is_ok = true;
              value = u32 (name_addr + wg_align name_len);
              value_len = field 20 4 hdr;
              name_len = name_len;
              name = set (read_name name_len) end 0;
            },
          ))
      else some (
        read_err,
        record kv {
          crc_is_ok = false;
          name = read_name (if ltb kv_name_max name_len then kv_name_max else name_len);
        },
      )

  -- `read_kv` of the pair at `kv.start`
  unfoldable pub read_kv : Kvdb → Kv → S → Option (FdbErr × Kv × S)
  read_kv t kv s =
      let hdr = (flash_read d t.db.mode s kv.start kv_hdr_data_size).1 in
      let status = kv_status (get_status write_gran (take 1 hdr) kv_status_num) in
      let len = field 8 4 hdr in
      let unwritten = (len == 0xffff_ffff) || ltb t.db.max_size len || ltb len kv_hdr_data_size in
      let bad = record kv {
        status = KvStatus.err_hdr;
        len = kv_hdr_data_size;
        crc_is_ok = false;
      } in
      elim unwritten [
        | false ↦ elim (read_kv_body t s hdr (record kv { status = status; len = len })) [
          | none ↦ none
          | some (e, kv) ↦ some (e, kv, s)
        ]
        | true ↦ elim (kv_index status == kv_index KvStatus.err_hdr) [
          | true ↦ some (read_err, bad, s)
          | false ↦
              let (_, s) =
                write_status d t.db.mode kv.start kv_status_num (kv_index KvStatus.err_hdr) true
                  s in
              some (read_err, bad, s)
        ]
      ]

  -- The loop of `read_sector_info` over the pairs of a sector in use, with its rounds as fuel.
  unfoldable pub traverse_kvs : Kvdb → ℕ → Kv → KvSecInfo → S → Option (FdbErr × KvSecInfo × S)
  traverse_kvs t zero kv sector s = none
  traverse_kvs t (suc fuel) kv sector s = elim (read_kv t kv s) [
    | none ↦ none
    | some (_, kv, s) ↦
        let damaged =
          not kv.crc_is_ok
          && (not (kv_index kv.status == kv_index KvStatus.pre_write)
              && not (kv_index kv.status == kv_index KvStatus.err_hdr)) in
        let counted = record sector {
          empty_kv = u32 (sector.empty_kv + kv.len);
          remain = (sector.remain + 2 ^ 64 - kv.len) % 2 ^ 64;
        } in
        elim damaged [
          | true ↦ some (read_err, record sector { remain = 0 }, s)
          | false ↦ elim (get_next_kv_addr d t s counted kv) [
            | none ↦ none
            | some next ↦ elim (next == failed_addr) [
              | true ↦ some (no_err, counted, s)
              | false ↦ traverse_kvs t fuel (record kv { start = next }) counted s
            ]
          ]
        ]
  ]
