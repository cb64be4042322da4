-- ===== src/Kvdb/Create.antt =====
-- Writing a new pair: `write_kv_hdr`, `align_write` and `create_kv_blob` of flashdb/fdb_kvdb.c.
pub mod Written
pub mod Effects
pub mod Created
pub mod ReadBack
pub mod Found
use flashdb_rs.Prelude.{
  ℕ, zero, suc, ◌+◌, ◌-◌, ◌/◌, Bool, true, false, Option, some, List, [], ◌∷◌, ◌++◌, ◌==◌, ltb,
  ◌&&◌, if◌then◌else◌, length, take, drop, replicate, ◌>>=◌,
}
use flashdb_rs.Prelude.Bytes.{le_bytes, sub32}
use flashdb_rs.Types.{
  FdbErr, kv_name_err, saved_full, is_ok, KvStatus, StorageType, kv_index, bits, write_gran,
  byte_erased, failed_addr, u32, wg_align, wg_align_down,
}
use flashdb_rs.Flash.{Driver, Step, ◌>>◌, done, flash_write}
use flashdb_rs.Status.{write_status}
use flashdb_rs.Crc.{calc_crc32}
use flashdb_rs.Kvdb.{
  Kv, KvSecInfo, Kvdb, kv_name_max, kv_magic_word, kv_hdr_data_size, kv_sector_hdr_size,
  kv_magic_offset, kv_status_num,
}
use flashdb_rs.Kvdb.Cache.{update_kv_cache, update_sector_empty_addr_cache}
use flashdb_rs.Kvdb.Alloc.{update_kv_sec_status}
use flashdb_rs.Kvdb.Gc.{new_kv}

-- The fields of `struct kv_hdr_data` that `create_kv_blob` sets, but for the magic word.
pub record KvHdr : Type 0 where
  pub len : ℕ
  pub crc32 : ℕ
  pub name_len : ℕ
  pub value_len : ℕ

-- `name_len` and the padding behind it, which `memset` has filled.
abbrev pub name_len_bytes : ℕ → List ℕ
name_len_bytes name_len = name_len ∷ replicate 3 byte_erased

-- The structure from the magic word on.
abbrev pub kv_hdr_bytes : KvHdr → List ℕ
kv_hdr_bytes hdr =
    le_bytes 4 kv_magic_word
    ++ (le_bytes 4 hdr.len
        ++ (le_bytes 4 hdr.crc32 ++ (name_len_bytes hdr.name_len ++ le_bytes 4 hdr.value_len)))

-- `while (align_remain--)`
unfoldable pub crc_padding : ℕ → ℕ → ℕ
crc_padding zero crc = crc
crc_padding (suc n) crc = crc_padding n (calc_crc32 crc (byte_erased ∷ []))

-- The checksum of a new pair.
unfoldable pub kv_crc32 : List ℕ → List ℕ → ℕ → ℕ → ℕ
kv_crc32 key value name_len value_len =
    let head = calc_crc32 (calc_crc32 0 (name_len_bytes name_len)) (le_bytes 4 value_len) in
    let named = crc_padding (wg_align name_len - name_len) (calc_crc32 head (take name_len key)) in
    crc_padding (wg_align value_len - value_len) (calc_crc32 named (take value_len value))

-- What `create_kv_blob` tells the caches of a new pair.
unfoldable pub cache_pair : ℕ → List ℕ → KvHdr → ℕ → Bool → Kvdb → Kvdb
cache_pair sec_addr key hdr kv_addr is_full t =
    let end = u32 (kv_addr + kv_hdr_data_size + wg_align hdr.name_len + wg_align hdr.value_len) in
    let told = if is_full then t else update_sector_empty_addr_cache t sec_addr end in
    record told { kv_cache_table = update_kv_cache told.kv_cache_table key kv_addr }

module _ {S : Type 0} (d : Driver S) where
  unfoldable pub write_kv_hdr : StorageType → ℕ → KvHdr → Step S
  write_kv_hdr mode addr hdr =
      write_status d mode addr kv_status_num (kv_index KvStatus.pre_write) false
      >> flash_write d mode (u32 (addr + kv_magic_offset)) (kv_hdr_bytes hdr) false

  -- `align_write`: what is left over goes into one erased unit of the write granularity.
  unfoldable pub align_write : StorageType → ℕ → List ℕ → ℕ → Step S
  align_write mode addr buf size =
      let down = wg_align_down size in
      let align_remain = size - down in
      let unit = if ltb 0 (bits write_gran / 8) then bits write_gran / 8 else 1 in
      let rest = take align_remain (drop down buf) ++ replicate (unit - align_remain) byte_erased in
      flash_write d mode addr (take down buf) false
      >> (if align_remain == 0 then done else flash_write d mode (u32 (addr + down)) rest false)

  -- The header, the name, the value and the last status of a new pair; in between, what the caches
  -- are told of it.
  unfoldable pub write_pair : ℕ → List ℕ → List ℕ → KvHdr → ℕ → Bool → Kvdb → S → FdbErr × Kvdb × S
  write_pair sec_addr key value hdr kv_addr is_full t s =
      let mode = t.db.mode in
      let name_addr = u32 (kv_addr + kv_hdr_data_size) in
      let value_addr = u32 (name_addr + wg_align hdr.name_len) in
      let (e, s) = write_kv_hdr mode kv_addr hdr s in
      elim (is_ok e) [
        | false ↦ (e, t, s)
        | true ↦
            let (e, s) =
              (align_write mode name_addr key hdr.name_len
                  >> align_write mode value_addr value hdr.value_len
                  >> write_status d mode kv_addr kv_status_num (kv_index KvStatus.write) true)
                s in
            (e, cache_pair sec_addr key hdr kv_addr is_full t, s)
      ]

  -- A new pair at an address, in a sector whose status is brought up to date first.
  unfoldable pub create_at : KvSecInfo → List ℕ → List ℕ → KvHdr → ℕ → Kvdb → S → FdbErr × Kvdb × S
  create_at sector key value hdr kv_addr t s =
      let (e, is_full, t, s) = update_kv_sec_status d sector hdr.len false t s in
      let crc = kv_crc32 key value hdr.name_len hdr.value_len in
      elim (is_ok e) [
        | false ↦ (e, t, s)
        | true ↦
            let (e, t, s) =
              write_pair sector.addr key value (record hdr { crc32 = crc }) kv_addr is_full t s in
            (e, (if is_ok e && is_full then record t { gc_request = true } else t), s)
      ]

  -- What the local structures hold before they are written.
  module _ (local_sector : KvSecInfo) (local_kv : Kv) where
    -- `create_kv_blob`; the sector is the structure behind the pointer.
    unfoldable pub create_kv_blob :
        KvSecInfo → List ℕ → List ℕ → ℕ → Kvdb → S → Option (FdbErr × KvSecInfo × Kvdb × S)
    create_kv_blob sector key value len t s =
        let name_len = length key in
        let value_len = u32 len in
        let hdr : KvHdr = record {
          len = u32 (kv_hdr_data_size + wg_align name_len + wg_align value_len);
          crc32 = 0;
          name_len = name_len;
          value_len = value_len;
        } in
        elim (ltb kv_name_max name_len) [
          | true ↦ some (kv_name_err, sector, t, s)
          | false ↦ elim (ltb (sub32 t.db.sec_size kv_sector_hdr_size) hdr.len) [
            | true ↦ some (saved_full, sector, t, s)
            | false ↦ do
              (kv_addr, sector, t, s) ←
                  if sector.empty_kv == failed_addr
                  then new_kv d local_sector local_kv sector hdr.len t s
                  else some (sector.empty_kv, sector, t, s)
              let (e, t, s) =
                  if kv_addr == failed_addr
                  then (saved_full, t, s)
                  else create_at sector key value hdr kv_addr t s
              some (e, sector, t, s)
          ]
        ]
