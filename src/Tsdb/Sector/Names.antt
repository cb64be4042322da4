-- ===== src/Tsdb/Sector/Names.antt =====
-- A sector that `read_sector_info` of flashdb/fdb_tsdb.c has read carries the address that it was
-- read at.
use flashdb_rs.Prelude.{
  ℕ, zero, suc, ◌+◌, ◌≡◌, refl, Bool, true, false, Option, none, some, List, ◌&&◌, ◌==◌, ltb,
  Bool-cases, inl, inr, Option-cases, arith,
}
use flashdb_rs.Types.{FdbErr, no_err, store_index, StoreStatus, TslStatus, tsl_index, wg_align}
use flashdb_rs.Prelude.Bytes.{field}
use flashdb_rs.Flash.{Driver, flash_read}
use flashdb_rs.Tsdb.{
  SecInfo, Tsdb, log_idx_data_size, sector_hdr_data_size, sector_magic_offset, sector_magic_word,
}
use flashdb_rs.Tsdb.Sector.{
  read_end_info, read_tsl, count_tsl, clear_counts, traverse, read_sector_info,
}

-- A result that names the sector at `addr`.
abbrev pub Names : ℕ → Option (FdbErr × SecInfo) → Type 0
Names addr none = Unit {0}
Names addr (some (e, sector)) = sector.addr ≡ addr

abbrev pub NamesInfo : ℕ → Option SecInfo → Type 0
NamesInfo addr none = Unit {0}
NamesInfo addr (some sector) = sector.addr ≡ addr

read_end_info-addr :
    (buf : List ℕ) (sector out : SecInfo)
    → read_end_info buf sector ≡ some out
    → out.addr ≡ sector.addr
unfolding read_end_info
read_end_info-addr buf sector out h = ground arith

read_end_info-Names :
    (buf : List ℕ) (sector : SecInfo) → NamesInfo sector.addr (read_end_info buf sector)
unfolding read_end_info
read_end_info-Names buf sector = elim (Option-cases (read_end_info buf sector)) [
  | inl e ↦ rw e tt
  | inr (out, e) ↦ rw e (read_end_info-addr buf sector out e)
]

module _ {S : Type 0} (d : Driver S) (t : Tsdb) (s : S) where
  traverse-Names :
      (fuel index addr : ℕ) (sector : SecInfo)
      → sector.addr ≡ addr
      → Names addr (traverse d t s fuel index sector)
  unfolding traverse count_tsl
  traverse-Names zero index addr sector e = tt
  traverse-Names (suc fuel) index addr sector e =
      let tsl = read_tsl d t s index in
      elim (Bool-cases (tsl_index tsl.status == tsl_index TslStatus.unused)) [
        | inl unused ↦ rw (unused, traverse) e
        | inr more ↦
            elim (Bool-cases (ltb (log_idx_data_size + wg_align tsl.log_len) sector.remain)) [
              | inl fits ↦ rw (more, traverse, fits) (traverse-Names fuel _ addr _ e)
              | inr out ↦ rw (more, traverse, out) e
            ]
      ]

  -- A sector is named by the address that it was read at.
  pub read_sector_info-Names :
      (addr : ℕ) (sector : SecInfo) (traversal : Bool)
      → Names addr (read_sector_info d t s addr sector traversal)
  unfolding read_sector_info clear_counts
  read_sector_info-Names addr sector traversal =
      let buf = (flash_read d t.db.mode s addr sector_hdr_data_size).1 in
      elim (Bool-cases (field sector_magic_offset 4 buf == sector_magic_word)) [
        | inr bad ↦ rw (bad, read_sector_info) refl
        | inl good ↦
            rw (good, read_sector_info) (go (read_end_info buf _) (read_end_info-Names buf _))
      ]
    where
      go :
          (o : Option SecInfo)
          → NamesInfo addr o
          → Names addr (elim o [
            | none ↦ none
            | some sector ↦
                let sector = clear_counts t.db.sec_size sector in
                elim ((store_index sector.status == store_index StoreStatus.using) && traversal) [
                  | false ↦ some (no_err, sector)
                  | true ↦ traverse d t s (suc sector.remain) sector.empty_idx sector
                ]
          ])
      go none h = tt
      go (some out) h =
          elim (Bool-cases
            ((store_index out.status == store_index StoreStatus.using) && traversal)) [
              | inl b ↦ rw b (traverse-Names _ _ addr _ h)
              | inr b ↦ rw b h
            ]
