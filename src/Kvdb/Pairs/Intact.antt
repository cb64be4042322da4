-- ===== src/Kvdb/Pairs/Intact.antt =====
-- What a right checksum after `read_kv` of flashdb/fdb_kvdb.c says of the device.
use flashdb_rs.Prelude.{
  ℕ, suc, ◌-◌, ◌≡◌, sym, ap, ◌∙◌, subst, true, Bool-cases, Option-cases, inl, inr, some, List,
  arith, take, drop, ◌==◌, ==_iff, ltb, ◌||◌,
}
use flashdb_rs.Prelude.Bytes.{field}
use flashdb_rs.Types.{FdbErr, KvStatus, kv_index, kv_status, write_gran, wg_align}
use flashdb_rs.Flash.{Driver, flash_read}
use flashdb_rs.Status.{get_status}
use flashdb_rs.Crc.{calc_crc32}
use flashdb_rs.Kvdb.{Kv, Kvdb, kv_status_num}
use flashdb_rs.Kvdb.Pairs.{crc_data, read_kv_body, read_kv}

module _ {S : Type 0} (d : Driver S) (t : Kvdb) (s : S) where
  -- The header that is read at an address.
  abbrev header_at : ℕ → List ℕ
  header_at addr = (flash_read d t.db.mode s addr 24).1

  -- The checksum of the pair at an address: of the last bytes of its header, and of its data.
  abbrev checksum_at : ℕ → List ℕ → ℕ → ℕ
  checksum_at addr hdr len =
      crc_data d t s addr (len - 24) (suc (len - 24)) 0
        (calc_crc32 (calc_crc32 0 (take 4 (drop 16 hdr))) (take 4 (drop 20 hdr)))

  -- The structure tells what the device holds at an address: the header's status and lengths, and
  -- the checksum that is stored there is that of the pair.
  pub record IsIntactAt (addr : ℕ) (kv : Kv) : Type 0 where
    pub status :
        kv.status ≡ kv_status (get_status write_gran (take 1 (header_at addr)) kv_status_num)
    pub len : kv.len ≡ field 8 4 (header_at addr)
    pub name_len : kv.name_len ≡ field 16 1 (header_at addr)
    pub value_len : kv.value_len ≡ field 20 4 (header_at addr)
    pub checksum : checksum_at addr (header_at addr) kv.len ≡ field 12 4 (header_at addr)

  abbrev pub IsIntact : Kv → Type 0
  IsIntact kv = IsIntactAt kv.start kv

  read_kv_body-checked :
      (hdr : List ℕ) (kv : Kv) (e : FdbErr) (kv2 : Kv)
      → read_kv_body d t s hdr kv ≡ some (e, kv2)
      → kv2.crc_is_ok ≡ true
      → (checksum_at kv.start hdr kv.len ≡ field 12 4 hdr)
        × (kv2.start ≡ kv.start)
        × (kv2.status ≡ kv.status)
        × (kv2.len ≡ kv.len)
        × (kv2.name_len ≡ field 16 1 hdr)
        × (kv2.value_len ≡ field 20 4 hdr)
  unfolding read_kv_body
  read_kv_body-checked hdr kv e kv2 h ok =
      let crc = checksum_at kv.start hdr kv.len in
      elim (Bool-cases (crc == field 12 4 hdr)) [
        | inr wrong ↦ absurd (ground arith)
        | inl right ↦ elim (Bool-cases (ltb 64 (wg_align (field 16 1 hdr)))) [
          | inl long ↦ absurd (ground arith)
          | inr short ↦ (
            (==_iff crc (field 12 4 hdr)).0 right,
            ground arith,
            ground arith,
            ground arith,
            ground arith,
            ground arith,
          )
        ]
      ]

  pub read_kv-IsIntact :
      (kv : Kv) (e : FdbErr) (kv2 : Kv) (s2 : S)
      → read_kv d t kv s ≡ some (e, kv2, s2)
      → kv2.crc_is_ok ≡ true
      → (s2 ≡ s) × IsIntact kv2
  unfolding read_kv
  read_kv-IsIntact kv e kv2 s2 run ok =
      let hdr = header_at kv.start in
      let len = field 8 4 hdr in
      let status = kv_status (get_status write_gran (take 1 hdr) kv_status_num) in
      let kv1 : Kv = record kv { status = status; len = len } in
      elim (Bool-cases ((len == 0xffff_ffff) || ltb t.db.max_size len || ltb len 24)) [
        | inr good ↦ elim (Option-cases (read_kv_body d t s hdr kv1)) [
          | inl out ↦ absurd (ground arith)
          | inr ((e1, kv3), body) ↦
              let is : kv2 ≡ kv3 = ground arith in
              let ok3 : kv3.crc_is_ok ≡ true = ground arith in
              let (crc, at, st, ln, name, value) = read_kv_body-checked hdr kv1 e1 kv3 body ok3 in
              let intact : IsIntactAt kv.start kv3 = record {
                status = st;
                len = ln;
                name_len = name;
                value_len = value;
                checksum = ap (checksum_at kv.start hdr) ln ∙ crc;
              } in
              (
                ground arith,
                subst IsIntact (sym is) (subst (λ a. IsIntactAt a kv3) (sym at) intact),
              )
        ]
        | inl bad ↦ elim (Bool-cases (kv_index status == kv_index KvStatus.err_hdr)) [
          | inl marked ↦ absurd (ground arith)
          | inr fresh ↦ absurd (ground arith)
        ]
      ]
