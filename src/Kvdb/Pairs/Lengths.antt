-- ===== src/Kvdb/Pairs/Lengths.antt =====
-- The length that `read_kv` of flashdb/fdb_kvdb.c leaves in the structure.
use flashdb_rs.Prelude.{
  ℕ, ◌≤◌, ◌≡◌, ◌∙◌, ap, Option-cases, some, Bool-cases, inl, inr, List, arith, take, ◌==◌, ltb,
  ◌||◌,
}
use flashdb_rs.Prelude.Bytes.{field}
use flashdb_rs.Types.{FdbErr, Db, KvStatus, kv_index, kv_status, write_gran}
use flashdb_rs.Flash.{Driver, flash_read}
use flashdb_rs.Status.{get_status}
use flashdb_rs.Kvdb.{Kv, Kvdb, kv_status_num}
use flashdb_rs.Kvdb.Pairs.{read_kv_body, read_kv}

-- `P` is a property of the device's states in which `read_kv` stays inside of the structure: no pair
-- with a right checksum has a name longer than the array. Reading a pair, which may mark its header
-- as wrong, keeps it.
abbrev pub AreShort : {S : Type 0} → Driver S → Db → (S → Type 0) → Type 0
AreShort {S} d db P =
    (t : Kvdb) (kv : Kv) (s : S)
    → t.db ≡ db
    → P s
    → (e : FdbErr) × (kv2 : Kv) × (s2 : S) × (read_kv d t kv s ≡ some (e, kv2, s2)) × P s2

module _ {S : Type 0} (d : Driver S) (t : Kvdb) (s : S) where
  -- Between the header's length and the database's size; the pair stays where it is.
  abbrev pub HasLength : Kv → Kv → Type 0
  HasLength kv kv2 = (kv2.start ≡ kv.start) × (24 ≤ kv2.len) × (kv2.len ≤ t.db.max_size)

  read_kv_body-keeps :
      (hdr : List ℕ) (kv : Kv) (e : FdbErr) (kv2 : Kv)
      → read_kv_body d t s hdr kv ≡ some (e, kv2)
      → (kv2.start ≡ kv.start) × (kv2.len ≡ kv.len)
  unfolding read_kv_body
  read_kv_body-keeps hdr kv e kv2 h = (ground arith, ground arith)

  pub read_kv-HasLength :
      (kv : Kv) (e : FdbErr) (kv2 : Kv) (s2 : S)
      → 24 ≤ t.db.max_size
      → read_kv d t kv s ≡ some (e, kv2, s2)
      → HasLength kv kv2
  unfolding read_kv
  read_kv-HasLength kv e kv2 s2 h run =
      let hdr = (flash_read d t.db.mode s kv.start 24).1 in
      let len = field 8 4 hdr in
      let status = kv_status (get_status write_gran (take 1 hdr) kv_status_num) in
      let kv1 : Kv = record kv { status = status; len = len } in
      elim (Bool-cases ((len == 0xffff_ffff) || ltb t.db.max_size len || ltb len 24)) [
        | inr good ↦ elim (Option-cases (read_kv_body d t s hdr kv1)) [
          | inl out ↦ absurd (ground arith)
          | inr ((e1, kv3), body) ↦
              let (at, same) = read_kv_body-keeps hdr kv1 e1 kv3 body in
              let is : kv2 ≡ kv3 = ground arith in
              (ap (λ (x : Kv). x.start) is ∙ at, ground arith, ground arith)
        ]
        | inl bad ↦ elim (Bool-cases (kv_index status == kv_index KvStatus.err_hdr)) [
          | inl marked ↦ (ground arith, ground arith, ground arith)
          | inr fresh ↦ (ground arith, ground arith, ground arith)
        ]
      ]
