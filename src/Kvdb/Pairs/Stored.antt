-- ===== src/Kvdb/Pairs/Stored.antt =====
-- `read_kv` of flashdb/fdb_kvdb.c on a pair as it lies on the device.
use flashdb_rs.Prelude.{
  ℕ, suc, ◌+◌, ◌-◌, ◌≤◌, ◌≡◌, refl, sym, ap, ap₂, ◌∙◌, Bool, true, List, [], ◌∷◌, ◌++◌, arith, leb,
  ltb, ◌||◌, ◌==◌, ==_iff, if◌then◌else◌, false, length, take, drop, set, Option, none, some,
}
use flashdb_rs.Prelude.Bytes.{field, le_bytes, le_value, le_value-le_bytes4}
use flashdb_rs.Types.{FdbErr, no_err, KvStatus, kv_index, kv_status, write_gran, u32, wg_align}
use flashdb_rs.Flash.{Driver, flash_read}
use flashdb_rs.Flash.Nor.{slice, IsNor}
use flashdb_rs.Flash.Effects.{flash_read-slice}
use flashdb_rs.Flash.Slices.{field-slice}
use flashdb_rs.Status.{get_status, count_unwritten, is_written}
use flashdb_rs.Status.Effects.{status_byte}
use flashdb_rs.Crc.{calc_crc32}
use flashdb_rs.Crc.Range.{calc_crc32-lt}
use flashdb_rs.Crc.Reference.{calc_crc32-append}
use flashdb_rs.Kvdb.{Kv, Kvdb, kv_status_num}
use flashdb_rs.Kvdb.Pairs.{overlay, crc_data, read_kv_body, read_kv}
use flashdb_rs.Kvdb.Pairs.Checksum.{slice-append, crc_data-calc_crc32}
use flashdb_rs.Kvdb.Pairs.Layout.{pair_crc, pair_hdr, IsStored, Fits, stored_kv}

kv_status-status_byte :
    (st : KvStatus)
    → kv_status (get_status write_gran (status_byte (kv_index st) ∷ []) kv_status_num) ≡ st
unfolding get_status count_unwritten is_written
kv_status-status_byte KvStatus.unused = refl
kv_status-status_byte KvStatus.pre_write = refl
kv_status-status_byte KvStatus.write = refl
kv_status-status_byte KvStatus.pre_delete = refl
kv_status-status_byte KvStatus.deleted = refl
kv_status-status_byte KvStatus.err_hdr = refl

module _ (m : ℕ → ℕ) (a : ℕ) (st : KvStatus) (key value : List ℕ)
    (stored : IsStored m a st key value) where
  abbrev buf : List ℕ
  buf = slice m a 24

  hdr-part :
      (o n : ℕ) → o + n ≤ 20 → take n (drop (4 + o) buf) ≡ take n (drop o (pair_hdr key value))
  hdr-part o n h =
      let e : a + (4 + o) ≡ a + 4 + o = omega arith in
      field-slice m a (4 + o) n 24 (omega arith)
      ∙ ap (λ x. slice m x n) e
      ∙ sym (field-slice m (a + 4) o n 20 h)
      ∙ ap (λ l. take n (drop o l)) stored.hdr

  -- The key and the value are what follows the header.
  data-slice : slice m (a + 24) (length key + length value) ≡ key ++ value
  data-slice =
      sym (slice-append m (a + 24) (length key) (length value)) ∙ ap₂ ◌++◌ stored.name stored.bytes

  crc-parts :
      calc_crc32
        (calc_crc32 (calc_crc32 0 (take 4 (drop 16 buf))) (take 4 (drop 20 buf)))
        (slice m (a + 24) (length key + length value))
      ≡ pair_crc key value
  crc-parts =
      let p = hdr-part 12 4 (omega arith) in
      let q = hdr-part 16 4 (omega arith) in
      let nb = length key ∷ 0xff ∷ 0xff ∷ 0xff ∷ [] in
      let vb = le_bytes 4 (length value) in
      ap₂
        (λ x y.
          calc_crc32 (calc_crc32 (calc_crc32 0 x) y) (slice m (a + 24) (length key + length value)))
        p q
      ∙ ap (calc_crc32 (calc_crc32 (calc_crc32 0 nb) vb)) data-slice
      ∙ calc_crc32-append (calc_crc32 0 nb) vb (key ++ value)
      ∙ calc_crc32-append 0 nb (vb ++ (key ++ value))

-- The checks of `read_kv_body` passed, on a header of which the fields are known.
module _ {S : Type 0} (d : Driver S) (t : Kvdb) (s : S) (hdr : List ℕ) (kv : Kv) where
  abbrev crc_of : ℕ
  crc_of =
      crc_data d t s kv.start (kv.len - 24) (suc (kv.len - 24)) 0
        (calc_crc32 (calc_crc32 0 (take 4 (drop 16 hdr))) (take 4 (drop 20 hdr)))

  read_kv_body-intact :
      (name_len value_len : ℕ)
      → crc_of ≡ field 12 4 hdr
      → field 16 1 hdr ≡ name_len
      → field 20 4 hdr ≡ value_len
      → name_len ≤ 64
      → read_kv_body d t s hdr kv
        ≡ some (
          no_err,
          record kv {
            crc_is_ok = true;
            value = u32 (u32 (kv.start + 24) + wg_align name_len);
            value_len = value_len;
            name_len = name_len;
            name =
                set
                  (overlay
                    (flash_read d t.db.mode s (u32 (kv.start + 24)) (wg_align name_len)).1
                    kv.name)
                  (if leb 64 name_len then 63 else name_len)
                  0;
          },
        )
  unfolding read_kv_body
  read_kv_body-intact name_len value_len h n v short =
      let e = (==_iff crc_of (field 12 4 hdr)).1 h in
      let fits : ltb 64 (wg_align name_len) ≡ false = ground arith in
      rw (e, n, v, read_kv_body, fits)

-- The test of a pair's length.
abbrev is_bad_len : Kvdb → ℕ → Bool
is_bad_len t len = (len == 0xffff_ffff) || ltb t.db.max_size len || ltb len 24

-- What `read_kv` returns of what its last part does.
abbrev returned : {S : Type 0} → S → Option (FdbErr × Kv) → Option (FdbErr × Kv × S)
returned s r = elim r [ none ↦ none | some (e, kv) ↦ some (e, kv, s) ]

-- A header with a length that may be.
module _ {S : Type 0} (d : Driver S) (t : Kvdb) (s : S) (kv : Kv) where
  abbrev header : List ℕ
  header = (flash_read d t.db.mode s kv.start 24).1

  abbrev header_status : List ℕ → KvStatus
  header_status hdr = kv_status (get_status write_gran (take 1 hdr) kv_status_num)

  -- `read_kv` behind a header that is in order.
  abbrev with_body : List ℕ → KvStatus → ℕ → Option (FdbErr × Kv × S)
  with_body hdr st len = returned s (read_kv_body d t s hdr (record kv { status = st; len = len }))

  read_kv-header :
      is_bad_len t (field 8 4 header) ≡ false
      → read_kv d t kv s ≡ with_body header (header_status header) (field 8 4 header)
  unfolding read_kv
  read_kv-header h = rw (h, read_kv)

module _ {S : Type 0} (d : Driver S) (view : S → ℕ → ℕ) {cap : ℕ} (nor : IsNor d view cap)
    (t : Kvdb) (s : S) (kv : Kv) (st : KvStatus) (key value : List ℕ)
    (fits : Fits cap t kv.start key value) (stored : IsStored (view s) kv.start st key value) where
  abbrev total : ℕ
  total = length key + length value

  abbrev begun : Kv
  begun = record kv { status = st; len = 24 + length key + length value }

  read_slice :
      (addr n : ℕ) → addr + n ≤ cap → (flash_read d t.db.mode s addr n).1 ≡ slice (view s) addr n
  read_slice addr n h =
      ap (λ mode. (flash_read d mode s addr n).1) fits.mode
      ∙ ap (λ r. r.1) (flash_read-slice d view nor addr n s (view s) refl h)

  good_len : is_bad_len t (24 + length key + length value) ≡ false
  good_len = let a = fits.inside in let b = fits.small in let c = fits.whole in ground arith

  crc-intact :
      (hdr : List ℕ) → hdr ≡ slice (view s) kv.start 24 → crc_of d t s hdr begun ≡ field 12 4 hdr
  crc-intact hdr e =
      let a = fits.inside in
      let b = fits.small in
      let n : 24 + length key + length value - 24 ≡ total = omega arith in
      let head = calc_crc32 (calc_crc32 0 (take 4 (drop 16 hdr))) (take 4 (drop 20 hdr)) in
      ap (λ k. crc_data d t s kv.start k (suc k) 0 head) n
      ∙ crc_data-calc_crc32 d view nor t s kv.start total fits.mode (omega arith) (omega arith) head
      ∙ ap
          (λ h.
            calc_crc32 (calc_crc32 (calc_crc32 0 (take 4 (drop 16 h))) (take 4 (drop 20 h)))
              (slice (view s) (kv.start + 24) total))
          e
      ∙ crc-parts (view s) kv.start st key value stored
      ∙ sym (
          ap (field 12 4) e
          ∙ ap le_value (hdr-part (view s) kv.start st key value stored 8 4 (omega arith))
          ∙ le_value-le_bytes4 (pair_crc key value) (calc_crc32-lt 0 _ (omega arith)))

  -- On a device that behaves like NOR flash, `read_kv` of a pair as it lies on the device gives its
  -- status, its key, its value's length and address, and a right checksum.
  pub read_kv-IsStored : read_kv d t kv s ≡ some (no_err, stored_kv kv st key value, s)
  read_kv-IsStored =
      let a = fits.inside in
      let b = fits.small in
      let short = fits.short in
      let m = view s in
      let n = length key in
      let v = length value in
      let hdr = header d t s kv in
      let e : hdr ≡ slice m kv.start 24 = read_slice kv.start 24 (omega arith) in
      let word =
        λ (o x : ℕ) (h : 4 + o + 4 ≤ 24) (p : le_value (take 4 (drop o (pair_hdr key value))) ≡ x).
          ap (field (4 + o) 4) e
          ∙ ap le_value (hdr-part m kv.start st key value stored o 4 (omega arith))
          ∙ p in
      let len : field 8 4 hdr ≡ 24 + n + v =
        word 4 (24 + n + v) (omega arith) (le_value-le_bytes4 (24 + n + v) (omega arith)) in
      let value_len : field 20 4 hdr ≡ v =
        word 16 v (omega arith) (le_value-le_bytes4 v (omega arith)) in
      let name_len : field 16 1 hdr ≡ n =
        ap (field 16 1) e
        ∙ ap le_value (hdr-part m kv.start st key value stored 12 1 (omega arith))
        ∙ omega arith in
      let status : header_status d t s kv hdr ≡ st =
        ap (header_status d t s kv) e
        ∙ ap (λ x. kv_status (get_status write_gran (x ∷ []) kv_status_num)) stored.marked
        ∙ kv_status-status_byte st in
      let name_addr : u32 (kv.start + 24) ≡ kv.start + 24 = omega arith in
      let name_size : wg_align n ≡ n = omega arith in
      let name : (flash_read d t.db.mode s (u32 (kv.start + 24)) (wg_align n)).1 ≡ key =
        ap₂ (λ x y. (flash_read d t.db.mode s x y).1) name_addr name_size
        ∙ read_slice (kv.start + 24) n (omega arith)
        ∙ stored.name in
      let value_addr : u32 (u32 (kv.start + 24) + wg_align n) ≡ kv.start + 24 + n = omega arith in
      read_kv-header d t s kv (ap (is_bad_len t) len ∙ good_len)
      ∙ ap₂ (with_body d t s kv hdr) status len
      ∙ ap (returned s)
          (read_kv_body-intact d t s hdr begun n v (crc-intact hdr e) name_len value_len short)
      ∙ ap₂
          (λ (x : ℕ) (y : List ℕ). some (
            no_err,
            record kv {
              status = st;
              len = 24 + n + v;
              crc_is_ok = true;
              value = x;
              value_len = v;
              name_len = n;
              name = set (overlay y kv.name) (if leb 64 n then 63 else n) 0;
            },
            s,
          ))
          value_addr name
