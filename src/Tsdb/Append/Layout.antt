-- ===== src/Tsdb/Append/Layout.antt =====
-- The layout of a sector of flashdb/fdb_tsdb.c: the index grows from the header up, the logs from
-- the end down, and `remain` is what lies between. A sector that is entered has it whole.
use flashdb_rs.Prelude.{
  ℕ, ◌+◌, ◌-◌, ◌*◌, ◌%◌, ◌^◌, ◌≤◌, ◌<◌, ◌≡◌, refl, sym, ap, ◌∙◌, subst, ◌⊎◌, inl, inr, false,
  Bool-cases, Option-cases, some, arith, ltb, ◌==◌, if◌then◌else◌,
}
use flashdb_rs.Prelude.Bytes.{sub32}
use flashdb_rs.Types.{FdbErr, custom, store_index, u32}
use flashdb_rs.Flash.{Driver}
use flashdb_rs.Flash.Nor.{IsNor}
use flashdb_rs.Tsdb.{Tsdb, SecInfo}
use flashdb_rs.Tsdb.Walk.Ring.{IsRing}
use flashdb_rs.Tsdb.Sector.{read_sector_info, clear_counts, read_end_info}
use flashdb_rs.Tsdb.Sector.Format.{fresh_info, format_sector-read_sector_info}
use flashdb_rs.Tsdb.Append.{enter_sector}

-- The sector lies in the database; its counts agree; it is in use, full, or empty and whole.
pub record IsLaid (sec_size max_size : ℕ) (sector : SecInfo) : Type 0 where
  pub aligned : sector.addr % sec_size ≡ 0
  pub inside : sector.addr < max_size
  pub low : sector.addr + 56 ≤ sector.empty_idx
  pub mid : sector.empty_idx + sector.remain ≡ sector.empty_data
  pub high : sector.empty_data ≤ sector.addr + sec_size
  pub usable :
      ((store_index sector.status ≡ 1) × (sector.remain ≡ sec_size - 56))
      ⊎ (store_index sector.status ≡ 2)
      ⊎ (store_index sector.status ≡ 3)

-- A database on a device of `cap` bytes whose sectors can hold a log of `max_len` bytes. (The code
-- checks only that `max_len` is below the sector's size.)
pub record IsSized (t : Tsdb) (n cap : ℕ) : Type 0 where
  pub ring : IsRing t.db n
  pub mode : t.db.mode ≡ custom
  pub holds : t.max_len + 80 ≤ t.db.sec_size
  pub fits : t.db.max_size ≤ cap
  pub small : cap < 2 ^ 32

sector_end : (a sec n : ℕ) → 0 < sec → a % sec ≡ 0 → a < n * sec → a + sec ≤ n * sec
sector_end a sec n p h k = grind arith

fresh-IsLaid :
    (a sec_size max_size : ℕ) (sector : SecInfo)
    → 56 ≤ sec_size
    → a % sec_size ≡ 0
    → a < max_size
    → sector.addr ≡ a
    → sector.empty_idx ≡ a + 56
    → sector.empty_data ≡ a + sec_size
    → sector.remain ≡ sec_size - 56
    → store_index sector.status ≡ 1
    → IsLaid sec_size max_size sector
fresh-IsLaid a sec_size max_size sector h al ins ha hi hd hr hs = record {
  aligned = ap (λ x. x % sec_size) ha ∙ al;
  inside = omega arith;
  low = omega arith;
  mid = omega arith;
  high = omega arith;
  usable = inl (hs, hr);
}

module _ {S : Type 0} (d : Driver S) where
  -- What a sector's header gives when it is read as empty.
  read_sector_info-empty :
      (t : Tsdb) (s : S) (a : ℕ) (sector : SecInfo) (e : FdbErr) (out : SecInfo)
      → read_sector_info d t s a sector false ≡ some (e, out)
      → store_index sector.status ≡ 3
      → store_index out.status ≡ 1
      → (out.addr ≡ a)
        × (out.empty_idx ≡ u32 (a + 56))
        × (out.empty_data ≡ u32 (a + t.db.sec_size))
        × (out.remain ≡ sub32 (u32 (a + t.db.sec_size)) (u32 (a + 56)))
  unfolding read_sector_info clear_counts read_end_info
  read_sector_info-empty t s a sector e out h k l =
      (ground arith, ground arith, ground arith, ground arith)

module _ {S : Type 0} (d : Driver S) (view : S → ℕ → ℕ) {cap : ℕ} (nor : IsNor d view cap) where
  -- The next sector is entered whole.
  pub enter_sector-IsLaid :
      (t : Tsdb) (n a : ℕ) (s : S) (e : FdbErr) (t2 : Tsdb) (s2 : S)
      → IsSized t n cap
      → a % t.db.sec_size ≡ 0
      → a < t.db.max_size
      → store_index t.cur_sec.status ≡ 3
      → enter_sector d t a s ≡ some (e, t2, s2)
      → IsLaid t.db.sec_size t.db.max_size t2.cur_sec × (store_index t2.cur_sec.status ≡ 1)
  unfolding enter_sector
  enter_sector-IsLaid t n a s e t2 s2 sized al ins full h =
      let sec = t.db.sec_size in
      let holds = sized.holds in
      let small = sized.small in
      let fits = sized.fits in
      let end : a + sec ≤ t.db.max_size =
        subst (λ m. a + sec ≤ m) (sym sized.ring.whole)
          (sector_end a sec n sized.ring.sec_pos al (subst (λ m. a < m) sized.ring.whole ins)) in
      elim (Option-cases (read_sector_info d t s a t.cur_sec false)) [
        | inl stopped ↦ absurd (ground arith)
        | inr ((e1, sec1), f) ↦ elim (Bool-cases (store_index sec1.status == 1)) [
          | inl empty ↦
              let same : t2.cur_sec ≡ sec1 = ground arith in
              let empty : store_index sec1.status ≡ 1 = ground arith in
              let (xa, xi, xd, xr) =
                read_sector_info-empty d t s a t.cur_sec e1 sec1 f full empty in
              subst (λ x. IsLaid sec t.db.max_size x × (store_index x.status ≡ 1)) (sym same)
                (
                  fresh-IsLaid a sec t.db.max_size sec1 (omega arith) al ins xa (omega arith)
                      (omega arith) (omega arith) empty,
                  empty,
                )
          | inr filled ↦
              let after = u32 (a + sec) in
              let t1 : Tsdb = record t {
                cur_sec = sec1;
                db = record (t.db) { oldest_addr = if ltb after t.db.max_size then after else 0 };
              } in
              let (s1, fmt, read, clean, kept) =
                format_sector-read_sector_info d view nor s t1 a sized.mode (omega arith)
                  (omega arith) small al in
              let again = read sec1 false in
              let same : t2.cur_sec ≡ fresh_info a sec sec1 = ground arith in
              subst (λ x. IsLaid sec t.db.max_size x × (store_index x.status ≡ 1)) (sym same)
                (
                  fresh-IsLaid a sec t.db.max_size (fresh_info a sec sec1) (omega arith) al ins refl
                      refl refl refl refl,
                  refl,
                )
        ]
      ]
