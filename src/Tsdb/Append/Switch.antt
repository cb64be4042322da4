-- ===== src/Tsdb/Append/Switch.antt =====
-- The sector that `update_sec_status` of flashdb/fdb_tsdb.c leaves as the current one: it is laid
-- out in order, and has room for the log where there is no error.
use flashdb_rs.Prelude.{
  ℕ, ◌+◌, ◌%◌, ◌≤◌, ◌<◌, ◌≡◌, refl, sym, subst, ◌⊎◌, inl, inr, true, false, Bool-cases, some, arith,
  ltb, ◌==◌, ◌&&◌,
}
use flashdb_rs.Types.{FdbErr, is_ok, Blob, StoreStatus, store_index, u32, wg_align}
use flashdb_rs.Flash.{Driver}
use flashdb_rs.Flash.Nor.{IsNor}
use flashdb_rs.Tsdb.{Tsdb, SecInfo}
use flashdb_rs.Tsdb.Append.{enter_sector, switch_sector, close_sector}
use flashdb_rs.Tsdb.Append.Layout.{IsLaid, IsSized, enter_sector-IsLaid}

-- Only the status of a sector changed.
pub IsLaid-status :
    (sec_size max_size : ℕ) (sector : SecInfo) (status : StoreStatus) (time : ℕ)
    → IsLaid sec_size max_size sector
    → (store_index status ≡ 2) ⊎ (store_index status ≡ 3)
    → IsLaid sec_size max_size (record sector { status = status; start_time = time })
IsLaid-status sec_size max_size sector status time laid k = record {
  aligned = laid.aligned;
  inside = laid.inside;
  low = laid.low;
  mid = laid.mid;
  high = laid.high;
  usable = inr k;
}

-- The sector can take a log of `size` bytes.
abbrev pub HasSpace : ℕ → SecInfo → Type 0
HasSpace size sector =
    ((store_index sector.status ≡ 1) ⊎ (store_index sector.status ≡ 2))
    × (24 + size ≤ sector.remain)

next_aligned : (a sec : ℕ) → 0 < sec → a % sec ≡ 0 → (a + sec) % sec ≡ 0
next_aligned a sec p h = grind arith

module _ {S : Type 0} (d : Driver S) (view : S → ℕ → ℕ) {cap : ℕ} (nor : IsNor d view cap)
    (t : Tsdb) (n : ℕ) (sized : IsSized t n cap)
    (laid : IsLaid t.db.sec_size t.db.max_size t.cur_sec) (blob : Blob)
    (short : blob.size ≤ t.max_len) (s : S) where
  abbrev Good : FdbErr → SecInfo → Type 0
  Good e sector =
      IsLaid t.db.sec_size t.db.max_size sector × (is_ok e ≡ true → HasSpace blob.size sector)

  abbrev full_t : Tsdb
  full_t = record t { cur_sec = record (t.cur_sec) { status = StoreStatus.full } }

  entered-Good :
      (a : ℕ) (s1 : S) (e : FdbErr) (t2 : Tsdb) (s2 : S)
      → a % t.db.sec_size ≡ 0
      → a < t.db.max_size
      → enter_sector d full_t a s1 ≡ some (e, t2, s2)
      → Good e t2.cur_sec
  entered-Good a s1 e t2 s2 al ins h =
      let holds = sized.holds in
      let sized_full : IsSized full_t n cap = record {
        ring = sized.ring;
        mode = sized.mode;
        holds = sized.holds;
        fits = sized.fits;
        small = sized.small;
      } in
      let (l, empty) =
        enter_sector-IsLaid d view nor full_t n a s1 e t2 s2 sized_full al ins refl h in
      (
        l,
        λ ok. (
          inl empty,
          elim l.usable [
            | inl whole ↦ omega arith
            | inr (inl used) ↦ absurd (omega arith)
            | inr (inr full) ↦ absurd (omega arith)
          ],
        ),
      )

  kept-Good : (e : FdbErr) → is_ok e ≡ false → Good e t.cur_sec
  kept-Good e bad = (laid, λ ok. absurd (ground arith))

  pub switch_sector-Good :
      (e : FdbErr) (t2 : Tsdb) (s2 : S)
      → switch_sector d t blob s ≡ some (e, t2, s2)
      → Good e t2.cur_sec
  unfolding switch_sector
  switch_sector-Good e t2 s2 h =
      let holds = sized.holds in
      let c = (close_sector d t s).1 in
      let next = u32 (t.cur_sec.addr + t.db.sec_size) in
      let small = sized.ring.small in
      let inside = laid.inside in
      let exact : next ≡ t.cur_sec.addr + t.db.sec_size = omega arith in
      let no_room = ltb t.cur_sec.remain (24 + wg_align blob.size) in
      elim (Bool-cases ((store_index t.cur_sec.status == 2) && no_room)) [
        | inr stay ↦
            let same : t2.cur_sec ≡ t.cur_sec = ground arith in
            subst (Good e) (sym same) (
              laid,
              λ ok. elim laid.usable [
                | inl whole ↦ (inl whole.0, omega arith)
                | inr (inl used) ↦ (inr used, ground arith)
                | inr (inr full) ↦ absurd (ground arith)
              ],
            )
        | inl move ↦ elim (Bool-cases (is_ok (close_sector d t s).0)) [
          | inr bad ↦
              let same : t2.cur_sec ≡ t.cur_sec = ground arith in
              subst (Good e) (sym same) (kept-Good e (ground arith))
          | inl closed ↦ elim (Bool-cases (ltb next t.db.max_size)) [
            | inl inside ↦
                entered-Good next c e t2 s2
                  (subst (λ x. x % t.db.sec_size ≡ 0) (sym exact)
                    (next_aligned t.cur_sec.addr t.db.sec_size sized.ring.sec_pos laid.aligned))
                  (ground arith) (ground arith)
            | inr last ↦ elim (Bool-cases t.rollover) [
              | inl roll ↦
                  entered-Good 0 c e t2 s2 (omega arith) (omega (arith, laid.inside)) (ground arith)
              | inr stop ↦
                  let same : t2.cur_sec ≡ full_t.cur_sec = ground arith in
                  subst (Good e) (sym same) (
                    IsLaid-status t.db.sec_size t.db.max_size t.cur_sec StoreStatus.full
                        t.cur_sec.start_time laid (inr refl),
                    λ ok. absurd (ground arith),
                  )
            ]
          ]
        ]
      ]
