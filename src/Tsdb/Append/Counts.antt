-- ===== src/Tsdb/Append/Counts.antt =====
-- `tsl_append` of flashdb/fdb_tsdb.c keeps the layout of the current sector in order.
use flashdb_rs.Prelude.{
  ℕ, ◌+◌, ◌^◌, ◌≤◌, ◌<◌, ◌≡◌, refl, sym, subst, ◌⊎◌, inl, inr, true, Bool-cases, Option-cases, some,
  arith, ltb, ◌==◌,
}
use flashdb_rs.Prelude.Bytes.{sle}
use flashdb_rs.Types.{FdbErr, is_ok, Blob, StoreStatus, store_index}
use flashdb_rs.Flash.{Driver}
use flashdb_rs.Flash.Nor.{IsNor}
use flashdb_rs.Tsdb.{Tsdb}
use flashdb_rs.Tsdb.Append.{
  switch_sector, open_sector, update_sec_status, count_append, tsl_append, write_tsl,
}
use flashdb_rs.Tsdb.Append.Layout.{IsLaid, IsSized}
use flashdb_rs.Tsdb.Append.Switch.{IsLaid-status, HasSpace, switch_sector-Good}

-- The counts after a log was written.
count_append-IsLaid :
    (t : Tsdb) (blob : Blob) (time sec_size max_size : ℕ)
    → max_size + sec_size < 2 ^ 32
    → IsLaid sec_size max_size t.cur_sec
    → (store_index t.cur_sec.status ≡ 2) ⊎ (store_index t.cur_sec.status ≡ 3)
    → 24 + blob.size ≤ t.cur_sec.remain
    → IsLaid sec_size max_size (count_append t blob time).cur_sec
unfolding count_append
count_append-IsLaid t blob time sec_size max_size small laid status space =
    let inside = laid.inside in
    let low = laid.low in
    let mid = laid.mid in
    let high = laid.high in
    record {
      aligned = laid.aligned;
      inside = laid.inside;
      low = omega arith;
      mid = omega arith;
      high = omega arith;
      usable = inr status;
    }

module _ {S : Type 0} (d : Driver S) (view : S → ℕ → ℕ) {cap : ℕ} (nor : IsNor d view cap) where
  -- A sector that was found usable is in use afterwards, and as large as before.
  open_sector-IsLaid :
      (t : Tsdb) (time : ℕ) (s : S) (sec_size max_size size : ℕ)
      → IsLaid sec_size max_size t.cur_sec
      → HasSpace size t.cur_sec
      → let sector = (open_sector d t time s).1.cur_sec in
        IsLaid sec_size max_size sector
        × (store_index sector.status ≡ 2)
        × (24 + size ≤ sector.remain)
  unfolding open_sector
  open_sector-IsLaid t time s sec_size max_size size laid space =
      elim (Bool-cases (store_index t.cur_sec.status == 1)) [
        | inl empty ↦
            rw (empty, open_sector)
              (
                IsLaid-status sec_size max_size t.cur_sec StoreStatus.using time laid (inl refl),
                refl,
                space.1,
              )
        | inr used ↦ rw (used, open_sector) (laid, ground arith, space.1)
      ]

  module _ (t : Tsdb) (n : ℕ) (sized : IsSized t n cap)
      (laid : IsLaid t.db.sec_size t.db.max_size t.cur_sec) (blob : Blob) (time : ℕ) (s : S) where
    -- The sector that a log is written to, when there is no error.
    abbrev Ready : FdbErr → Tsdb → Type 0
    Ready e t2 =
        IsLaid t.db.sec_size t.db.max_size t2.cur_sec
        × (is_ok e ≡ true
            → (store_index t2.cur_sec.status ≡ 2) × (24 + blob.size ≤ t2.cur_sec.remain))

    update_sec_status-Ready :
        (e : FdbErr) (t2 : Tsdb) (s2 : S)
        → blob.size ≤ t.max_len
        → update_sec_status d t blob time s ≡ some (e, t2, s2)
        → Ready e t2
    unfolding update_sec_status
    update_sec_status-Ready e t2 s2 short h = elim (Option-cases (switch_sector d t blob s)) [
      | inl stopped ↦ absurd (ground arith)
      | inr ((e1, t1, s1), f) ↦
          let (l, space) = switch_sector-Good d view nor t n sized laid blob short s e1 t1 s1 f in
          elim (Bool-cases (is_ok e1)) [
            | inr bad ↦
                let same : t2 ≡ t1 = ground arith in
                subst (Ready e) (sym same) (l, λ ok. absurd (ground arith))
            | inl good ↦
                let (o, status, room) =
                  open_sector-IsLaid t1 time s1 t.db.sec_size t.db.max_size blob.size l
                    (space good) in
                let same : t2 ≡ (open_sector d t1 time s1).1 = ground arith in
                subst (Ready e) (sym same) (o, λ ok. (status, room))
          ]
    ]

    -- On a device that behaves like NOR flash, and with sectors that can hold a log of `max_len`
    -- bytes, `tsl_append` keeps the current sector's layout in order whatever it returns: the
    -- sector lies in the database, its index ends before its logs begin, and `remain` is the room
    -- between them.
    pub tsl_append-IsLaid :
        (e : FdbErr) (t2 : Tsdb) (s2 : S)
        → tsl_append d t blob time s ≡ some (e, t2, s2)
        → IsLaid t.db.sec_size t.db.max_size t2.cur_sec
    unfolding tsl_append
    tsl_append-IsLaid e t2 s2 h =
        let keep = λ (u : Tsdb) (same : t2 ≡ u) (l : IsLaid t.db.sec_size t.db.max_size u.cur_sec).
          subst (λ x. IsLaid t.db.sec_size t.db.max_size x.cur_sec) (sym same) l in
        elim (Bool-cases (ltb t.max_len blob.size)) [
          | inl long ↦ let same : t2 ≡ t = ground arith in keep t same laid
          | inr short ↦ elim (Bool-cases (sle time t.last_time)) [
            | inl late ↦ let same : t2 ≡ t = ground arith in keep t same laid
            | inr next ↦ elim (Option-cases (update_sec_status d t blob time s)) [
              | inl stopped ↦ absurd (ground arith)
              | inr ((e1, t1, s1), f) ↦
                  let (l, ready) = update_sec_status-Ready e1 t1 s1 (ground arith) f in
                  elim (Bool-cases (is_ok e1)) [
                    | inr bad ↦ let same : t2 ≡ t1 = ground arith in keep t1 same l
                    | inl good ↦ elim (Bool-cases (is_ok (write_tsl d t1 blob time s1).0)) [
                      | inr bad ↦ let same : t2 ≡ t1 = ground arith in keep t1 same l
                      | inl written ↦
                          let same : t2 ≡ count_append t1 blob time = ground arith in
                          let (status, room) = ready good in
                          keep (count_append t1 blob time) same (
                            count_append-IsLaid t1 blob time t.db.sec_size t.db.max_size
                              sized.ring.small l (inl status) room)
                    ]
                  ]
            ]
          ]
        ]
