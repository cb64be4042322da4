-- ===== src/Tsdb/Append/Errors.antt =====
-- What an append does to the database's structure on every branch of `tsl_append` of
-- flashdb/fdb_tsdb.c, errors included.
use flashdb_rs.Prelude.{
  ℕ, ◌+◌, ◌≤◌, ◌≡◌, ◌⊎◌, inl, inr, true, false, Bool-cases, Option-cases, some, arith,
}
use flashdb_rs.Prelude.Bytes.{slt}
use flashdb_rs.Types.{FdbErr, is_ok, Blob, StoreStatus, u32}
use flashdb_rs.Flash.{Driver}
use flashdb_rs.Tsdb.{Tsdb}
use flashdb_rs.Tsdb.Append.{
  enter_sector, switch_sector, open_sector, close_sector, update_sec_status, count_append,
  tsl_append,
}

module _ {S : Type 0} (d : Driver S) (t : Tsdb) where
  -- What an append does not change.
  abbrev pub Keeps : Tsdb → Type 0
  Keeps t2 =
      (t2.last_time ≡ t.last_time)
      × (t2.max_len ≡ t.max_len)
      × (t2.rollover ≡ t.rollover)
      × (t2.db.sec_size ≡ t.db.sec_size)
      × (t2.db.max_size ≡ t.db.max_size)

  enter_sector-Keeps :
      (a : ℕ) (s : S) (e : FdbErr) (t2 : Tsdb) (s2 : S)
      → enter_sector d t a s ≡ some (e, t2, s2)
      → Keeps t2
  unfolding enter_sector
  enter_sector-Keeps a s e t2 s2 h =
      (ground arith, ground arith, ground arith, ground arith, ground arith)

module _ {S : Type 0} (d : Driver S) (t : Tsdb) where
  abbrev filled_sector : Tsdb
  filled_sector = record t { cur_sec = record (t.cur_sec) { status = StoreStatus.full } }

  switch_sector-Keeps :
      (blob : Blob) (s : S) (e : FdbErr) (t2 : Tsdb) (s2 : S)
      → switch_sector d t blob s ≡ some (e, t2, s2)
      → Keeps d t t2
  unfolding switch_sector
  switch_sector-Keeps blob s e t2 s2 h =
      let n = u32 (t.cur_sec.addr + t.db.sec_size) in
      let c = (close_sector d t s).1 in
      let i = enter_sector-Keeps d filled_sector n c e t2 s2 in
      let j = enter_sector-Keeps d filled_sector 0 c e t2 s2 in
      (ground arith, ground arith, ground arith, ground arith, ground arith)

  open_sector-Keeps : (time : ℕ) (s : S) → Keeps d t (open_sector d t time s).1
  unfolding open_sector
  open_sector-Keeps time s = (ground arith, ground arith, ground arith, ground arith, ground arith)

module _ {S : Type 0} (d : Driver S) (t : Tsdb) where
  update_sec_status-Keeps :
      (blob : Blob) (time : ℕ) (s : S) (e : FdbErr) (t2 : Tsdb) (s2 : S)
      → update_sec_status d t blob time s ≡ some (e, t2, s2)
      → Keeps d t t2
  unfolding update_sec_status
  update_sec_status-Keeps blob time s e t2 s2 h = elim (Option-cases (switch_sector d t blob s)) [
    | inl stopped ↦ absurd (ground arith)
    | inr ((e1, t1, s1), f) ↦
        let k = switch_sector-Keeps d t blob s e1 t1 s1 f in
        let o = open_sector-Keeps d t1 time s1 in
        (ground arith, ground arith, ground arith, ground arith, ground arith)
  ]

module _ {S : Type 0} (d : Driver S) (t : Tsdb) where
  -- Whenever `tsl_append` returns, the options and the sizes are as they were. With success the
  -- log's size was at most `max_len`, its time was after the last one, and is the last one now;
  -- with an error the last time is as it was.
  pub tsl_append-outcome :
      (blob : Blob) (time : ℕ) (s : S) (e : FdbErr) (t2 : Tsdb) (s2 : S)
      → tsl_append d t blob time s ≡ some (e, t2, s2)
      → (t2.max_len ≡ t.max_len)
        × (t2.rollover ≡ t.rollover)
        × (t2.db.sec_size ≡ t.db.sec_size)
        × (t2.db.max_size ≡ t.db.max_size)
        × (((is_ok e ≡ true)
              × (blob.size ≤ t.max_len)
              × (slt t.last_time time ≡ true)
              × (t2.last_time ≡ time))
            ⊎ ((is_ok e ≡ false) × (t2.last_time ≡ t.last_time)))
  unfolding tsl_append count_append
  tsl_append-outcome blob time s e t2 s2 h =
      elim (Option-cases (update_sec_status d t blob time s)) [
        | inl stopped ↦ (
          ground arith,
          ground arith,
          ground arith,
          ground arith,
          inr (ground arith, ground arith),
        )
        | inr ((e1, t1, s1), f) ↦
            let k = update_sec_status-Keeps d t blob time s e1 t1 s1 f in
            (
              ground arith,
              ground arith,
              ground arith,
              ground arith,
              elim (Bool-cases (is_ok e)) [
                | inl ok ↦ inl (ok, ground arith, ground arith, ground arith)
                | inr bad ↦ inr (bad, ground arith)
              ],
            )
      ]
