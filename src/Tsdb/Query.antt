-- ===== src/Tsdb/Query.antt =====
-- Walking through the logs: the iterators of flashdb/fdb_tsdb.c, the binary search for a time, and
-- the operations on one log.
pub mod Search
pub mod Entries
pub mod Marking
use flashdb_rs.Prelude.{
  ℕ, zero, suc, ◌+◌, ◌-◌, ◌*◌, ◌/◌, ◌%◌, ◌^◌, Bool, true, false, Option, none, some, ◌⊎◌, inl, inr,
  List, ◌==◌, ltb, leb, not, ◌&&◌, ◌||◌, if◌then◌else◌,
}
use flashdb_rs.Prelude.Bytes.{sub32, slt, sle, slt32}
use flashdb_rs.Types.{
  FdbErr, no_err, is_ok, Blob, TslStatus, StoreStatus, Db, tsl_index, store_index, failed_addr, u32,
  align,
}
use flashdb_rs.Flash.{Driver}
use flashdb_rs.Status.{write_status}
use flashdb_rs.Tsdb.{Tsl, SecInfo, Tsdb, sector_hdr_data_size, log_idx_data_size, tsl_status_num}
use flashdb_rs.Tsdb.Walk.{
  get_next_sector_addr, get_last_sector_addr, get_next_tsl_addr, get_last_tsl_addr,
}
use flashdb_rs.Tsdb.Sector.{read_tsl, read_sector_info}

-- The index of a round of the search, `start + FDB_ALIGN((end - start) / 2, LOG_IDX_DATA_SIZE)`.
-- `start` and `end` are `int`, as their bit patterns below 2 ^ 32: the half of the difference rounds
-- towards 0, its sign is extended to 64 bits where it meets `sizeof`, and the sum is stored in a
-- `uint32_t`. A difference that overflows, which C leaves undefined, wraps.
unfoldable pub mid_index : ℕ → ℕ → ℕ
mid_index start end =
    let diff = sub32 end start in
    let half = if ltb diff (2 ^ 31) then diff / 2 else 2 ^ 64 - (2 ^ 32 - diff) / 2 in
    let up = (half + (log_idx_data_size - 1)) % 2 ^ 64 in
    u32 (start + (up - up % log_idx_data_size))

module _ {S : Type 0} (d : Driver S) where
  -- One round of the search: the entry that was looked for, or the rest of the range.
  unfoldable pub probe : Tsdb → S → ℕ → ℕ → ℕ → ℕ ⊎ (ℕ × ℕ)
  probe t s from start end =
      let index = mid_index start end in
      let tsl = read_tsl d t s index in
      if slt tsl.time from
      then inr (u32 (index + log_idx_data_size), end)
      else if slt from tsl.time
      then inr (start, sub32 index log_idx_data_size)
      else inl index

  -- Where the search ends without a hit. Backwards, a log that is too late is passed over.
  unfoldable pub settle : Tsdb → S → ℕ → ℕ → ℕ → ℕ
  settle t s from to start =
      if slt to from && slt from (read_tsl d t s start).time
      then sub32 start log_idx_data_size
      else start

  -- The loop of `search_start_tsl_addr`, with its rounds as fuel. The addresses are `int`.
  unfoldable pub search_loop : Tsdb → S → ℕ → ℕ → ℕ → ℕ → ℕ → Option ℕ
  search_loop t s from to zero start end = none
  search_loop t s from to (suc fuel) start end = elim (probe t s from start end) [
    | inl index ↦ some index
    | inr (start, end) ↦ elim (slt32 end start) [
      | true ↦ some (settle t s from to start)
      | false ↦ search_loop t s from to fuel start end
    ]
  ]

  unfoldable pub search_start_tsl_addr : Tsdb → S → ℕ → ℕ → ℕ → ℕ → Option ℕ
  search_start_tsl_addr t s start end from to =
      search_loop t s from to (suc (end - start)) start end

  -- The callback of an iterator: whether to stop, and what it changed.
  abbrev pub Callback : Type 0 → Type 0
  Callback A = Tsl → A → S → Bool × A × S

  -- The inner loop of the iterators: the logs of a sector from `index` on.
  module _ {A : Type 0} (get_tsl_addr : SecInfo → Tsl → ℕ) (cb : Callback A) (t : Tsdb) where
    unfoldable pub tsl_loop : SecInfo → ℕ → ℕ → A → S → Option (Bool × A × S)
    tsl_loop sector zero index a s = none
    tsl_loop sector (suc fuel) index a s =
        let tsl = read_tsl d t s index in
        let (stop, a, s) = cb tsl a s in
        let next = get_tsl_addr sector tsl in
        elim stop [
          | true ↦ some (true, a, s)
          | false ↦ elim (next == failed_addr) [
            | true ↦ some (false, a, s)
            | false ↦ tsl_loop sector fuel next a s
          ]
        ]

  -- A sector in use is described by `cur_sec`.
  unfoldable pub in_ram : Tsdb → SecInfo → SecInfo
  in_ram t sector =
      if store_index sector.status == store_index StoreStatus.using then t.cur_sec else sector

  unfoldable pub has_tsl : SecInfo → Bool
  has_tsl sector =
      (store_index sector.status == store_index StoreStatus.using)
      || (store_index sector.status == store_index StoreStatus.full)

  -- The outer loop of the three iterators. `visit` is what is done at a sector whose header was
  -- read; it says whether to leave, and may replace the sector (by `cur_sec`).
  module _ {A : Type 0} (get_sector_addr : Db → SecInfo → ℕ → ℕ)
      (visit : ℕ → SecInfo → A → S → Option (Bool × SecInfo × A × S)) (t : Tsdb) where
    unfoldable pub iter_loop : ℕ → ℕ → ℕ → SecInfo → A → S → Option (A × S)
    iter_loop zero sec_addr traversed_len sector a s = none
    iter_loop (suc fuel) sec_addr traversed_len sector a s =
        let traversed_len = u32 (traversed_len + t.db.sec_size) in
        elim (read_sector_info d t s sec_addr sector false) [
          | none ↦ none
          | some (e, sector) ↦
              elim (if is_ok e then visit sec_addr sector a s else some (false, sector, a, s)) [
                | none ↦ none
                | some (leave, sector, a, s) ↦
                    let next = get_sector_addr t.db sector traversed_len in
                    elim (leave || (next == failed_addr)) [
                      | true ↦ some (a, s)
                      | false ↦ iter_loop fuel next traversed_len sector a s
                    ]
              ]
        ]

  -- The rounds that a walk through all sectors takes at most.
  abbrev pub sector_rounds : Tsdb → ℕ
  sector_rounds t = suc (t.db.max_size / t.db.sec_size)

  module _ {A : Type 0} (cb : Callback A) (t : Tsdb) where
    unfoldable pub iter_sector : ℕ → SecInfo → A → S → Option (Bool × SecInfo × A × S)
    iter_sector sec_addr sector a s = elim (has_tsl sector) [
      | false ↦ some (false, sector, a, s)
      | true ↦
          let sector = in_ram t sector in
          elim (tsl_loop get_next_tsl_addr cb t sector (suc sector.end_idx)
            (u32 (sector.addr + sector_hdr_data_size)) a s) [
              | none ↦ none
              | some (stop, a, s) ↦ some (stop, sector, a, s)
            ]
    ]

    -- `fdb_tsl_iter` with a callback that is not NULL; `sector` is the structure before it is
    -- first read.
    unfoldable pub fdb_tsl_iter : SecInfo → A → S → Option (A × S)
    fdb_tsl_iter sector a s =
        iter_loop get_next_sector_addr iter_sector t (sector_rounds t) t.db.oldest_addr 0 sector a s

    unfoldable pub iter_sector_reverse : ℕ → SecInfo → A → S → Option (Bool × SecInfo × A × S)
    iter_sector_reverse sec_addr sector a s = elim (has_tsl sector) [
      | false ↦ some (
        (store_index sector.status == store_index StoreStatus.empty)
            || (store_index sector.status == store_index StoreStatus.unused),
        sector,
        a,
        s,
      )
      | true ↦
          let sector = in_ram t sector in
          elim (tsl_loop get_last_tsl_addr cb t sector (suc sector.end_idx) sector.end_idx a s) [
            | none ↦ none
            | some (stop, a, s) ↦ some (stop, sector, a, s)
          ]
    ]

    -- `fdb_tsl_iter_reverse`
    unfoldable pub fdb_tsl_iter_reverse : SecInfo → A → S → Option (A × S)
    fdb_tsl_iter_reverse sector a s =
        iter_loop get_last_sector_addr iter_sector_reverse t (sector_rounds t) t.cur_sec.addr 0
          sector a s

    module _ (from to : ℕ) where
      -- The callback of `fdb_tsl_iter_by_time` is called with the logs in the range, and the first
      -- one outside ends the walk.
      unfoldable pub in_range : Callback A
      in_range tsl a s =
          if tsl_index tsl.status == tsl_index TslStatus.unused
          then (false, a, s)
          else if (sle from to && (sle from tsl.time && sle tsl.time to))
              || (slt to from && (sle tsl.time from && sle to tsl.time))
          then cb tsl a s
          else (true, a, s)

      abbrev start_addr : ℕ
      start_addr = if sle from to then t.db.oldest_addr else t.cur_sec.addr

      -- Whether the walk begins in this sector.
      unfoldable pub starts_here : ℕ → SecInfo → Bool
      starts_here sec_addr sector =
          (sle from to
            && (((sec_addr == start_addr) && sle from sector.start_time)
                || sle from sector.end_time))
          || (slt to from
              && (((sec_addr == start_addr) && sle sector.end_time from)
                  || sle sector.start_time from))

      -- The walk in one sector; the Boolean of the state is `found_start_tsl`.
      unfoldable pub iter_sector_by_time :
          ℕ → SecInfo → Bool × A → S → Option (Bool × SecInfo × (Bool × A) × S)
      iter_sector_by_time sec_addr sector (found, a) s = elim (has_tsl sector) [
        | false ↦
            some (store_index sector.status == store_index StoreStatus.empty, sector, (found, a), s)
        | true ↦
            let sector = in_ram t sector in
            elim (found || starts_here sec_addr sector) [
              | false ↦ some (false, sector, (found, a), s)
              | true ↦
                  elim (search_start_tsl_addr t s (u32 (sector.addr + sector_hdr_data_size))
                    sector.end_idx from to) [
                      | none ↦ none
                      | some index ↦
                          elim (tsl_loop
                            (if sle from to then get_next_tsl_addr else get_last_tsl_addr) in_range
                            t sector (suc (sector.end_idx + log_idx_data_size)) index a s) [
                              | none ↦ none
                              | some (stop, a, s) ↦ some (stop, sector, (true, a), s)
                            ]
                    ]
            ]
      ]

      -- `fdb_tsl_iter_by_time`
      unfoldable pub fdb_tsl_iter_by_time : SecInfo → A → S → Option (A × S)
      fdb_tsl_iter_by_time sector a s =
          elim (iter_loop (if sle from to then get_next_sector_addr else get_last_sector_addr)
            iter_sector_by_time t (sector_rounds t) start_addr 0 sector (false, a) s) [
              | none ↦ none
              | some ((_, a), s) ↦ some (a, s)
            ]

  unfoldable pub query_count_cb : TslStatus → Callback ℕ
  query_count_cb status tsl count s =
      (false, if tsl_index tsl.status == tsl_index status then (count + 1) % 2 ^ 64 else count, s)

  -- `fdb_tsl_query_count`, whose counter is a `size_t`.
  unfoldable pub fdb_tsl_query_count : Tsdb → SecInfo → ℕ → ℕ → TslStatus → S → Option ℕ
  fdb_tsl_query_count t sector from to status s = elim t.db.init_ok [
    | false ↦ some 0
    | true ↦ elim (fdb_tsl_iter_by_time (query_count_cb status) t from to sector 0 s) [
      | none ↦ none
      | some (count, _) ↦ some count
    ]
  ]

  -- `fdb_tsl_set_status`
  unfoldable pub fdb_tsl_set_status : Tsdb → Tsl → TslStatus → S → FdbErr × S
  fdb_tsl_set_status t tsl status s =
      write_status d t.db.mode tsl.index tsl_status_num (tsl_index status) true s

-- `fdb_tsl_to_blob`
unfoldable pub fdb_tsl_to_blob : Tsl → Blob → Blob
fdb_tsl_to_blob tsl blob = record blob { addr = tsl.log; meta_addr = tsl.index; len = tsl.log_len }
