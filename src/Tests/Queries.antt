-- ===== src/Tests/Queries.antt =====
-- The theorems on the search and on the iterators, applied to a sector with three logs.
use flashdb_rs.Prelude.{ℕ, zero, suc, ◌+◌, ◌*◌, ◌≡◌, refl, false, some, List, [], ◌∷◌, ◌++◌, arith}
use flashdb_rs.Prelude.Bytes.{le_bytes}
use flashdb_rs.Types.{no_err, TslStatus}
use flashdb_rs.Flash.{flash_read}
use flashdb_rs.Flash.Nor.{patch}
use flashdb_rs.Status.{get_status, count_unwritten, is_written}
use flashdb_rs.Tsdb.{Tsl, SecInfo, Tsdb}
use flashdb_rs.Tsdb.Sector.{read_tsl, decode_tsl}
use flashdb_rs.Tsdb.Query.{
  fdb_tsl_set_status, Callback, search_loop, mid_index, probe, settle, search_start_tsl_addr,
  iter_sector, iter_sector_reverse, in_ram, has_tsl,
}
use flashdb_rs.Tsdb.Query.Search.{IsLowerBound, IsSorted, search_start_tsl_addr-forward}
use flashdb_rs.Tsdb.Query.Search.Backward.{EndsBack, search_start_tsl_addr-backward}
use flashdb_rs.Tsdb.Query.Entries.{
  HasEntries, visit_tsls, iter_sector-visit_tsls, iter_sector_reverse-visit_tsls,
}
use flashdb_rs.Tsdb.Query.Marking.{fdb_tsl_set_status-read_tsl}
use flashdb_rs.Tests.Memory.{memory-IsNor, contents, memory, blank, first_sector, series}

-- An index entry with the status `FDB_TSL_WRITE` and a time.
abbrev entry : ℕ → List ℕ
entry time =
    0x3f
    ∷ 0xff
    ∷ 0xff
    ∷ 0xff
    ∷ 0xff
    ∷ 0xff
    ∷ 0xff
    ∷ 0xff
    ∷ (le_bytes 8 time ++ (le_bytes 4 4 ++ le_bytes 4 200))

abbrev three_logs : ℕ → ℕ
three_logs = patch blank 56 (entry 10 ++ (entry 20 ++ entry 30))

module _ (from to : ℕ) where
  logs-IsSorted : IsSorted memory series three_logs 56 from to 2
  unfolding read_tsl decode_tsl get_status count_unwritten is_written flash_read
  logs-IsSorted zero zero h k = absurd (omega arith)
  logs-IsSorted zero (suc zero) h k = refl
  logs-IsSorted zero (suc (suc zero)) h k = refl
  logs-IsSorted (suc zero) zero h k = absurd (omega arith)
  logs-IsSorted (suc zero) (suc zero) h k = absurd (omega arith)
  logs-IsSorted (suc zero) (suc (suc zero)) h k = refl
  logs-IsSorted (suc (suc i)) j h k = absurd (omega arith)
  logs-IsSorted zero (suc (suc (suc j))) h k = absurd (omega arith)
  logs-IsSorted (suc zero) (suc (suc (suc j))) h k = absurd (omega arith)

-- From 15 on: the search ends at the second log.
search_start_tsl_addr-forward_example :
    (p : ℕ) × IsLowerBound memory series three_logs 56 15 40 2 p
    × (search_start_tsl_addr memory series three_logs 56 (56 + 24 * 2) 15 40 ≡ some (56 + 24 * p))
search_start_tsl_addr-forward_example =
    search_start_tsl_addr-forward memory series three_logs 56 15 40 2 (logs-IsSorted 15 40)
      (omega arith) (omega arith) refl

search_forward_run : search_start_tsl_addr memory series three_logs 56 104 15 40 ≡ some 80
unfolding search_start_tsl_addr search_loop probe mid_index settle read_tsl decode_tsl get_status
    count_unwritten is_written flash_read
search_forward_run = refl

-- From 25 back: the search ends at the second log too.
search_start_tsl_addr-backward_example :
    (r : ℕ) × (search_start_tsl_addr memory series three_logs 56 (56 + 24 * 2) 25 5 ≡ some r)
    × EndsBack memory series three_logs 56 25 5 2 (logs-IsSorted 25 5) r
search_start_tsl_addr-backward_example =
    search_start_tsl_addr-backward memory series three_logs 56 25 5 2 (logs-IsSorted 25 5)
      (omega arith) (omega arith) refl

-- From 45 back, after the last log: the search ends behind it.
search_backward_run : search_start_tsl_addr memory series three_logs 56 104 45 5 ≡ some 128
unfolding search_start_tsl_addr search_loop probe mid_index settle read_tsl decode_tsl get_status
    count_unwritten is_written flash_read
search_backward_run = refl

-- The sector that the logs are in.
abbrev logged : SecInfo
logged = record first_sector {
  end_idx = 104;
  end_time = 30;
  empty_idx = 128;
  empty_data = 244;
  remain = 116;
}

abbrev logged_series : Tsdb
logged_series = record series { cur_sec = logged; last_time = 30 }

-- A callback that collects the times.
abbrev collect : Callback memory (List ℕ)
collect tsl times s = (false, tsl.time ∷ times, s)

logged-HasEntries : HasEntries memory logged_series collect 0 logged 2 [] three_logs
unfolding in_ram has_tsl
logged-HasEntries = (refl, refl, refl, omega arith)

iter_sector-visit_tsls_example :
    iter_sector memory collect logged_series 0 logged [] three_logs
    ≡ some (
        let (stop, times, s) =
          visit_tsls memory logged_series collect (56 ∷ 80 ∷ 104 ∷ []) [] three_logs in
        (stop, logged, times, s))
unfolding in_ram
iter_sector-visit_tsls_example =
    iter_sector-visit_tsls memory logged_series collect 0 logged 2 [] three_logs logged-HasEntries

iter_sector_reverse-visit_tsls_example :
    iter_sector_reverse memory collect logged_series 0 logged [] three_logs
    ≡ some (
        let (stop, times, s) =
          visit_tsls memory logged_series collect (104 ∷ 80 ∷ 56 ∷ []) [] three_logs in
        (stop, logged, times, s))
unfolding in_ram
iter_sector_reverse-visit_tsls_example =
    iter_sector_reverse-visit_tsls memory logged_series collect 0 logged 2 [] three_logs
      logged-HasEntries

-- The second log, as a callback gets it.
abbrev second_log : Tsl
second_log = record { status = TslStatus.write; time = 20; log_len = 4; index = 80; log = 200 }

fdb_tsl_set_status-read_tsl_example :
    let out = fdb_tsl_set_status memory series second_log TslStatus.deleted three_logs in
    (out.0 ≡ no_err)
    × (read_tsl memory series out.1 80
        ≡ (record (read_tsl memory series three_logs 80) { status = TslStatus.deleted }))
fdb_tsl_set_status-read_tsl_example =
    fdb_tsl_set_status-read_tsl memory contents (memory-IsNor 512) series refl three_logs second_log
      TslStatus.write TslStatus.deleted (omega arith) refl (omega arith) (omega arith)
