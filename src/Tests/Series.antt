-- ===== src/Tests/Series.antt =====
-- The theorems on the time series database, applied to two sectors in memory.
use flashdb_rs.Prelude.{
  ℕ, suc, ◌<◌, ◌≤◌, ◌≡◌, refl, ◌⊎◌, inl, inr, Bool, true, false, some, [], ◌∷◌, arith,
}
use flashdb_rs.Prelude.Bytes.{slt}
use flashdb_rs.Types.{no_err, is_ok, Blob, TslStatus, StoreStatus, byte_erased}
use flashdb_rs.Flash.{flash_write}
use flashdb_rs.Status.{write_status, set_status}
use flashdb_rs.Flash.Nor.{slice}
use flashdb_rs.Tsdb.{SecInfo, Tsdb}
use flashdb_rs.Tsdb.Walk.{get_next_sector_addr}
use flashdb_rs.Tsdb.Sector.{read_tsl, read_sector_info, format_sector, sector_iterator}
use flashdb_rs.Tsdb.Sector.Iterate.{visit_all, sector_iterator-visit_all}
use flashdb_rs.Tsdb.Sector.Format.{fresh_info, format_sector-read_sector_info}
use flashdb_rs.Tsdb.Append.{
  write_tsl, tsl_append, update_sec_status, switch_sector, open_sector, count_append,
}
use flashdb_rs.Tsdb.Append.ReadBack.{HasRoom, write_tsl-read_tsl}
use flashdb_rs.Tsdb.Append.Layout.{IsLaid, IsSized}
use flashdb_rs.Tsdb.Append.Counts.{tsl_append-IsLaid}
use flashdb_rs.Tsdb.Append.Errors.{tsl_append-outcome}
use flashdb_rs.Tsdb.Load.{nothing, set_rollover, oldest_after, fdb_tsdb_control}
use flashdb_rs.Tsdb.Load.Oldest.{oldest_after-get_next_sector_addr, fdb_tsdb_control-fixed}
use flashdb_rs.Tests.Memory.{
  memory, contents, memory-IsNor, blank, two_sectors, first_sector, series, two_sectors-IsRing,
}

-- A log of two bytes.
abbrev log : Blob
log = record { buf = 65 ∷ 66 ∷ []; size = 2; meta_addr = 0; addr = 0; len = 0 }

log-HasRoom : HasRoom (contents blank) 512 series log
log-HasRoom = record {
  mode = refl;
  size = refl;
  bytes = (omega arith, (omega arith, tt));
  room = omega arith;
  fits = omega arith;
  small = omega arith;
  free = λ p q r. refl;
}

write_tsl-read_tsl_example :
    let after = (write_tsl memory series log 7 blank).1 in
    ((write_tsl memory series log 7 blank).0 ≡ no_err)
    × (read_tsl memory series after 80
        ≡ (record { status = TslStatus.write; time = 7; log_len = 2; index = 80; log = 250 }))
    × (slice after 250 2 ≡ 65 ∷ 66 ∷ [])
    × ((p : ℕ) → (p < 80) ⊎ ((104 ≤ p) × (p < 250)) ⊎ (252 ≤ p) → after p ≡ 0xff)
write_tsl-read_tsl_example =
    write_tsl-read_tsl memory contents (memory-IsNor 512) blank series log 7 log-HasRoom
      (omega arith)

series-IsSized : IsSized series 2 512
series-IsSized = record {
  ring = two_sectors-IsRing;
  mode = refl;
  holds = omega arith;
  fits = omega arith;
  small = omega arith;
}

first_sector-IsLaid : IsLaid 256 512 first_sector
first_sector-IsLaid = record {
  aligned = refl;
  inside = omega arith;
  low = omega arith;
  mid = refl;
  high = omega arith;
  usable = inr (inl refl);
}

-- The sector after the log was appended.
abbrev grown : Tsdb
grown = record series {
  cur_sec = record first_sector {
    end_idx = 80;
    end_time = 7;
    empty_idx = 104;
    empty_data = 250;
    remain = 146;
  };
  last_time = 7;
}

abbrev after_log : ℕ → ℕ
after_log = (write_tsl memory series log 7 blank).1

tsl_append-run : tsl_append memory series log 7 blank ≡ some (no_err, grown, after_log)
unfolding tsl_append update_sec_status switch_sector open_sector count_append write_tsl write_status
    set_status flash_write
tsl_append-run = refl

tsl_append-IsLaid_example : IsLaid 256 512 (grown.cur_sec)
tsl_append-IsLaid_example =
    tsl_append-IsLaid memory contents (memory-IsNor 512) series 2 series-IsSized first_sector-IsLaid
      log 7 blank no_err grown after_log tsl_append-run

tsl_append-outcome_example :
    (grown.max_len ≡ series.max_len)
    × (grown.rollover ≡ series.rollover)
    × (grown.db.sec_size ≡ series.db.sec_size)
    × (grown.db.max_size ≡ series.db.max_size)
    × (((is_ok no_err ≡ true) × (2 ≤ 64) × (slt 5 7 ≡ true) × (grown.last_time ≡ 7))
        ⊎ ((is_ok no_err ≡ false) × (grown.last_time ≡ series.last_time)))
tsl_append-outcome_example =
    tsl_append-outcome memory series log 7 blank no_err grown after_log tsl_append-run

format_sector-read_sector_info_example :
    (s2 : ℕ → ℕ) × (format_sector memory series 256 blank ≡ some (no_err, s2))
    × ((sector : SecInfo) (traversal : Bool)
        → read_sector_info memory series s2 256 sector traversal
          ≡ some (no_err, fresh_info 256 256 sector))
    × ((p : ℕ) → 264 ≤ p → p < 512 → s2 p ≡ byte_erased)
    × ((p : ℕ) → (p < 256) ⊎ (512 ≤ p) → s2 p ≡ 0xff)
format_sector-read_sector_info_example =
    format_sector-read_sector_info memory contents (memory-IsNor 512) blank series 256 refl
      (omega arith) (omega arith) (omega arith) refl

-- A callback that counts the sectors.
abbrev count : SecInfo → ℕ → (ℕ → ℕ) → Bool × ℕ × (ℕ → ℕ)
count sector n s = (false, suc n, s)

sector_iterator-visit_all_example :
    sector_iterator memory StoreStatus.unused count false series first_sector 0 blank
    ≡ visit_all memory StoreStatus.unused count false series (0 ∷ 256 ∷ []) first_sector 0 blank
sector_iterator-visit_all_example =
    sector_iterator-visit_all memory StoreStatus.unused count false series two_sectors-IsRing 0
      first_sector 0 blank (omega arith) refl

oldest_after-get_next_sector_addr_example :
    oldest_after two_sectors 0 ≡ get_next_sector_addr two_sectors first_sector 256
oldest_after-get_next_sector_addr_example =
    oldest_after-get_next_sector_addr two_sectors 2 first_sector two_sectors-IsRing (omega arith)
      (omega arith)

abbrev fixed : Tsdb
fixed = record series { rollover = false }

control-run : fdb_tsdb_control (set_rollover false) series ≡ some (nothing, fixed)
unfolding fdb_tsdb_control
control-run = refl

fdb_tsdb_control-fixed_example :
    (fixed.db ≡ series.db)
    × (fixed.cur_sec ≡ series.cur_sec)
    × (fixed.last_time ≡ series.last_time)
    × (fixed.max_len ≡ series.max_len)
fdb_tsdb_control-fixed_example =
    fdb_tsdb_control-fixed (set_rollover false) series nothing fixed refl control-run
