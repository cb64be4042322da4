-- ===== src/Tests/Memory.antt =====
-- A driver whose device is a function from addresses to bytes.
use flashdb_rs.Prelude.{arith, ℕ, ◌+◌, refl, true, false, ltb, leb, ◌&&◌, if◌then◌else◌}
use flashdb_rs.Types.{no_err, custom, DbType, Db, StoreStatus, TslStatus, byte_erased}
use flashdb_rs.Flash.{Driver}
use flashdb_rs.Flash.Nor.{slice, patch, IsNor}
use flashdb_rs.Tsdb.{SecInfo, Tsdb}
use flashdb_rs.Tsdb.Walk.Ring.{IsRing}

abbrev pub memory : Driver (ℕ → ℕ)
memory = record {
  read = λ s addr n. (no_err, slice s addr n);
  write = λ addr bs sync s. (no_err, patch s addr bs);
  erase = λ addr n s. (no_err, λ p. if leb addr p && ltb p (addr + n) then byte_erased else s p);
}

abbrev pub contents : (ℕ → ℕ) → ℕ → ℕ
contents s = s

pub memory-IsNor : (cap : ℕ) → IsNor memory contents cap
memory-IsNor cap = record {
  read_ok = λ s addr n h. refl;
  write_ok = λ s addr bs sync h k. (refl, λ p. refl);
  erase_ok = λ s addr n h. (refl, λ p. refl);
}

abbrev pub blank : ℕ → ℕ
blank p = 0xff

-- Two sectors of 256 bytes.
abbrev pub two_sectors : Db
two_sectors = record {
  type = DbType.ts;
  mode = custom;
  sec_size = 256;
  max_size = 512;
  oldest_addr = 0;
  init_ok = true;
  file_mode = false;
  not_formatable = false;
}

-- The first sector, in use and with one log of 4 bytes.
abbrev pub first_sector : SecInfo
first_sector = record {
  check_ok = true;
  status = StoreStatus.using;
  addr = 0;
  magic = 0x304c_5354;
  start_time = 5;
  end_time = 5;
  end_idx = 56;
  end_info_stat0 = TslStatus.unused;
  end_info_stat1 = TslStatus.unused;
  remain = 172;
  empty_idx = 80;
  empty_data = 252;
}

abbrev pub series : Tsdb
series = record {
  db = two_sectors;
  cur_sec = first_sector;
  last_time = 5;
  max_len = 64;
  rollover = true;
}

pub two_sectors-IsRing : IsRing two_sectors 2
two_sectors-IsRing = record {
  some_sector = omega arith;
  sec_pos = omega arith;
  whole = refl;
  small = omega arith;
}
