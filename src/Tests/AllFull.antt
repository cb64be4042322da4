-- ===== src/Tests/AllFull.antt =====
-- The theorem on a database in which every sector is full, applied to two sectors.
use flashdb_rs.Prelude.{
  ℕ, zero, suc, ◌-◌, ◌*◌, ◌^◌, ◌<◌, ◌≡◌, refl, arith, Bool, true, false, some, List, [], ◌∷◌,
}
use flashdb_rs.Types.{FdbErr, no_err, DbType, StoreStatus, TslStatus, store_index, data_unused}
use flashdb_rs.Flash.{flash_read}
use flashdb_rs.Flash.Nor.{patch}
use flashdb_rs.Status.{get_status, count_unwritten, is_written}
use flashdb_rs.Init.{init_ex}
use flashdb_rs.Tsdb.{SecInfo, Tsdb}
use flashdb_rs.Tsdb.Sector.{read_sector_info, read_end_info, clear_counts}
use flashdb_rs.Tsdb.Load.{fdb_tsdb_init}
use flashdb_rs.Tsdb.Load.AllFull.{AreFull, opened, fdb_tsdb_init-all_full}
use flashdb_rs.Tests.Memory.{memory, blank, first_sector, series, two_sectors-IsRing}

abbrev full_header : List ℕ
full_header = 0x1f ∷ 0xff ∷ 0xff ∷ 0xff ∷ 0x54 ∷ 0x53 ∷ 0x4c ∷ 0x30 ∷ []

abbrev two_full : ℕ → ℕ
two_full = patch (patch blank 0 full_header) 256 full_header

-- As before its first initialization.
abbrev fresh : Tsdb
fresh = record series { cur_sec = record first_sector { status = StoreStatus.unused } }

-- What is read of a sector, with the end information as it was.
abbrev full_info : ℕ → SecInfo → SecInfo
full_info addr sector = clear_counts 256 (record sector {
  check_ok = true;
  status = StoreStatus.full;
  addr = addr;
  magic = 0x304c_5354;
  start_time = 2 ^ 64 - 1;
  end_info_stat0 = TslStatus.unused;
  end_info_stat1 = TslStatus.unused;
})

two_full-AreFull : AreFull memory 64 fresh two_full 2
unfolding read_sector_info read_end_info clear_counts flash_read get_status count_unwritten
    is_written
two_full-AreFull = record {
  full = λ j sector traversal h. both j sector traversal h;
  nowhere = refl;
  not_using = λ e. absurd (omega arith);
  not_empty = λ e. absurd (omega arith);
}
  where
    both :
        (j : ℕ) (sector : SecInfo) (traversal : Bool)
        → j < 2
        → (e : FdbErr) × (out : SecInfo) × (read_sector_info memory
              (opened 64 fresh data_unused)
              two_full
              (j * 256)
              sector
              traversal
            ≡ some (e, out))
          × (out.check_ok ≡ true)
          × (store_index out.status ≡ store_index StoreStatus.full)
    both zero sector true h = (no_err, full_info 0 sector, refl, refl, refl)
    both zero sector false h = (no_err, full_info 0 sector, refl, refl, refl)
    both (suc zero) sector true h = (no_err, full_info 256 sector, refl, refl, refl)
    both (suc zero) sector false h = (no_err, full_info 256 sector, refl, refl, refl)
    both (suc (suc j)) sector traversal h = absurd (omega arith)

checked : init_ex DbType.ts fresh.db ≡ some (no_err, fresh.db)
unfolding init_ex
checked = refl

fdb_tsdb_init-all_full_example :
    (t2 : Tsdb) × (fdb_tsdb_init memory first_sector 64 fresh two_full
      ≡ some (no_err, t2, two_full))
    × (t2.db.oldest_addr ≡ 255)
    × (t2.cur_sec.addr ≡ 0xffff_ffff)
fdb_tsdb_init-all_full_example =
    fdb_tsdb_init-all_full memory 64 fresh two_full 2 first_sector fresh.db checked
      two_sectors-IsRing (omega arith) two_full-AreFull
