-- ===== src/Tests/Common.antt =====
-- The theorems on the parts that both databases share.
use flashdb_rs.Prelude.{ℕ, ◌/◌, ◌≡◌, refl, inr, false, some, List, [], ◌∷◌, arith, bit_xor}
use flashdb_rs.Types.{no_err, custom, g1, DbType, Db}
use flashdb_rs.Flash.Nor.{patch}
use flashdb_rs.Status.{set_status, get_status}
use flashdb_rs.Status.RoundTrip.{get_status-set_status, get_status-multiple_of_8}
use flashdb_rs.Crc.{calc_crc32, crc_loop, crc_round}
use flashdb_rs.Crc.Reference.{bitwise_loop, calc_crc32-bitwise, calc_crc32-append}
use flashdb_rs.FreeSpace.{continue_ff_addr}
use flashdb_rs.FreeSpace.Scan.{IsFreeFrom, continue_ff_addr-IsFreeFrom}
use flashdb_rs.Init.{init_ex, check_geometry}
use flashdb_rs.Init.Geometry.{IsChecked, init_ex-IsChecked}
use flashdb_rs.Tests.Memory.{memory, contents, memory-IsNor, blank, two_sectors}

-- The third of six statuses at one bit, and the second of four at 32 bits.
get_status-set_status_example : get_status g1 (set_status g1 6 3).0 6 ≡ 3
get_status-set_status_example =
    get_status-set_status g1 6 3 (omega arith) (inr (λ e. absurd (omega arith)))

get_status-multiple_of_8_example : get_status g1 (set_status g1 9 8).0 9 ≡ 0
get_status-multiple_of_8_example = get_status-multiple_of_8 9 0 (omega arith)

-- "123456789", whose CRC-32 is 0xcbf43926.
abbrev check_bytes : List ℕ
check_bytes = 0x31 ∷ 0x32 ∷ 0x33 ∷ 0x34 ∷ 0x35 ∷ 0x36 ∷ 0x37 ∷ 0x38 ∷ 0x39 ∷ []

calc_crc32-check : calc_crc32 0 check_bytes ≡ 0xcbf4_3926
unfolding calc_crc32 crc_loop crc_round
calc_crc32-check = refl

calc_crc32-bitwise_example :
    calc_crc32 7 (1 ∷ 255 ∷ [])
    ≡ bit_xor (bitwise_loop (bit_xor 7 0xffff_ffff) (1 ∷ 255 ∷ [])) 0xffff_ffff
calc_crc32-bitwise_example = calc_crc32-bitwise 7 (1 ∷ 255 ∷ []) (omega arith, (omega arith, tt))

calc_crc32-append_example :
    calc_crc32 (calc_crc32 0 (0x31 ∷ 0x32 ∷ [])) (0x33 ∷ [])
    ≡ calc_crc32 0 (0x31 ∷ 0x32 ∷ 0x33 ∷ [])
calc_crc32-append_example = calc_crc32-append 0 (0x31 ∷ 0x32 ∷ []) (0x33 ∷ [])

-- Three bytes in use, one of which is erased, and 97 free ones.
abbrev partly : ℕ → ℕ
partly = patch blank 10 (1 ∷ 0xff ∷ 2 ∷ [])

continue_ff_addr-IsFreeFrom_example :
    (r : ℕ) × (continue_ff_addr memory custom partly 10 110 ≡ some r) × IsFreeFrom partly 10 110 r
continue_ff_addr-IsFreeFrom_example =
    continue_ff_addr-IsFreeFrom memory contents 512 (memory-IsNor 512) partly 10 110 (omega arith)
      (omega arith) (omega arith)

abbrev unopened : Db
unopened = record two_sectors { init_ok = false; type = DbType.kv }

abbrev opened : Db
opened = record unopened { type = DbType.ts }

init-run : init_ex DbType.ts unopened ≡ some (no_err, opened)
unfolding init_ex check_geometry
init-run = refl

init_ex-IsChecked_example : (opened ≡ opened) × (custom ≡ custom) × IsChecked opened (512 / 256)
init_ex-IsChecked_example = init_ex-IsChecked DbType.ts unopened opened refl init-run
