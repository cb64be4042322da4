-- ===== src/Tests/LongKey.antt =====
-- The theorem on a key of 64 bytes, applied to a sector with one pair.
use flashdb_rs.Prelude.{ℕ, zero, suc, arith, ◌≡◌, refl, Bool, false, some, List, replicate}
use flashdb_rs.Prelude.Bytes.{AreBytes}
use flashdb_rs.Types.{no_err}
use flashdb_rs.Flash.Effects.{patch_above}
use flashdb_rs.Kvdb.{Kv, Kvdb}
use flashdb_rs.Kvdb.Pairs.{read_kv}
use flashdb_rs.Kvdb.Pairs.Layout.{HasKvRoom}
use flashdb_rs.Kvdb.Search.{find_kv_cb}
use flashdb_rs.Kvdb.Search.LongKey.{IsString, create_kv_blob-long_key}
use flashdb_rs.Kvdb.Create.{create_kv_blob}
use flashdb_rs.Tests.Memory.{memory, contents, memory-IsNor, blank}
use flashdb_rs.Tests.Empty.{no_kv, no_sector, keys}
use flashdb_rs.Tests.Pairs.{sector_bytes, one_pair, first_of_two}
use flashdb_rs.Tests.Stored.{value_b}

abbrev long_key : List ℕ
long_key = replicate 64 0x78

replicate-AreBytes : (n : ℕ) → AreBytes (replicate n 0x78)
replicate-AreBytes zero = tt
replicate-AreBytes (suc n) = (omega arith, replicate-AreBytes n)

replicate-IsString : (n : ℕ) → IsString (replicate n 0x78)
replicate-IsString zero = tt
replicate-IsString (suc n) = ((λ e. absurd (omega arith)), replicate-IsString n)

long_key-HasKvRoom : HasKvRoom one_pair 512 keys first_of_two long_key value_b
long_key-HasKvRoom = record {
  fits = record {
    mode = refl;
    inside = omega arith;
    small = omega arith;
    whole = omega arith;
    short = omega arith;
  };
  sector_room = omega arith;
  sector_small = omega arith;
  behind = omega arith;
  marked = refl;
  key_bytes = replicate-AreBytes 64;
  value_bytes = (omega arith, (omega arith, tt));
  free = λ p h k. patch_above blank 0 sector_bytes p (omega arith);
}

create_kv_blob-long_key_example :
    (t2 : Kvdb) × (s2 : ℕ → ℕ) × (create_kv_blob memory no_sector no_kv first_of_two long_key
        value_b 2 keys one_pair
      ≡ some (no_err, first_of_two, t2, s2))
    × ((kv : Kv) (found : Bool)
        → (kv2 : Kv) × (read_kv memory t2 (record kv { start = 42 }) s2 ≡ some (no_err, kv2, s2))
          × (find_kv_cb memory long_key kv2 found t2 s2 ≡ some (false, found, t2, s2)))
create_kv_blob-long_key_example =
    create_kv_blob-long_key memory contents (memory-IsNor 512) no_sector no_kv first_of_two long_key
      value_b keys one_pair long_key-HasKvRoom refl (replicate-IsString 64)
