-- ===== src/Tests/Stored.antt =====
-- The theorems on pairs that are stored, created, moved and deleted, applied to a sector with one
-- pair, and those on formatting a sector and on the walk to the next pair.
use flashdb_rs.Prelude.{
  ℕ, suc, ◌≤◌, ◌<◌, arith, ◌≡◌, ◌≢◌, refl, ◌∙◌, ◌⊎◌, inr, Bool, true, some, none, List, [], ◌∷◌,
  ltb, ◌&&◌,
}
use flashdb_rs.Types.{no_err, KvStatus, DirtyStatus, byte_erased, failed_addr}
use flashdb_rs.Flash.Nor.{slice, patch}
use flashdb_rs.Flash.Effects.{patch_above}
use flashdb_rs.Status.Effects.{status_byte}
use flashdb_rs.Crc.{calc_crc32, crc_loop, crc_round}
use flashdb_rs.Kvdb.{Kv, KvSecInfo, KvCacheNode, Kvdb, sector_not_combined}
use flashdb_rs.Kvdb.Cache.{get_sector_from_cache}
use flashdb_rs.Kvdb.Walk.{get_next_kv_addr}
use flashdb_rs.Kvdb.Walk.Progress.{get_next_kv_addr-later}
use flashdb_rs.Kvdb.Pairs.{read_kv}
use flashdb_rs.Kvdb.Pairs.Layout.{IsStored, Fits, HasKvRoom, stored_kv}
use flashdb_rs.Kvdb.Pairs.Stored.{read_kv-IsStored}
use flashdb_rs.Kvdb.Search.{read_kv_sector_info}
use flashdb_rs.Kvdb.Alloc.{format_kv_sector}
use flashdb_rs.Kvdb.Alloc.Format.{fresh_kv_info, format_kv_sector-read_kv_sector_info}
use flashdb_rs.Kvdb.Create.{create_kv_blob}
use flashdb_rs.Kvdb.Create.ReadBack.{create_kv_blob-read_kv}
use flashdb_rs.Kvdb.Delete.{del_kv, move_data}
use flashdb_rs.Kvdb.Delete.Dirty.{InSector}
use flashdb_rs.Kvdb.Delete.Marked.{del_kv-read_kv}
use flashdb_rs.Kvdb.Delete.ReadBack.{CanMove, move_data-read_kv}
use flashdb_rs.Tests.Memory.{memory, contents, memory-IsNor, blank}
use flashdb_rs.Tests.Empty.{no_kv, no_sector, keys}
use flashdb_rs.Tests.Pairs.{sector_bytes, one_pair, pair_a, first_of_two}

abbrev pub key_a : List ℕ
key_a = 0x61 ∷ []

abbrev pub value_v : List ℕ
value_v = 0x76 ∷ []

abbrev pub key_b : List ℕ
key_b = 0x62 ∷ []

abbrev pub value_b : List ℕ
value_b = 1 ∷ 2 ∷ []

pub one_pair-IsStored : IsStored one_pair 16 KvStatus.write key_a value_v
unfolding calc_crc32 crc_loop crc_round
one_pair-IsStored = record { marked = refl; hdr = refl; name = refl; bytes = refl }

pub one_pair-Fits : Fits 512 keys 16 key_a value_v
one_pair-Fits = record {
  mode = refl;
  inside = omega arith;
  small = omega arith;
  whole = omega arith;
  short = omega arith;
}

read_kv-IsStored_example :
    read_kv memory keys (record no_kv { start = 16 }) one_pair
    ≡ some (no_err, stored_kv (record no_kv { start = 16 }) KvStatus.write key_a value_v, one_pair)
read_kv-IsStored_example =
    read_kv-IsStored memory contents (memory-IsNor 512) keys one_pair (record no_kv { start = 16 })
      KvStatus.write key_a value_v one_pair-Fits one_pair-IsStored

abbrev pub with_nodes : List KvCacheNode → Kvdb
with_nodes nodes = record keys { kv_cache_table = nodes }

pub one_pair-HasKvRoom :
    (nodes : List KvCacheNode) (c : ℕ)
    → c < 256
    → HasKvRoom one_pair 512 (with_nodes nodes) first_of_two (c ∷ []) value_b
one_pair-HasKvRoom nodes c small_c = record {
  fits = record {
    mode = refl;
    inside = omega arith;
    small = omega arith;
    whole = omega arith;
    short = omega arith;
  };
  sector_room = omega arith;
  sector_small = omega arith;
  behind = omega arith;
  marked = refl;
  key_bytes = (small_c, tt);
  value_bytes = (omega arith, (omega arith, tt));
  free = λ p h k. patch_above blank 0 sector_bytes p (omega arith);
}

create_kv_blob-read_kv_example :
    (t2 : Kvdb) × (s2 : ℕ → ℕ) × (create_kv_blob memory no_sector no_kv first_of_two key_b value_b 2
        keys one_pair
      ≡ some (no_err, first_of_two, t2, s2))
    × ((kv : Kv)
        → read_kv memory t2 (record kv { start = 42 }) s2
          ≡ some (no_err, stored_kv (record kv { start = 42 }) KvStatus.write key_b value_b, s2))
    × (slice s2 67 2 ≡ value_b)
    × ((p : ℕ) → p ≢ 0 → (p < 42) ⊎ (69 ≤ p) → s2 p ≡ one_pair p)
create_kv_blob-read_kv_example =
    create_kv_blob-read_kv memory contents (memory-IsNor 512) no_sector no_kv first_of_two key_b
      value_b keys one_pair (one_pair-HasKvRoom [] 0x62 (omega arith))

pub one_pair-InSector : InSector one_pair keys 16 DirtyStatus.clean
one_pair-InSector = record { behind = omega arith; marked = refl }

del_kv-read_kv_example :
    (t2 : Kvdb) × (s2 : ℕ → ℕ) × (del_kv memory no_sector no_kv
        (some key_a)
        (some pair_a)
        true
        keys
        one_pair
      ≡ some (no_err, t2, s2))
    × ((kv : Kv)
        → read_kv memory t2 (record kv { start = 16 }) s2
          ≡ some (no_err, stored_kv (record kv { start = 16 }) KvStatus.deleted key_a value_v, s2))
    × (s2 1 ≡ status_byte 2)
    × ((p : ℕ) → p ≢ 16 → p ≢ 1 → s2 p ≡ one_pair p)
del_kv-read_kv_example =
    del_kv-read_kv memory contents (memory-IsNor 512) no_sector no_kv (some key_a) pair_a true keys
      one_pair KvStatus.write key_a value_v DirtyStatus.clean one_pair-Fits one_pair-IsStored
      one_pair-InSector (omega arith)

-- The second sector, empty.
abbrev second_of_two : KvSecInfo
second_of_two = fresh_kv_info 256 256

-- Its header lies behind that of the first.
abbrev both : ℕ → ℕ
both = patch one_pair 256 (0x7f ∷ 0x7f ∷ [])

both-HasKvRoom : HasKvRoom both 512 keys second_of_two key_a value_v
both-HasKvRoom = record {
  fits = record {
    mode = refl;
    inside = omega arith;
    small = omega arith;
    whole = omega arith;
    short = omega arith;
  };
  sector_room = omega arith;
  sector_small = omega arith;
  behind = omega arith;
  marked = refl;
  key_bytes = (omega arith, tt);
  value_bytes = (omega arith, tt);
  free = λ p h k.
      patch_above one_pair 256 (0x7f ∷ 0x7f ∷ []) p (omega arith)
      ∙ patch_above blank 0 sector_bytes p (omega arith);
}

both-IsStored : IsStored both 16 KvStatus.write key_a value_v
unfolding calc_crc32 crc_loop crc_round
both-IsStored = record { marked = refl; hdr = refl; name = refl; bytes = refl }

-- A test that every number is that of a byte.
abbrev are_bytes : List ℕ → Bool
are_bytes [] = true
are_bytes (b ∷ bs) = ltb b 256 && are_bytes bs

patch-bytes :
    (m : ℕ → ℕ) (a : ℕ) (bs : List ℕ) (p : ℕ)
    → are_bytes bs ≡ true
    → m p < 256
    → patch m a bs p < 256
patch-bytes m a [] p h k = k
patch-bytes m a (b ∷ bs) p h k = ground (arith, patch-bytes m (suc a) bs p)

both-CanMove : CanMove both 512 pair_a second_of_two KvStatus.write key_a value_v
both-CanMove = record {
  stored = both-IsStored;
  len = refl;
  inside = omega arith;
  apart = inr (omega arith);
  cells = λ p h k.
      patch-bytes one_pair 256 (0x7f ∷ 0x7f ∷ []) p refl
        (patch-bytes blank 0 sector_bytes p refl (omega arith));
}

move_data-read_kv_example :
    let out = move_data memory pair_a 272 second_of_two keys both in
    (out.0 ≡ no_err)
    × ((to : Kv)
        → read_kv memory out.1 (record to { start = 272 }) out.2
          ≡ some
              (no_err, stored_kv (record to { start = 272 }) KvStatus.write key_a value_v, out.2))
    × (slice out.2 297 1 ≡ value_v)
    × IsStored out.2 16 KvStatus.write key_a value_v
    × ((p : ℕ) → p ≢ 256 → (p < 272) ⊎ (298 ≤ p) → out.2 p ≡ both p)
move_data-read_kv_example =
    move_data-read_kv memory contents (memory-IsNor 512) pair_a second_of_two keys both
      KvStatus.write key_a value_v both-HasKvRoom both-CanMove

format_kv_sector-read_kv_sector_info_example :
    (t2 : Kvdb) × (s2 : ℕ → ℕ) × (format_kv_sector memory 0 sector_not_combined keys one_pair
      ≡ some (no_err, t2, s2))
    × (get_sector_from_cache t2.sector_cache_table 0 ≡ none)
    × ((kv : Kv) (sector : KvSecInfo)
        → (t3 : Kvdb) × (read_kv_sector_info memory t2 s2 0 kv sector true
            ≡ some (no_err, fresh_kv_info 0 256, t3, s2)))
    × ((p : ℕ) → 16 ≤ p → p < 256 → s2 p ≡ byte_erased)
    × ((p : ℕ) → (p < 0) ⊎ (256 ≤ p) → s2 p ≡ one_pair p)
format_kv_sector-read_kv_sector_info_example =
    format_kv_sector-read_kv_sector_info memory contents (memory-IsNor 512) 0 keys one_pair refl
      (omega arith) (omega arith) (omega arith) refl tt

get_next_kv_addr-later_example :
    (next : ℕ) × (get_next_kv_addr memory keys one_pair first_of_two pair_a ≡ some next)
    × ((next ≡ failed_addr) ⊎ ((16 < next) × (next ≤ 256)))
get_next_kv_addr-later_example =
    get_next_kv_addr-later memory keys one_pair first_of_two pair_a 256 refl (omega arith)
      (omega arith) (omega arith) (omega arith) (omega arith)
