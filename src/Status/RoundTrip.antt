-- ===== src/Status/RoundTrip.antt =====
-- Reading back a status table that was just set (`_fdb_set_status` and `_fdb_get_status` of
-- flashdb/fdb_utils.c).
use flashdb_rs.Prelude.{
  ℕ, zero, suc, ◌+◌, ◌-◌, ◌*◌, ◌/◌, ◌%◌, ◌^◌, ◌≤◌, ◌<◌, ◌≡◌, refl, ◌≢◌, ◌⊎◌, inl, inr, Bool, true,
  false, List, bit_and, arith, ◌==◌, ltb, if◌then◌else◌, set, get_or, replicate, get_or-replicate,
  get_or-set_self, get_or-set_ne, length-replicate, not, Bool-cases, ap, subst,
}
use native.Mathlib.Decide.{dec_lt, ℕ_discrete as dec_eq}
use flashdb_rs.Prelude.Bits.{passes, passes-at, same, same→eq}
use flashdb_rs.Types.{Gran, g1, g8, g32, g64, g128, byte_erased, byte_written}
use flashdb_rs.Status.{status_table_size, set_status, is_written, count_unwritten, get_status}

-- A table whose highest written position is `idx - 1` counts down to it.
count_unwritten-sub :
    (g : Gran) (table : List ℕ) (idx n : ℕ)
    → idx ≤ n
    → ((k : ℕ) → idx ≤ k → k < n → is_written g table k ≡ false)
    → ((k : ℕ) → idx ≡ suc k → is_written g table k ≡ true)
    → count_unwritten g table n ≡ n - idx
unfolding count_unwritten
count_unwritten-sub g table zero zero h above at = refl
count_unwritten-sub g table (suc i) zero h above at = absurd (omega arith)
count_unwritten-sub g table zero (suc n) h above at = ground (
  arith,
  above n,
  count_unwritten-sub g table zero n (omega arith) (λ k p q. above k p (omega arith)) at,
)
count_unwritten-sub g table (suc i) (suc n) h above at = elim (dec_lt i n) [
  | yes p ↦ ground (
    arith,
    above n,
    count_unwritten-sub g table (suc i) n p (λ k q r. above k q (omega arith)) at,
  )
  | no p ↦ let e : n ≡ i = omega arith in ground (arith, at n, e)
]

get_status-eq :
    (g : Gran) (table : List ℕ) (idx num : ℕ)
    → idx < num
    → ((k : ℕ) → idx ≤ k → suc k < num → is_written g table k ≡ false)
    → ((k : ℕ) → idx ≡ suc k → is_written g table k ≡ true)
    → get_status g table num ≡ idx
unfolding get_status
get_status-eq g table idx num h above at = omega (
  arith,
  count_unwritten-sub g table idx (num - 1) (omega arith) (λ k p q. above k p (omega arith)) at,
)

-- With one bit for each status, the byte that status `k` leaves has its `k` highest bits clear.
abbrev bits_clear : ℕ → ℕ → Bool
bits_clear k j = same (bit_and (bit_and 0xff (0xff / 2 ^ k)) (0x80 / 2 ^ j) == 0) (ltb j k)

clear_table : passes (λ k. passes (bits_clear k) 8) 8 ≡ true
unfolding passes
clear_table = refl

bit-clear :
    (k j : ℕ)
    → k < 8
    → j < 8
    → (bit_and (bit_and 0xff (0xff / 2 ^ k)) (0x80 / 2 ^ j) == 0) ≡ ltb j k
bit-clear k j hk hj = same→eq _ _ (passes-at (bits_clear k) 8 j hj (passes-at _ 8 k hk clear_table))

erased_table : passes (λ j. not (bit_and 0xff (0x80 / 2 ^ j) == 0)) 8 ≡ true
unfolding passes
erased_table = refl

bit_erased : (j : ℕ) → j < 8 → (bit_and 0xff (0x80 / 2 ^ j) == 0) ≡ false
bit_erased j h =
    ground (arith, passes-at (λ j. not (bit_and 0xff (0x80 / 2 ^ j) == 0)) 8 j h erased_table)

-- The index is a status that the table can hold: with one bit for each status, not a multiple of 8.
abbrev pub Representable : Gran → ℕ → Type 0
Representable g1 idx = (idx ≡ 0) ⊎ (idx % 8 ≢ 0)
Representable _ idx = Unit {0}

-- A byte of an erased table in which one byte was changed.
pub get_or-table :
    (size b j v a : ℕ)
    → b < size
    → get_or (set (replicate size a) b v) j a ≡ (if j == b then v else a)
get_or-table size b j v a h = elim (dec_eq b j) [
  | yes e ↦ ground (
    arith,
    get_or-set_self (replicate size a) b v a (rw length-replicate h),
    ap (λ k. get_or (set (replicate size a) b v) k a) e,
  )
  | no e ↦ ground (arith, get_or-set_ne (replicate size a) b j v a e, get_or-replicate size j a)
]

-- One bit for each status: position `n` after status `suc i` is set.
is_written-g1 :
    (num i n : ℕ)
    → suc i < num
    → is_written g1 (set_status g1 num (suc i)).0 n
      ≡ (if n / 8 == i / 8 then ltb (n % 8) (suc i % 8) else false)
unfolding is_written set_status
is_written-g1 num i n h =
    let size = status_table_size g1 num in
    let byte = bit_and 0xff (0xff / 2 ^ (suc i % 8)) in
    rw
      (
        get_or-replicate size (i / 8) byte_erased,
        get_or-table size (i / 8) (n / 8) byte byte_erased (omega arith),
      )
      (elim (Bool-cases (n / 8 == i / 8)) [
        | inl e ↦ rw e (bit-clear (suc i % 8) (n % 8) (omega arith) (omega arith))
        | inr e ↦ rw e (bit_erased (n % 8) (omega arith))
      ])

-- One or more bytes for each status.
is_written-bytes :
    (g : Gran) (num i n : ℕ)
    → g ≢ g1
    → suc i < num
    → is_written g (set_status g num (suc i)).0 n ≡ (n == i)
unfolding is_written set_status
is_written-bytes g1 num i n ne h = absurd (ne refl)
is_written-bytes g8 num i n ne h =
    rw
      (get_or-table (status_table_size g8 num) (i * 1) (n * 8 / 8) byte_written byte_erased
        (omega arith))
      (ground arith)
is_written-bytes g32 num i n ne h =
    rw
      (get_or-table (status_table_size g32 num) (i * 4) (n * 32 / 8) byte_written byte_erased
        (omega arith))
      (ground arith)
is_written-bytes g64 num i n ne h =
    rw
      (get_or-table (status_table_size g64 num) (i * 8) (n * 64 / 8) byte_written byte_erased
        (omega arith))
      (ground arith)
is_written-bytes g128 num i n ne h =
    rw
      (get_or-table (status_table_size g128 num) (i * 16) (n * 128 / 8) byte_written byte_erased
        (omega arith))
      (ground arith)

is_written-erased : (g : Gran) (size n : ℕ) → is_written g (replicate size byte_erased) n ≡ false
unfolding is_written
is_written-erased g1 size n =
    rw (get_or-replicate size (n / 8) byte_erased) (bit_erased (n % 8) (omega arith))
is_written-erased g8 size n = rw (get_or-replicate size (n * 8 / 8) byte_erased)
is_written-erased g32 size n = rw (get_or-replicate size (n * 32 / 8) byte_erased)
is_written-erased g64 size n = rw (get_or-replicate size (n * 64 / 8) byte_erased)
is_written-erased g128 size n = rw (get_or-replicate size (n * 128 / 8) byte_erased)

is_written-above :
    (g : Gran) (num i k : ℕ)
    → suc i < num
    → suc i ≤ k
    → is_written g (set_status g num (suc i)).0 k ≡ false
is_written-above g1 num i k h p = rw (is_written-g1 num i k h) (ground arith)
is_written-above g8 num i k h p = rw (is_written-bytes g8 num i k (λ e. cc) h) (ground arith)
is_written-above g32 num i k h p = rw (is_written-bytes g32 num i k (λ e. cc) h) (ground arith)
is_written-above g64 num i k h p = rw (is_written-bytes g64 num i k (λ e. cc) h) (ground arith)
is_written-above g128 num i k h p = rw (is_written-bytes g128 num i k (λ e. cc) h) (ground arith)

is_written_self :
    (g : Gran) (num i : ℕ)
    → suc i < num
    → Representable g (suc i)
    → is_written g (set_status g num (suc i)).0 i ≡ true
is_written_self g1 num i h r = rw (is_written-g1 num i i h) (ground arith)
is_written_self g8 num i h r = rw (is_written-bytes g8 num i i (λ e. cc) h) (ground arith)
is_written_self g32 num i h r = rw (is_written-bytes g32 num i i (λ e. cc) h) (ground arith)
is_written_self g64 num i h r = rw (is_written-bytes g64 num i i (λ e. cc) h) (ground arith)
is_written_self g128 num i h r = rw (is_written-bytes g128 num i i (λ e. cc) h) (ground arith)

-- At every write granularity, `_fdb_get_status` reads back the status that `_fdb_set_status` put
-- into the table, for every index below the number of statuses that the table can represent (with
-- one bit for each status: 0, or no multiple of 8).
pub get_status-set_status :
    (g : Gran) (num idx : ℕ)
    → idx < num
    → Representable g idx
    → get_status g (set_status g num idx).0 num ≡ idx
unfolding set_status
get_status-set_status g num zero h r =
    get_status-eq g _ 0 num h (λ k p q. is_written-erased g _ k) (λ k e. absurd (omega arith))
get_status-set_status g num (suc i) h r =
    get_status-eq g _ (suc i) num h (λ k p q. is_written-above g num i k h p)
      (λ k e.
        let e' : i ≡ k = omega arith in
        subst (λ k. is_written g (set_status g num (suc i)).0 k ≡ true) e'
          (is_written_self g num i h r))

-- With one bit for each status, setting a status whose index is a positive multiple of 8 is lost:
-- `_fdb_get_status` reads status 0 back.
pub get_status-multiple_of_8 :
    (num k : ℕ) → suc k * 8 < num → get_status g1 (set_status g1 num (suc k * 8)).0 num ≡ 0
get_status-multiple_of_8 num k h =
    let e : suc k * 8 ≡ suc (k * 8 + 7) = omega arith in
    rw e (
      get_status-eq g1 _ 0 num (omega arith)
        (λ n p q. rw (is_written-g1 num (k * 8 + 7) n (omega arith)) (ground arith))
        (λ n e. absurd (omega arith)))
