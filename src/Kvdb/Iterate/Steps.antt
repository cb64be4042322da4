-- ===== src/Kvdb/Iterate/Steps.antt =====
-- The state of an iterator of flashdb/fdb_kvdb.c, and a round of the loop of `fdb_kv_iterate`.
use flashdb_rs.Prelude.{
  ℕ, suc, ◌+◌, ◌*◌, ◌%◌, ◌^◌, ◌≤◌, ◌<◌, ◌≡◌, ◌∙◌, refl, ap, ◌⊎◌, inl, inr, Bool, true, false,
  Bool-cases, Option, some, arith, ◌==◌, ◌&&◌, if◌then◌else◌,
}
use flashdb_rs.Types.{FdbErr, is_ok, Db, failed_addr, u32}
use flashdb_rs.Flash.{Driver}
use flashdb_rs.Kvdb.{Kv, KvSecInfo, Kvdb}
use flashdb_rs.Kvdb.Walk.{get_next_kv_sector_addr}
use flashdb_rs.Kvdb.Walk.Ring.{IsKvRing}
use flashdb_rs.Kvdb.Search.{read_kv_sector_info}
use flashdb_rs.Kvdb.Search.Headers.{AreCombined}
use flashdb_rs.Kvdb.Iterate.{KvIterator, has_kv, next_in_sector, iterate_loop}
use flashdb_rs.Kvdb.Iterate.Sector.{IsAlive}

-- The iterator stands at a sector of a database of `n`, having traversed `i` of them: before its
-- first pair, or at a pair in it that was read.
pub record IsAt (db : Db) (n : ℕ) (itr : KvIterator) : Type 0 where
  pub k : ℕ
  pub i : ℕ
  pub inside : k < n
  pub upto : i ≤ n
  pub addr : itr.sector_addr ≡ k * db.sec_size
  pub traversed : itr.traversed_len ≡ i * db.sec_size
  pub place :
      (itr.curr_kv.start ≡ 0)
      ⊎ ((itr.sector_addr ≤ itr.curr_kv.start)
          × (itr.curr_kv.start ≤ itr.sector_addr + db.sec_size)
          × (24 ≤ itr.curr_kv.len)
          × (itr.curr_kv.len ≤ db.max_size))

-- The iterator after a pair was found: the pair is alive and counted, and the iterator can go on.
abbrev pub IsFound : Db → ℕ → ℕ → KvIterator → Type 0
IsFound db n count itr = IsAlive itr.curr_kv × (itr.iterated_cnt ≡ u32 (count + 1)) × IsAt db n itr

module _ {S : Type 0} (d : Driver S) where
  -- A call that ends in a well-formed database.
  abbrev pub Iterated : Db → ℕ → ℕ → Option (Bool × KvIterator × Kvdb × S) → Type 0
  Iterated db n count o =
      (found : Bool) × (itr : KvIterator) × (t : Kvdb) × (s : S) × (o ≡ some (found, itr, t, s))
      × (t.db ≡ db)
      × AreCombined t.sector_cache_table
      × ((found ≡ true) → IsFound db n count itr)

  abbrev pub searched : FdbErr → KvSecInfo → Kv → Kvdb → S → Option (Bool × Kv × S)
  searched e sector kv t s =
      if is_ok e && has_kv sector then next_in_sector d sector kv t s else some (false, kv, s)

  -- What the loop does after a sector.
  abbrev pub go_on :
      ℕ
      → Bool
      → Kv
      → (next len : ℕ) → KvSecInfo
      → KvIterator
      → Kvdb
      → S
      → Option (Bool × KvIterator × Kvdb × S)
  go_on fuel found kv next len sector itr t s =
      let on = record itr {
        curr_kv = record kv { start = 0 };
        traversed_len = len;
        sector_addr = next;
      } in
      elim found [
        | true ↦ some (
          true,
          record itr {
            curr_kv = kv;
            iterated_cnt = u32 (itr.iterated_cnt + 1);
            iterated_obj_bytes = (itr.iterated_obj_bytes + kv.len) % 2 ^ 64;
            iterated_value_bytes = (itr.iterated_value_bytes + kv.value_len) % 2 ^ 64;
          },
          t,
          s,
        )
        | false ↦ elim (next == failed_addr) [
          | true ↦ some (false, on, t, s)
          | false ↦ iterate_loop d fuel sector on t s
        ]
      ]

  pub iterate_loop-go_on :
      (fuel : ℕ) (sector : KvSecInfo) (itr : KvIterator) (t : Kvdb) (s : S)
      → (e : FdbErr) (seen : KvSecInfo) (t2 : Kvdb) (found : Bool) (kv : Kv) (s2 : S) (len : ℕ)
      → read_kv_sector_info d t s itr.sector_addr itr.curr_kv sector false ≡ some (e, seen, t2, s)
      → searched e seen itr.curr_kv t2 s ≡ some (found, kv, s2)
      → u32 (itr.traversed_len + t2.db.sec_size) ≡ len
      → iterate_loop d (suc fuel) sector itr t s
        ≡ go_on fuel found kv (get_next_kv_sector_addr t2 seen len) len seen itr t2 s2
  unfolding iterate_loop
  iterate_loop-go_on fuel sector itr t s e seen t2 found kv s2 len read search step =
      let by =
        λ (x : ℕ). go_on fuel found kv (get_next_kv_sector_addr t2 seen x) x seen itr t2 s2 in
      let opened : iterate_loop d (suc fuel) sector itr t s
          ≡ by (u32 (itr.traversed_len + t2.db.sec_size)) =
        rw (iterate_loop, read, search) refl in
      opened ∙ ap by step

  module _ (db : Db) (n : ℕ) (ring : IsKvRing db n) where
    -- The iterator at the start of the next sector.
    abbrev pub moved : KvIterator → Kv → (next len : ℕ) → KvIterator
    moved itr kv next len = record itr {
      curr_kv = record kv { start = 0 };
      traversed_len = len;
      sector_addr = next;
    }

    pub go_on-Iterated :
        (fuel i next len : ℕ) (found : Bool) (kv : Kv) (seen : KvSecInfo) (itr : KvIterator)
        (t : Kvdb) (s : S)
        → t.db ≡ db
        → AreCombined t.sector_cache_table
        → ((found ≡ true) → IsAlive kv × IsAt db n (record itr { curr_kv = kv }))
        → (next ≡ failed_addr) ⊎ ((suc i ≤ n) × (j : ℕ) × (j < n) × (next ≡ j * t.db.sec_size))
        → ((j : ℕ)
            → suc i ≤ n
            → j < n
            → next ≡ j * t.db.sec_size
            → Iterated db n itr.iterated_cnt (iterate_loop d fuel seen (moved itr kv next len) t s))
        → Iterated db n itr.iterated_cnt (go_on fuel found kv next len seen itr t s)
    go_on-Iterated fuel i next len true kv seen itr t s same table good range more =
        let counted : KvIterator = record itr {
          curr_kv = kv;
          iterated_cnt = u32 (itr.iterated_cnt + 1);
          iterated_obj_bytes = (itr.iterated_obj_bytes + kv.len) % 2 ^ 64;
          iterated_value_bytes = (itr.iterated_value_bytes + kv.value_len) % 2 ^ 64;
        } in
        let (alive, place) = good refl in
        let here : IsAt db n counted = record {
          k = place.k;
          i = place.i;
          inside = place.inside;
          upto = place.upto;
          addr = place.addr;
          traversed = place.traversed;
          place = place.place;
        } in
        (true, counted, t, s, refl, same, table, λ e. (alive, refl, here))
    go_on-Iterated fuel i next len false kv seen itr t s same table good range more = elim range [
      | inl end ↦
          let last : (next == failed_addr) ≡ true = ground arith in
          (
            false,
            moved itr kv next len,
            t,
            s,
            rw (go_on, last) refl,
            same,
            table,
            λ e. absurd (ground arith),
          )
      | inr (below, j, inside, e) ↦ elim (Bool-cases (next == failed_addr)) [
        | inl last ↦ (
          false,
          moved itr kv next len,
          t,
          s,
          rw (go_on, last) refl,
          same,
          table,
          λ e. absurd (ground arith),
        )
        | inr on ↦
            let (found2, itr2, t2, s2, rest, same2, table2, good2) = more j below inside e in
            (found2, itr2, t2, s2, rw (go_on, on) rest, same2, table2, good2)
      ]
    ]
