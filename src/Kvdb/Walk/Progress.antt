-- ===== src/Kvdb/Walk/Progress.antt =====
-- The walk of flashdb/fdb_kvdb.c from a pair to the next one ends, and goes on upwards.
use flashdb_rs.Prelude.{
  ℕ, zero, suc, ◌+◌, ◌-◌, ◌%◌, ◌^◌, ◌≤◌, ◌<◌, ◌≡◌, refl, sym, subst, ◌⊎◌, inl, inr, true, false,
  Bool-cases, Option-cases, Option, some, List, arith, ltb, leb, ◌==◌, ◌&&◌, ◌||◌, if◌then◌else◌,
}
use flashdb_rs.Prelude.Bytes.{field}
use flashdb_rs.Types.{is_ok, StoreStatus, store_index, failed_addr, u32, align_down, wg_align}
use flashdb_rs.Flash.{Driver, flash_read}
use flashdb_rs.Kvdb.{Kv, KvSecInfo, Kvdb, kv_magic_word}
use flashdb_rs.Kvdb.Cache.{get_sector_from_cache}
use flashdb_rs.Kvdb.Walk.{scan_magic, find_magic_loop, find_next_kv_addr, get_next_kv_addr}

-- An address between the start and the end of a search, or one that is beyond every sector.
abbrev IsNext : ℕ → ℕ → ℕ → Type 0
IsNext start_bak end r = ((start_bak ≤ r) × (r < end)) ⊎ (2 ^ 32 - 4 ≤ r)

module _ (start_bak start end : ℕ) (buf : List ℕ) where
  abbrev offset : ℕ → ℕ
  offset i = (u32 (start + i) + 2 ^ 64 - 4) % 2 ^ 64

  offset-IsNext :
      (i : ℕ)
      → ltb (u32 (start + i)) end ≡ true
      → leb start_bak (offset i) ≡ true
      → IsNext start_bak end (u32 (offset i))
  offset-IsNext i h k = elim (Bool-cases (ltb (u32 (start + i)) 4)) [
    | inl low ↦ inr (ground arith)
    | inr high ↦ inl (ground arith, ground arith)
  ]

  scan_magic-IsNext :
      (count i r : ℕ) → scan_magic start_bak start end buf count i ≡ some r → IsNext start_bak end r
  unfolding scan_magic
  scan_magic-IsNext zero i r h = absurd (ground arith)
  scan_magic-IsNext (suc count) i r h = elim (Bool-cases (ltb (u32 (start + i)) end)) [
    | inr out ↦ absurd (ground arith)
    | inl inside ↦
        elim (Bool-cases ((field i 4 buf == kv_magic_word) && leb start_bak (offset i))) [
          | inl found ↦
              let e : r ≡ u32 (offset i) = ground arith in
              let k : leb start_bak (offset i) ≡ true = ground arith in
              subst (IsNext start_bak end) (sym e) (offset-IsNext i inside k)
          | inr on ↦ scan_magic-IsNext count (suc i) r (ground arith)
        ]
  ]

module _ {S : Type 0} (d : Driver S) (t : Kvdb) (s : S) where
  -- A search that ends.
  abbrev Ends : ℕ → ℕ → Option ℕ → Type 0
  Ends start_bak end o = (r : ℕ) × (o ≡ some r) × IsNext start_bak end r

  find_magic_loop-Ends :
      (start_bak fuel start end : ℕ)
      → end < 2 ^ 32
      → end - start < fuel
      → Ends start_bak end (find_magic_loop d t s start_bak fuel start end)
  unfolding find_magic_loop
  find_magic_loop-Ends start_bak zero start end h k = absurd (omega arith)
  find_magic_loop-Ends start_bak (suc fuel) start end h k =
      elim (Bool-cases (ltb (start + 32) end)) [
        | inr short ↦ (failed_addr, rw (short, find_magic_loop), inr (omega arith))
        | inl long ↦
            let r = flash_read d t.db.mode s start 32 in
            elim (Bool-cases (is_ok r.0)) [
              | inr bad ↦ (failed_addr, rw (long, find_magic_loop, bad), inr (omega arith))
              | inl ok ↦ elim (Option-cases (scan_magic start_bak start end r.1 28 0)) [
                | inr (addr, e) ↦ (
                  addr,
                  rw (long, find_magic_loop, ok, e),
                  scan_magic-IsNext start_bak start end r.1 28 0 addr e,
                )
                | inl e ↦
                    let next : u32 (start + 28) ≡ start + 28 = ground arith in
                    let (addr, found, range) =
                      find_magic_loop-Ends start_bak fuel (u32 (start + 28)) end h (ground arith) in
                    (addr, rw (long, find_magic_loop, ok, e) found, range)
              ]
            ]
      ]

  find_next_kv_addr-Ends :
      (start end : ℕ) → end < 2 ^ 32 → Ends start end (find_next_kv_addr d t s start end)
  unfolding find_next_kv_addr
  find_next_kv_addr-Ends start end h =
      let (addr, found, range) =
        find_magic_loop-Ends start (suc (end - start)) start end h (omega arith) in
      elim (Option-cases
        (get_sector_from_cache t.sector_cache_table (align_down start t.db.sec_size))) [
          | inl e ↦ (addr, rw (e, find_next_kv_addr) found, range)
          | inr (sector, e) ↦ elim (Bool-cases (start == sector.empty_kv)) [
            | inl end ↦ (failed_addr, rw (e, find_next_kv_addr, end), inr (omega arith))
            | inr more ↦ (addr, rw (e, find_next_kv_addr, more) found, range)
          ]
        ]

  -- From a pair in a sector that ends at `sector_end` the walk goes on to a later one in it, or ends.
  pub get_next_kv_addr-later :
      (sector : KvSecInfo) (kv : Kv) (sector_end : ℕ)
      → sector.addr + t.db.sec_size ≡ sector_end
      → sector_end < 2 ^ 31
      → 16 ≤ t.db.sec_size
      → kv.start ≤ sector_end
      → 0 < kv.len
      → kv.len < 2 ^ 31
      → (next : ℕ) × (get_next_kv_addr d t s sector kv ≡ some next)
        × ((next ≡ failed_addr) ⊎ ((kv.start < next) × (next ≤ sector_end)))
  unfolding get_next_kv_addr
  get_next_kv_addr-later sector kv sector_end e small room h pos short =
      let from = if kv.crc_is_ok then u32 (kv.start + kv.len) else u32 (kv.start + wg_align 1) in
      let on : kv.start < from = elim (Bool-cases kv.crc_is_ok) [
        | inl ok ↦ ground arith
        | inr bad ↦ ground arith
      ] in
      let stop = u32 (u32 (sector.addr + t.db.sec_size) + 2 ^ 32 - 16) in
      let last : u32 (sector.addr + t.db.sec_size) ≡ sector_end = omega arith in
      let (r, found, range) = find_next_kv_addr-Ends from stop (omega arith) in
      elim (Bool-cases (store_index sector.store == store_index StoreStatus.empty)) [
        | inl empty ↦ (failed_addr, rw (empty, get_next_kv_addr), inl refl)
        | inr full ↦
            let valid : (kv.start == failed_addr) ≡ false = ground arith in
            let inside : leb kv.start (u32 (sector.addr + t.db.sec_size)) ≡ true = ground arith in
            elim (Bool-cases
              ((r == failed_addr) || ltb (u32 (sector.addr + t.db.sec_size)) r || (kv.len == 0))) [
                | inl out ↦
                    (failed_addr, rw (full, get_next_kv_addr, valid, inside, found, out), inl refl)
                | inr more ↦
                    let below : r ≤ sector_end = ground arith in
                    let above : from ≤ r = elim range [
                      | inl x ↦ x.0
                      | inr x ↦ absurd (omega arith)
                    ] in
                    (
                      r,
                      rw (full, get_next_kv_addr, valid, inside, found, more),
                      inr (omega arith, below),
                    )
              ]
      ]
