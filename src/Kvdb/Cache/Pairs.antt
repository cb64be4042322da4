-- ===== src/Kvdb/Cache/Pairs.antt =====
-- What `get_kv_from_cache` of flashdb/fdb_kvdb.c finds after `update_kv_cache`.
use flashdb_rs.Prelude.{
  ℕ, zero, suc, ◌+◌, ◌-◌, ◌^◌, ◌<◌, ◌≡◌, ◌≢◌, ◌⊎◌, inl, inr, refl, ap, ◌∙◌, subst, Bool, true,
  false, Bool-cases, Option, none, some, List, [], ◌∷◌, ◌==◌, ltb, if◌then◌else◌, set, length,
  arith,
}
use flashdb_rs.Types.{data_unused, u32}
use flashdb_rs.Flash.{Driver, flash_read}
use flashdb_rs.Kvdb.{Kvdb, KvCacheNode, kv_cache_table_size}
use flashdb_rs.Kvdb.Cache.{
  name_crc_of, age_nodes, update_kv_cache, starts_with, lookup_kv, get_kv_from_cache,
}

-- The activities are those of a `uint16_t`.
abbrev pub AreActive : List KvCacheNode → Type 0
AreActive [] = Unit {0}
AreActive (node ∷ table) = (node.active < 2 ^ 16) × AreActive table

-- No entry has the checksum.
abbrev HasNo : ℕ → List KvCacheNode → Type 0
HasNo crc [] = Unit {0}
HasNo crc (node ∷ table) = ((node.name_crc == crc) ≡ false) × HasNo crc table

some-not_none : (j : ℕ) → some j ≢ none
some-not_none j e = ground arith

-- The slot that is taken once `i` entries were looked at, of an empty one and the least active one.
abbrev HasSlot : (i : ℕ) (empty min : Option ℕ) → ℕ → Type 0
HasSlot i empty min act =
    ((i ≡ 0) × (empty ≡ none) × (min ≡ none) × (act ≡ 0xffff))
    ⊎ (((j : ℕ) × (j < i) × (empty ≡ some j))
        ⊎ ((empty ≡ none) × (j : ℕ) × (j < i) × (min ≡ some j)))

free-HasSlot :
    (i : ℕ) (empty min : Option ℕ) (act : ℕ)
    → HasSlot i empty min act
    → HasSlot (suc i) (elim empty [ none ↦ some i | some j ↦ some j ]) min act
free-HasSlot i none min act h = inr (inl (i, omega arith, refl))
free-HasSlot i (some j) min act (inl h) = absurd (some-not_none j h.1)
free-HasSlot i (some j) min act (inr (inl (k, below, e))) = inr (inl (k, omega arith, e))
free-HasSlot i (some j) min act (inr (inr h)) = absurd (some-not_none j h.0)

used-HasSlot :
    (i : ℕ) (empty min : Option ℕ) (act active : ℕ)
    → active < 0xffff
    → HasSlot i empty min act
    → HasSlot
        (suc i)
        empty
        (if ltb active act then some i else min)
        (if ltb active act then active else act)
used-HasSlot i empty min act active h (inl (start, e, m, a)) =
    let less : ltb active act ≡ true = ground arith in rw less (inr (inr (e, i, omega arith, refl)))
used-HasSlot i empty min act active h (inr (inl (j, below, e))) = inr (inl (j, omega arith, e))
used-HasSlot i empty min act active h (inr (inr (e, j, below, m))) =
    elim (Bool-cases (ltb active act)) [
      | inl less ↦ rw less (inr (inr (e, i, omega arith, refl)))
      | inr more ↦ rw more (inr (inr (e, j, omega arith, m)))
    ]

module _ {S : Type 0} (d : Driver S) (t : Kvdb) (s : S) (name : List ℕ) (crc addr : ℕ)
    (used : (addr == data_unused) ≡ false)
    (there : starts_with name (flash_read d t.db.mode s (u32 (addr + 24)) 64).1 ≡ true) where
  abbrev Finds : List KvCacheNode → Type 0
  Finds table = (lookup_kv d t s name crc table).0 ≡ some addr

  lookup_kv-hit :
      (node : KvCacheNode) (table : List KvCacheNode)
      → node.addr ≡ addr
      → (node.name_crc == crc) ≡ true
      → Finds (node ∷ table)
  unfolding lookup_kv
  lookup_kv-hit node table e h = rw (e, used, h, there) refl

  lookup_kv-miss :
      (node : KvCacheNode) (table : List KvCacheNode)
      → (node.name_crc == crc) ≡ false
      → Finds table
      → Finds (node ∷ table)
  unfolding lookup_kv
  lookup_kv-miss node table h found = elim (Bool-cases (node.addr == data_unused)) [
    | inl free ↦ rw free found
    | inr taken ↦ rw (taken, h) found
  ]

  abbrev new_node : KvCacheNode
  new_node = record { name_crc = crc; active = kv_cache_table_size; addr = addr }

  set-Finds :
      (table : List KvCacheNode) (j : ℕ)
      → HasNo crc table
      → j < length table
      → Finds (set table j new_node)
  set-Finds [] j h k = absurd (omega arith)
  set-Finds (node ∷ table) zero h k = lookup_kv-hit new_node table refl (ground arith)
  set-Finds (node ∷ table) (suc j) h k =
      lookup_kv-miss node (set table j new_node) h.0 (set-Finds table j h.1 (omega arith))

  -- After the loop an entry is found, or none has the checksum and there is a slot.
  abbrev Aged : ℕ → ℕ → Bool × Option ℕ × Option ℕ × List KvCacheNode → Type 0
  Aged n size r =
      ((r.0 ≡ true) × Finds r.3)
      ⊎ ((r.0 ≡ false) × HasNo crc r.3 × (length r.3 ≡ size) × (act : ℕ) × HasSlot n r.1 r.2 act)

  Aged-cons :
      (n i : ℕ) (node : KvCacheNode) (size : ℕ)
      → (node.name_crc == crc) ≡ false
      → suc i + size ≡ n
      → (r : Bool × Option ℕ × Option ℕ × List KvCacheNode) → Aged (suc i + size) size r
      → Aged n (suc size) (r.0, r.1, r.2, node ∷ r.3)
  Aged-cons n i node size h e r (inl (hit, found)) = inl (hit, lookup_kv-miss node r.3 h found)
  Aged-cons n i node size h e r (inr (over, no_crc, len, act, slot)) =
      inr (over, (h, no_crc), ap suc len, act, subst (λ x. HasSlot x r.1 r.2 act) e slot)

  age_nodes-Aged :
      (table : List KvCacheNode) (i : ℕ) (empty min : Option ℕ) (act : ℕ)
      → AreActive table
      → HasSlot i empty min act
      → Aged (i + length table) (length table) (age_nodes crc addr i empty min act table)
  unfolding age_nodes
  age_nodes-Aged [] i empty min act h slot =
      inr (refl, tt, refl, act, subst (λ x. HasSlot x empty min act) (omega arith) slot)
  age_nodes-Aged (node ∷ table) i empty min act h slot =
      let size = length table in
      elim (Bool-cases (node.name_crc == crc)) [
        | inl hit ↦
            rw (hit, age_nodes, used)
              (inl (refl, lookup_kv-hit (record node { addr = addr }) table refl hit))
        | inr miss ↦ elim (Bool-cases (node.addr == data_unused)) [
          | inl free ↦
              let first : Option ℕ = elim empty [ none ↦ some i | some j ↦ some j ] in
              rw (miss, age_nodes, used, free)
                (Aged-cons (i + suc size) i node size miss (omega arith)
                  (age_nodes crc addr (suc i) first min act table)
                  (age_nodes-Aged table (suc i) first min act h.1
                    (free-HasSlot i empty min act slot)))
          | inr taken ↦
              let active = node.active - 1 in
              let least = if ltb active act then some i else min in
              let act2 = if ltb active act then active else act in
              let small = h.0 in
              rw (miss, age_nodes, used, taken)
                (Aged-cons (i + suc size) i (record node { active = active }) size miss
                  (omega arith) (age_nodes crc addr (suc i) empty least act2 table)
                  (age_nodes-Aged table (suc i) empty least act2 h.1
                    (used-HasSlot i empty min act active (omega arith) slot)))
        ]
      ]

  -- What `update_kv_cache` makes of the loop's result.
  abbrev placed : Bool × Option ℕ × Option ℕ × List KvCacheNode → List KvCacheNode
  placed r = elim (r.0) [
    | true ↦ r.3
    | false ↦ elim (r.1) [
      | some i ↦ set r.3 i new_node
      | none ↦ elim (r.2) [ some i ↦ set r.3 i new_node | none ↦ r.3 ]
    ]
  ]

  placed-Finds :
      (size : ℕ) (r : Bool × Option ℕ × Option ℕ × List KvCacheNode)
      → 0 < size
      → Aged size size r
      → Finds (placed r)
  placed-Finds size r pos (inl (hit, found)) = rw (placed, hit) found
  placed-Finds size r pos (inr (over, no_crc, len, act, inl (start, e, m, a))) =
      absurd (omega arith)
  placed-Finds size r pos (inr (over, no_crc, len, act, inr (inl (j, below, e)))) =
      rw (placed, over, e) (set-Finds r.3 j no_crc (omega arith))
  placed-Finds size r pos (inr (over, no_crc, len, act, inr (inr (e, j, below, m)))) =
      rw (placed, over, e, m) (set-Finds r.3 j no_crc (omega arith))

module _ {S : Type 0} (d : Driver S) (s : S) where
  -- After `update_kv_cache` with an address at which the device has the name, `get_kv_from_cache`
  -- of that name gives that address, whatever the other entries say: the table has an entry, and
  -- the activities are those of a `uint16_t`.
  pub update_kv_cache-get_kv_from_cache :
      (t : Kvdb) (table : List KvCacheNode) (name : List ℕ) (addr : ℕ)
      → t.kv_cache_table ≡ update_kv_cache table name addr
      → addr ≢ data_unused
      → 0 < length table
      → AreActive table
      → starts_with name (flash_read d t.db.mode s (u32 (addr + 24)) 64).1 ≡ true
      → (get_kv_from_cache d t s name).0 ≡ some addr
  unfolding get_kv_from_cache update_kv_cache
  update_kv_cache-get_kv_from_cache t table name addr e valid pos active there =
      let crc = name_crc_of name in
      let used : (addr == data_unused) ≡ false = ground arith in
      let start : HasSlot 0 none none 0xffff = inl (refl, refl, refl, refl) in
      let aged =
        age_nodes-Aged d t s name crc addr used there table 0 none none 0xffff active start in
      let zero_add : 0 + length table ≡ length table = omega arith in
      let r = age_nodes crc addr 0 none none 0xffff table in
      ap (λ x. (lookup_kv d t s name crc x).0) e
      ∙ placed-Finds d t s name crc addr used there (length table) r pos
          (subst (λ n. Aged d t s name crc addr used there n (length table) r) zero_add aged)
