-- ===== src/Kvdb/Cache/Sectors.antt =====
-- The cache of the sectors' information in flashdb/fdb_kvdb.c as a map: what is read from it after
-- it was updated.
use flashdb_rs.Prelude.{
  ℕ, zero, suc, ◌+◌, ◌≤◌, ◌≡◌, refl, ap, ◌∙◌, subst, ◌⊎◌, inl, inr, Bool, true, false, Bool-cases,
  Option-cases, Option, some, none, List, [], ◌∷◌, arith, ◌==◌, if◌then◌else◌, set, get_elem?,
}
use flashdb_rs.Types.{data_unused}
use flashdb_rs.Kvdb.{KvSecInfo}
use flashdb_rs.Kvdb.Cache.{find_slot, release, update_sector_cache, get_sector_from_cache}

-- The entry at an index has an address.
abbrev IsAt : List KvSecInfo → ℕ → ℕ → Type 0
IsAt [] k a = 1 ≤ 0
IsAt (entry ∷ table) zero a = (entry.addr == a) ≡ true
IsAt (entry ∷ table) (suc k) a = IsAt table k a

-- It is the first one with it.
abbrev IsFirst : List KvSecInfo → ℕ → ℕ → Type 0
IsFirst [] k a = 1 ≤ 0
IsFirst (entry ∷ table) zero a = (entry.addr == a) ≡ true
IsFirst (entry ∷ table) (suc k) a = ((entry.addr == a) ≡ false) × IsFirst table k a

IsFirst-IsAt : (table : List KvSecInfo) (k a : ℕ) → IsFirst table k a → IsAt table k a
IsFirst-IsAt [] k a h = h
IsFirst-IsAt (entry ∷ table) zero a h = h
IsFirst-IsAt (entry ∷ table) (suc k) a h = IsFirst-IsAt table k a h.1

find_slot-IsFirst :
    (a i : ℕ) (empty : Option ℕ) (table : List KvSecInfo) (j : ℕ)
    → find_slot a i empty table ≡ inl j
    → (k : ℕ) × (j ≡ i + k) × IsFirst table k a
unfolding find_slot
find_slot-IsFirst a i empty [] j h = absurd (ground arith)
find_slot-IsFirst a i empty (entry ∷ table) j h = elim (Bool-cases (entry.addr == a)) [
  | inl hit ↦ (0, ground arith, hit)
  | inr miss ↦
      let next = if entry.addr == data_unused then some i else empty in
      let (k, e, first) = find_slot-IsFirst a (suc i) next table j (ground arith) in
      (suc k, omega arith, (miss, first))
]

-- Without an entry for the address, a free one is reported.
find_slot-free :
    (a i : ℕ) (empty : Option ℕ) (table : List KvSecInfo) (o : Option ℕ)
    → find_slot a i empty table ≡ inr o
    → (get_sector_from_cache table a ≡ none)
      × ((o ≡ empty) ⊎ ((k : ℕ) × (o ≡ some (i + k)) × IsAt table k data_unused))
unfolding find_slot get_sector_from_cache
find_slot-free a i empty [] o h = (refl, inl (ground arith))
find_slot-free a i empty (entry ∷ table) o h = elim (Bool-cases (entry.addr == a)) [
  | inl hit ↦ absurd (ground arith)
  | inr miss ↦
      let next = if entry.addr == data_unused then some i else empty in
      let (g, found) = find_slot-free a (suc i) next table o (ground arith) in
      (
        rw miss g,
        elim found [
          | inl e ↦ elim (Bool-cases (entry.addr == data_unused)) [
            | inl unused ↦
                let at : i ≡ i + 0 = omega arith in inr (0, e ∙ rw unused (ap some at), unused)
            | inr used ↦ inl (e ∙ rw used)
          ]
          | inr (k, e, at) ↦
              let shift : suc i + k ≡ i + suc k = omega arith in inr (suc k, e ∙ ap some shift, at)
        ],
      )
]

get-set_first :
    (table : List KvSecInfo) (k : ℕ) (v : KvSecInfo)
    → IsFirst table k v.addr
    → get_sector_from_cache (set table k v) v.addr ≡ some v
unfolding get_sector_from_cache
get-set_first [] k v h = absurd (omega arith)
get-set_first (entry ∷ table) zero v h = ground arith
get-set_first (entry ∷ table) (suc k) v h = rw (h.0) (get-set_first table k v h.1)

get-set_new :
    (table : List KvSecInfo) (k b : ℕ) (v : KvSecInfo)
    → IsAt table k b
    → get_sector_from_cache table v.addr ≡ none
    → get_sector_from_cache (set table k v) v.addr ≡ some v
unfolding get_sector_from_cache
get-set_new [] k b v h e = absurd (omega arith)
get-set_new (entry ∷ table) zero b v h e = ground arith
get-set_new (entry ∷ table) (suc k) b v h e = elim (Bool-cases (entry.addr == v.addr)) [
  | inl hit ↦ absurd (ground arith)
  | inr miss ↦ rw miss (get-set_new table k b v h (ground arith))
]

get-set_other :
    (table : List KvSecInfo) (k b a : ℕ) (v : KvSecInfo)
    → IsAt table k b
    → (b == a) ≡ false
    → (v.addr == a) ≡ false
    → get_sector_from_cache (set table k v) a ≡ get_sector_from_cache table a
unfolding get_sector_from_cache
get-set_other [] k b a v h p q = refl
get-set_other (entry ∷ table) zero b a v h p q = ground arith
get-set_other (entry ∷ table) (suc k) b a v h p q =
    ap (λ r. if entry.addr == a then some entry else r) (get-set_other table k b a v h p q)

slot-cases :
    (r : ℕ ⊎ Option ℕ) → ((j : ℕ) × (r ≡ inl j)) ⊎ (r ≡ inr none) ⊎ ((j : ℕ) × (r ≡ inr (some j)))
slot-cases (inl j) = inl (j, refl)
slot-cases (inr none) = inr (inl refl)
slot-cases (inr (some j)) = inr (inr (j, refl))

if_true : {A : Type 0} (b : Bool) (x y : A) → b ≡ true → (if b then x else y) ≡ x
if_true true x y h = refl
if_true false x y h = absurd (ground arith)

if_false : {A : Type 0} (b : Bool) (x y : A) → b ≡ false → (if b then x else y) ≡ y
if_false true x y h = absurd (ground arith)
if_false false x y h = refl

-- A released entry reads as its neighbours do.
get-release :
    (table : List KvSecInfo) (j b a : ℕ)
    → IsAt table j b
    → (b == a) ≡ false
    → (data_unused == a) ≡ false
    → get_sector_from_cache (release table j) a ≡ get_sector_from_cache table a
unfolding release
get-release table j b a at h k = elim (Option-cases (get_elem? table j)) [
  | inl e ↦ rw (e, release)
  | inr (entry, e) ↦
      rw (e, release) (get-set_other table j b a (record entry { addr = data_unused }) at h k)
]

module _ (table : List KvSecInfo) (sector : KvSecInfo) where
  abbrev slot : ℕ ⊎ Option ℕ
  slot = find_slot sector.addr 0 none table

  -- The entry that is written stands at the sector's address, or else is free.
  found_slot : (j : ℕ) → slot ≡ inl j → IsFirst table j sector.addr
  found_slot j e =
      let (k, f, first) = find_slot-IsFirst sector.addr 0 none table j e in
      let same : k ≡ j = omega arith in subst (λ x. IsFirst table x sector.addr) same first

  free_slot :
      (j : ℕ)
      → slot ≡ inr (some j)
      → (get_sector_from_cache table sector.addr ≡ none) × IsAt table j data_unused
  free_slot j e =
      let (g, found) = find_slot-free sector.addr 0 none table (some j) e in
      elim found [
        | inl f ↦ absurd (ground arith)
        | inr (k, f, at) ↦
            let same : k ≡ j = ground arith in (g, subst (λ x. IsAt table x data_unused) same at)
      ]

  -- What is written at an entry that was found, or that is free.
  update-found :
      (j : ℕ)
      → slot ≡ inl j
      → update_sector_cache table sector
        ≡ (if sector.check_ok then set table j sector else release table j)
  unfolding update_sector_cache
  update-found j e = rw (e, update_sector_cache)

  update-free :
      (j : ℕ)
      → slot ≡ inr (some j)
      → update_sector_cache table sector ≡ (if sector.check_ok then set table j sector else table)
  unfolding update_sector_cache
  update-free j e = rw (e, update_sector_cache)

  update-full : slot ≡ inr none → update_sector_cache table sector ≡ table
  unfolding update_sector_cache
  update-full e = rw (e, update_sector_cache)

  -- After an update with a sector whose header is in order, the cache gives this very information
  -- on it, or none where it had none and no entry was free: never an older one.
  pub update_sector_cache-get_self :
      sector.check_ok ≡ true
      → let after = get_sector_from_cache (update_sector_cache table sector) sector.addr in
        (after ≡ some sector) ⊎ ((after ≡ none) × (get_sector_from_cache table sector.addr ≡ none))
  update_sector_cache-get_self h = elim (slot-cases slot) [
    | inl (j, e) ↦ inl (
        ap (λ l. get_sector_from_cache l sector.addr)
          (update-found j e ∙ if_true sector.check_ok (set table j sector) (release table j) h)
        ∙ get-set_first table j sector (found_slot j e))
    | inr (inl e) ↦
        let (g, found) = find_slot-free sector.addr 0 none table none e in
        inr (ap (λ l. get_sector_from_cache l sector.addr) (update-full e) ∙ g, g)
    | inr (inr (j, e)) ↦
        let (g, at) = free_slot j e in
        inl (
          ap (λ l. get_sector_from_cache l sector.addr)
            (update-free j e ∙ if_true sector.check_ok (set table j sector) table h)
          ∙ get-set_new table j data_unused sector at g)
  ]

  -- An update with any sector leaves what the cache gives for another address.
  pub update_sector_cache-get_other :
      (a : ℕ)
      → (sector.addr == a) ≡ false
      → (data_unused == a) ≡ false
      → get_sector_from_cache (update_sector_cache table sector) a ≡ get_sector_from_cache table a
  update_sector_cache-get_other a h k =
      let read = λ (l : List KvSecInfo). get_sector_from_cache l a in
      elim (slot-cases slot) [
        | inl (j, e) ↦
            let at = IsFirst-IsAt table j sector.addr (found_slot j e) in
            ap read (update-found j e) ∙ elim (Bool-cases sector.check_ok) [
              | inl ok ↦
                  ap read (if_true sector.check_ok (set table j sector) (release table j) ok)
                  ∙ get-set_other table j sector.addr a sector at h h
              | inr bad ↦
                  ap read (if_false sector.check_ok (set table j sector) (release table j) bad)
                  ∙ get-release table j sector.addr a at h k
            ]
        | inr (inl e) ↦ ap read (update-full e)
        | inr (inr (j, e)) ↦
            let (g, at) = free_slot j e in
            ap read (update-free j e) ∙ elim (Bool-cases sector.check_ok) [
              | inl ok ↦
                  ap read (if_true sector.check_ok (set table j sector) table ok)
                  ∙ get-set_other table j data_unused a sector at k h
              | inr bad ↦ ap read (if_false sector.check_ok (set table j sector) table bad)
            ]
      ]
