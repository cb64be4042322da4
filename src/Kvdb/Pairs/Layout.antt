-- ===== src/Kvdb/Pairs/Layout.antt =====
-- A pair of flashdb/fdb_kvdb.c as it lies on a device, and room for one.
use flashdb_rs.Prelude.{
  ℕ, ◌+◌, ◌^◌, ◌≤◌, ◌<◌, ◌≡◌, sym, ap, ◌∙◌, subst, true, List, [], ◌∷◌, ◌++◌, leb, if◌then◌else◌,
  length, set,
}
use flashdb_rs.Prelude.Bytes.{AreBytes, le_bytes}
use flashdb_rs.Types.{custom, Db, KvStatus, byte_erased, store_index, kv_index}
use flashdb_rs.Flash.Nor.{slice}
use flashdb_rs.Status.Effects.{status_byte}
use flashdb_rs.Crc.{calc_crc32}
use flashdb_rs.Kvdb.{Kv, KvSecInfo, Kvdb}
use flashdb_rs.Kvdb.Pairs.{overlay}

-- The checksum of a pair: of the two lengths as they lie in the header, the key and the value.
abbrev pub pair_crc : List ℕ → List ℕ → ℕ
pair_crc key value =
    calc_crc32 0
      ((length key ∷ 0xff ∷ 0xff ∷ 0xff ∷ []) ++ (le_bytes 4 (length value) ++ (key ++ value)))

-- The header from the magic word on.
abbrev pub pair_hdr : List ℕ → List ℕ → List ℕ
pair_hdr key value =
    le_bytes 4 0x3030_564b
    ++ (le_bytes 4 (24 + length key + length value)
        ++ (le_bytes 4 (pair_crc key value)
            ++ ((length key ∷ 0xff ∷ 0xff ∷ 0xff ∷ []) ++ le_bytes 4 (length value))))

-- The contents `m` have a pair at `a`, with a status, a key and a value.
pub record IsStored (m : ℕ → ℕ) (a : ℕ) (st : KvStatus) (key value : List ℕ) : Type 0 where
  pub marked : m a ≡ status_byte (kv_index st)
  pub hdr : slice m (a + 4) 20 ≡ pair_hdr key value
  pub name : slice m (a + 24) (length key) ≡ key
  pub bytes : slice m (a + 24 + length key) (length value) ≡ value

-- The pair lies on the device, and its key is not too long.
pub record Fits (cap : ℕ) (t : Kvdb) (a : ℕ) (key value : List ℕ) : Type 0 where
  pub mode : t.db.mode ≡ custom
  pub inside : a + 24 + length key + length value ≤ cap
  pub small : cap < 0xffff_ffff
  pub whole : 24 + length key + length value ≤ t.db.max_size
  pub short : length key ≤ 64

-- There is room for the pair where the sector's free bytes begin: they are erased, and lie behind
-- the sector's header, whose status is the one that is known, on a device of `cap` bytes.
pub record HasKvRoom (m : ℕ → ℕ) (cap : ℕ) (t : Kvdb) (sector : KvSecInfo) (key value : List ℕ)
    : Type 0 where
  pub fits : Fits cap t sector.empty_kv key value
  pub sector_room : 40 + length key + length value ≤ t.db.sec_size
  pub sector_small : t.db.sec_size < 2 ^ 32
  pub behind : sector.addr < sector.empty_kv
  pub marked : m sector.addr ≡ status_byte (store_index sector.store)
  pub key_bytes : AreBytes key
  pub value_bytes : AreBytes value
  pub free :
      (p : ℕ)
      → sector.empty_kv ≤ p
      → p < sector.empty_kv + 24 + length key + length value
      → m p ≡ byte_erased

-- Only the database's description matters.
pub Fits-db :
    {cap : ℕ} {t : Kvdb} {a : ℕ} {key value : List ℕ} (t2 : Kvdb)
    → t2.db ≡ t.db
    → Fits cap t a key value
    → Fits cap t2 a key value
Fits-db {key} {value} t2 e fits = record {
  mode = ap (λ (x : Db). x.mode) e ∙ fits.mode;
  inside = fits.inside;
  small = fits.small;
  whole =
      subst (λ x. 24 + length key + length value ≤ x) (sym (ap (λ (x : Db). x.max_size) e))
        fits.whole;
  short = fits.short;
}

-- Only those bytes matter.
pub HasKvRoom-kept :
    {m : ℕ → ℕ} {cap : ℕ} {t : Kvdb} {sector : KvSecInfo} {key value : List ℕ} (k : ℕ → ℕ)
    (t2 : Kvdb)
    → t2.db ≡ t.db
    → HasKvRoom m cap t sector key value
    → k sector.addr ≡ m sector.addr
    → ((p : ℕ)
        → sector.empty_kv ≤ p
        → p < sector.empty_kv + 24 + length key + length value
        → k p ≡ m p)
    → HasKvRoom k cap t2 sector key value
HasKvRoom-kept {key} {value} k t2 e room status free = record {
  fits = Fits-db t2 e room.fits;
  sector_room =
      subst (λ (x : Db). 40 + length key + length value ≤ x.sec_size) (sym e) room.sector_room;
  sector_small = subst (λ (x : Db). x.sec_size < 2 ^ 32) (sym e) room.sector_small;
  behind = room.behind;
  marked = status ∙ room.marked;
  key_bytes = room.key_bytes;
  value_bytes = room.value_bytes;
  free = λ p h g. free p h g ∙ room.free p h g;
}

-- What `read_kv` makes of the structure. It ends the name by a NUL: where the name fills the array,
-- in place of its last byte.
abbrev pub stored_kv : Kv → KvStatus → List ℕ → List ℕ → Kv
stored_kv kv st key value = record kv {
  status = st;
  len = 24 + length key + length value;
  crc_is_ok = true;
  value = kv.start + 24 + length key;
  value_len = length value;
  name_len = length key;
  name = set (overlay key kv.name) (if leb 64 (length key) then 63 else length key) 0;
}
