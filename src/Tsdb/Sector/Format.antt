-- ===== src/Tsdb/Sector/Format.antt =====
-- A sector that `format_sector` of flashdb/fdb_tsdb.c has formatted, as `read_sector_info` reads
-- it.
use flashdb_rs.Prelude.{
  ℕ, zero, suc, ◌+◌, ◌-◌, ◌%◌, ◌^◌, ◌≤◌, ◌<◌, ◌≡◌, refl, sym, ap, ap₂, ◌∙◌, subst, ◌⊎◌, inl, inr,
  Bool, true, some, List, [], ◌∷◌, ltb, leb, ◌&&◌, if◌then◌else◌, arith, take, drop, replicate,
}
use flashdb_rs.Prelude.Bytes.{field, le_bytes, le_value, le_bytes-AreBytes, sub32}
use flashdb_rs.Types.{
  no_err, custom, StoreStatus, TslStatus, byte_erased, u32, store_status, tsl_status, write_gran,
}
use flashdb_rs.Flash.{Driver, Step, flash_read, flash_write, flash_erase, ◌>>◌}
use flashdb_rs.Flash.Nor.{slice, patch, IsNor}
use flashdb_rs.Flash.Effects.{
  Leaves, >>-Leaves, flash_write-Leaves, flash_erase-Leaves, flash_read-slice, patch_below,
  patch_above, slice-patch, Programs-erased,
}
use flashdb_rs.Flash.Slices.{field-slice}
use flashdb_rs.Status.{write_status, get_status, count_unwritten, is_written}
use flashdb_rs.Status.Effects.{status_byte, write_status-Leaves}
use flashdb_rs.Tsdb.{SecInfo, Tsdb, sector_magic_word, sector_store_status_num, tsl_status_num}
use flashdb_rs.Tsdb.Sector.{read_end_info, clear_counts, read_sector_info, format_sector}

-- What the header of a formatted sector holds.
record IsFresh (buf : List ℕ) : Type 0 where
  magic : field 4 4 buf ≡ sector_magic_word
  status : take 1 buf ≡ (status_byte 1 ∷ [])
  time : field 8 8 buf ≡ 0xffff_ffff_ffff_ffff
  stat0 : take 1 (drop 28 buf) ≡ (0xff ∷ [])
  stat1 : take 1 (drop 44 buf) ≡ (0xff ∷ [])

empty_status :
    store_status (get_status write_gran (status_byte 1 ∷ []) sector_store_status_num)
    ≡ StoreStatus.empty
unfolding get_status count_unwritten is_written
empty_status = refl

unused_status : tsl_status (get_status write_gran (0xff ∷ []) tsl_status_num) ≡ TslStatus.unused
unfolding get_status count_unwritten is_written
unused_status = refl

-- The information on an empty sector; the end time and index are not touched.
abbrev pub fresh_info : ℕ → ℕ → SecInfo → SecInfo
fresh_info addr sec_size sector = record sector {
  check_ok = true;
  status = StoreStatus.empty;
  addr = addr;
  magic = sector_magic_word;
  start_time = 0xffff_ffff_ffff_ffff;
  end_info_stat0 = TslStatus.unused;
  end_info_stat1 = TslStatus.unused;
  remain = sec_size - 56;
  empty_idx = addr + 56;
  empty_data = addr + sec_size;
}

read_end_info-fresh :
    (buf : List ℕ) (sector : SecInfo)
    → IsFresh buf
    → read_end_info buf sector
      ≡ some
          (record sector { end_info_stat0 = TslStatus.unused; end_info_stat1 = TslStatus.unused })
unfolding read_end_info
read_end_info-fresh buf sector fresh = rw (fresh.stat0, fresh.stat1, read_end_info, unused_status)

module _ {S : Type 0} (d : Driver S) (t : Tsdb) (s : S) (addr : ℕ) (sector : SecInfo) where
  read_sector_info-header :
      (traversal : Bool)
      → IsFresh (flash_read d t.db.mode s addr 56).1
      → 56 ≤ t.db.sec_size
      → addr + t.db.sec_size < 2 ^ 32
      → read_sector_info d t s addr sector traversal
        ≡ some (no_err, fresh_info addr t.db.sec_size sector)
  unfolding read_sector_info clear_counts
  read_sector_info-header traversal fresh h k =
      let index : u32 (addr + 56) ≡ addr + 56 = omega arith in
      let end : u32 (addr + t.db.sec_size) ≡ addr + t.db.sec_size = omega arith in
      let rest : sub32 (addr + t.db.sec_size) (addr + 56) ≡ t.db.sec_size - 56 = omega arith in
      rw (
        fresh.magic,
        read_sector_info,
        fresh.status,
        empty_status,
        fresh.time,
        read_end_info-fresh (flash_read d t.db.mode s addr 56).1 _ fresh,
        clear_counts,
        fresh.magic,
        index,
        end,
        rest,
      )

-- The contents that `format_sector` leaves.
module _ (m : ℕ → ℕ) (addr sec_size : ℕ) where
  abbrev erased : ℕ → ℕ
  erased p = if leb addr p && ltb p (addr + sec_size) then byte_erased else m p

  abbrev marked : ℕ → ℕ
  marked = patch erased addr (status_byte 1 ∷ [])

  abbrev formatted : ℕ → ℕ
  formatted = patch marked (addr + 4) (le_bytes 4 sector_magic_word)

  module _ (h : 56 ≤ sec_size) where
    erased-inside : (p : ℕ) → addr ≤ p → p < addr + sec_size → erased p ≡ byte_erased
    erased-inside p q r = ground arith

    formatted-unused : (p : ℕ) → addr + 8 ≤ p → p < addr + sec_size → formatted p ≡ byte_erased
    formatted-unused p q r =
        patch_above marked (addr + 4) (le_bytes 4 sector_magic_word) p (omega arith)
        ∙ patch_above erased addr (status_byte 1 ∷ []) p (omega arith)
        ∙ erased-inside p (omega arith) r

    formatted-outside : (p : ℕ) → (p < addr) ⊎ (addr + sec_size ≤ p) → formatted p ≡ m p
    formatted-outside p q = elim q [
      | inl lo ↦
          patch_below marked (addr + 4) (le_bytes 4 sector_magic_word) p (omega arith)
          ∙ patch_below erased addr (status_byte 1 ∷ []) p lo
          ∙ ground arith
      | inr hi ↦
          patch_above marked (addr + 4) (le_bytes 4 sector_magic_word) p (omega arith)
          ∙ patch_above erased addr (status_byte 1 ∷ []) p (omega arith)
          ∙ ground arith
    ]

    formatted-status : formatted addr ≡ status_byte 1
    formatted-status =
        patch_below marked (addr + 4) (le_bytes 4 sector_magic_word) addr (omega arith)
        ∙ ground arith

    formatted-bytes :
        (o n : ℕ) → 8 ≤ o → o + n ≤ 56 → slice formatted (addr + o) n ≡ replicate n byte_erased
    formatted-bytes o zero q r = refl
    formatted-bytes o (suc n) q r =
        let e : suc (addr + o) ≡ addr + suc o = omega arith in
        ap₂ ◌∷◌ (formatted-unused (addr + o) (omega arith) (omega arith))
          (ap (λ a. slice formatted a n) e ∙ formatted-bytes (suc o) n (omega arith) (omega arith))

    formatted-IsFresh : IsFresh (slice formatted addr 56)
    formatted-IsFresh = record {
      magic = ap le_value (
          field-slice formatted addr 4 4 56 (omega arith)
          ∙ slice-patch marked (addr + 4) (le_bytes 4 sector_magic_word));
      status = ap (λ b. b ∷ []) formatted-status;
      time = ap le_value (
          field-slice formatted addr 8 8 56 (omega arith)
          ∙ formatted-bytes 8 8 (omega arith) (omega arith));
      stat0 =
          field-slice formatted addr 28 1 56 (omega arith)
          ∙ formatted-bytes 28 1 (omega arith) (omega arith);
      stat1 =
          field-slice formatted addr 44 1 56 (omega arith)
          ∙ formatted-bytes 44 1 (omega arith) (omega arith);
    }

module _ {S : Type 0} (d : Driver S) (view : S → ℕ → ℕ) {cap : ℕ} (nor : IsNor d view cap)
    (s : S) where
  abbrev program : ℕ → ℕ → Step S
  program addr sec_size =
      flash_erase d custom addr sec_size
      >> write_status d custom addr sector_store_status_num 1 true
      >> flash_write d custom (addr + 4) (le_bytes 4 sector_magic_word) true

  program-Leaves :
      (addr sec_size : ℕ)
      → 56 ≤ sec_size
      → addr + sec_size ≤ cap
      → Leaves d view (program addr sec_size) s (formatted (view s) addr sec_size)
  program-Leaves addr sec_size h k =
      let m = view s in
      let mark = write_status d custom addr sector_store_status_num 1 true in
      let put = flash_write d custom (addr + 4) (le_bytes 4 sector_magic_word) true in
      let clean = erased-inside m addr sec_size h in
      >>-Leaves d view (flash_erase d custom addr sec_size) (mark >> put) s (erased m addr sec_size)
        (formatted m addr sec_size) (flash_erase-Leaves d view nor addr sec_size s m refl k)
        (λ s1 e1.
          >>-Leaves d view mark put s1 (marked m addr sec_size) (formatted m addr sec_size)
            (write_status-Leaves d view nor 4 0 addr true s1 (erased m addr sec_size) (omega arith)
              (omega arith) e1 (omega arith) (rw (clean addr (omega arith) (omega arith))))
            (λ s2 e2.
              flash_write-Leaves d view nor (addr + 4) (le_bytes 4 sector_magic_word) true s2
                (marked m addr sec_size) e2 (omega arith)
                (Programs-erased (marked m addr sec_size) (addr + 4) (le_bytes 4 sector_magic_word)
                  (λ p q r.
                    patch_above (erased m addr sec_size) addr (status_byte 1 ∷ []) p (omega arith)
                    ∙ clean p (omega arith) (omega arith))
                  (le_bytes-AreBytes 4 sector_magic_word))))

  module _ (t : Tsdb) (addr : ℕ) (mode : t.db.mode ≡ custom) (room : 56 ≤ t.db.sec_size)
      (fits : addr + t.db.sec_size ≤ cap) (small : cap < 2 ^ 32) where
    pub format_sector-program :
        addr % t.db.sec_size ≡ 0 → format_sector d t addr s ≡ some (program addr t.db.sec_size s)
    unfolding format_sector
    format_sector-program e =
        let index : u32 (addr + 4) ≡ addr + 4 = omega arith in rw (mode, index, e)

    -- On a device that behaves like NOR flash, `format_sector` succeeds at an address that is a
    -- multiple of the sector's size. Then `read_sector_info` finds an empty sector there, with all
    -- of its room left; what follows the magic word and the status is erased up to the sector's
    -- end, and every byte outside of the sector is as it was.
    pub format_sector-read_sector_info :
        addr % t.db.sec_size ≡ 0
        → (s2 : S) × (format_sector d t addr s ≡ some (no_err, s2))
          × ((sector : SecInfo) (traversal : Bool)
              → read_sector_info d t s2 addr sector traversal
                ≡ some (no_err, fresh_info addr t.db.sec_size sector))
          × ((p : ℕ) → addr + 8 ≤ p → p < addr + t.db.sec_size → view s2 p ≡ byte_erased)
          × ((p : ℕ) → (p < addr) ⊎ (addr + t.db.sec_size ≤ p) → view s2 p ≡ view s p)
    format_sector-read_sector_info h =
        let m = view s in
        let sec = t.db.sec_size in
        let s2 = (program addr sec s).1 in
        let (ok, after) = program-Leaves addr sec room fits in
        let read : (flash_read d t.db.mode s2 addr 56).1 ≡ slice (formatted m addr sec) addr 56 =
          ap (λ mode. (flash_read d mode s2 addr 56).1) mode
          ∙ ap (λ r. r.1)
              (flash_read-slice d view nor addr 56 s2 (formatted m addr sec) after (omega arith)) in
        (
          s2,
          format_sector-program h ∙ ap (λ e. some (e, s2)) ok,
          λ sector traversal.
              read_sector_info-header d t s2 addr sector traversal
                (subst IsFresh (sym read) (formatted-IsFresh m addr sec room)) room (omega arith),
          λ p q r. ap (λ k. k p) after ∙ formatted-unused m addr sec room p q r,
          λ p q. ap (λ k. k p) after ∙ formatted-outside m addr sec room p q,
        )
