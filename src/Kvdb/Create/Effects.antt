-- ===== src/Kvdb/Create/Effects.antt =====
-- The effect on a device of the writes of `create_kv_blob` of flashdb/fdb_kvdb.c.
use flashdb_rs.Prelude.{
  ℕ, ◌+◌, ◌-◌, ◌≤◌, ◌<◌, ◌≡◌, refl, sym, ap, ap₂, ◌∙◌, subst, Bool, true, false, List, ◌++◌, arith,
  length, take, drop, replicate, ◌==◌, if◌then◌else◌,
}
use flashdb_rs.Prelude.Bytes.{AreBytes}
use flashdb_rs.Types.{
  FdbErr, no_err, is_ok, StorageType, custom, byte_erased, u32, wg_align, wg_align_down,
}
use flashdb_rs.Flash.{Driver, Step, ◌>>◌, done, flash_write}
use flashdb_rs.Flash.Nor.{IsNor}
use flashdb_rs.Flash.Effects.{Leaves, >>-Leaves, flash_write-Leaves}
use flashdb_rs.Status.{write_status}
use flashdb_rs.Status.Effects.{write_status-Leaves}
use flashdb_rs.Kvdb.{Kvdb}
use flashdb_rs.Kvdb.Create.{kv_hdr_bytes, write_kv_hdr, align_write, cache_pair, write_pair}
use flashdb_rs.Kvdb.Create.Written.{
  take_all, new_hdr, opened, headed, named, valued, written, opened-Programs, headed-Programs,
  named-Programs, valued-Programs, written-Programs,
}

module _ {S : Type 0} (d : Driver S) (view : S → ℕ → ℕ) {cap : ℕ} (nor : IsNor d view cap) where
  -- Without an alignment the bytes are written by one call.
  align_write-flash_write :
      (addr : ℕ) (buf : List ℕ) (s : S) (k : ℕ → ℕ)
      → Leaves d view (flash_write d custom addr buf false) s k
      → Leaves d view (align_write d custom addr buf (length buf)) s k
  unfolding align_write
  align_write-flash_write addr buf s k h =
      let n = length buf in
      let down : wg_align_down n ≡ n = omega arith in
      let none_left : n - n ≡ 0 = omega arith in
      let parts = λ (x rest : ℕ).
        flash_write d custom addr (take x buf) false
        >> (if rest == 0
            then done
            else flash_write d custom (u32 (addr + x))
                (take rest (drop x buf) ++ replicate (1 - rest) byte_erased) false) in
      let e : align_write d custom addr buf n ≡ (flash_write d custom addr buf false >> done) =
        ap (λ x. parts x (n - x)) down
        ∙ ap (parts n) none_left
        ∙ ap (λ l. flash_write d custom addr l false >> done) (take_all buf) in
      subst (λ step. Leaves d view step s k) (sym e)
        (>>-Leaves d view (flash_write d custom addr buf false) done s k k h (λ s2 e2. (refl, e2)))

  module _ (m : ℕ → ℕ) (a : ℕ) (key value : List ℕ)
      (inside : a + 24 + length key + length value ≤ cap) (small : cap < 0xffff_ffff)
      (free : (p : ℕ) → a ≤ p → p < a + 24 + length key + length value → m p ≡ byte_erased)
      (key_bytes : AreBytes key) (value_bytes : AreBytes value) (short : length key ≤ 64) where
    pub write_kv_hdr-Leaves :
        (s : S)
        → view s ≡ m
        → Leaves d view (write_kv_hdr d custom a (new_hdr key value)) s (headed m a key value)
    unfolding write_kv_hdr
    write_kv_hdr-Leaves s contents =
        let at : u32 (a + 4) ≡ a + 4 = omega arith in
        let put = λ (x : ℕ). flash_write d custom x (kv_hdr_bytes (new_hdr key value)) false in
        subst
          (λ x. Leaves d view (write_status d custom a 6 1 false >> put x) s (headed m a key value))
          (sym at)
          (>>-Leaves d view (write_status d custom a 6 1 false) (put (a + 4)) s
            (opened m a key value) (headed m a key value)
            (write_status-Leaves d view nor 6 0 a false s m (omega arith) (omega arith) contents
              (omega arith) (opened-Programs m a key value free key_bytes value_bytes short))
            (λ s1 e1.
              flash_write-Leaves d view nor (a + 4) (kv_hdr_bytes (new_hdr key value)) false s1
                (opened m a key value) e1 (omega arith)
                (headed-Programs m a key value free key_bytes value_bytes short)))

    -- The writes behind the header.
    abbrev rest_program : ℕ → ℕ → Step S
    rest_program name_addr value_addr =
        align_write d custom name_addr key (length key)
        >> align_write d custom value_addr value (length value)
        >> write_status d custom a 6 2 true

    rest_program-Leaves :
        (s : S)
        → view s ≡ headed m a key value
        → Leaves d view (rest_program (a + 24) (a + 24 + length key)) s (written m a key value)
    rest_program-Leaves s contents =
        let name = a + 24 in
        let body = a + 24 + length key in
        let last = write_status d custom a 6 2 true in
        let put_value = align_write d custom body value (length value) in
        >>-Leaves d view (align_write d custom name key (length key)) (put_value >> last) s
          (named m a key value) (written m a key value)
          (align_write-flash_write name key s (named m a key value) (
            flash_write-Leaves d view nor name key false s (headed m a key value) contents
              (omega arith) (named-Programs m a key value free key_bytes value_bytes short)))
          (λ s1 e1.
            >>-Leaves d view put_value last s1 (valued m a key value) (written m a key value)
              (align_write-flash_write body value s1 (valued m a key value) (
                flash_write-Leaves d view nor body value false s1 (named m a key value) e1 inside
                  (valued-Programs m a key value free key_bytes value_bytes short)))
              (λ s2 e2.
                write_status-Leaves d view nor 6 1 a true s2 (valued m a key value) (omega arith)
                  (omega arith) e2 (omega arith)
                  (written-Programs m a key value free key_bytes value_bytes short)))

    -- The body of `write_pair`, with its addresses and what it leaves of the database.
    abbrev writes :
        StorageType → (name_addr value_addr : ℕ) → (before after : Kvdb) → S → FdbErr × Kvdb × S
    writes mode name_addr value_addr before after s =
        let head = write_kv_hdr d mode a (new_hdr key value) s in
        elim (is_ok head.0) [
          | false ↦ (head.0, before, head.1)
          | true ↦
              let rest =
                (align_write d mode name_addr key (length key)
                    >> align_write d mode value_addr value (length value)
                    >> write_status d mode a 6 2 true)
                  head.1 in
              (rest.0, after, rest.1)
        ]

    -- The writes of a pair, and the database that they leave.
    pub write_pair-written :
        (sec_addr : ℕ) (is_full : Bool) (t : Kvdb) (s : S)
        → t.db.mode ≡ custom
        → view s ≡ m
        → (s2 : S) × (write_pair d sec_addr key value (new_hdr key value) a is_full t s
            ≡ (no_err, cache_pair sec_addr key (new_hdr key value) a is_full t, s2))
          × (view s2 ≡ written m a key value)
    unfolding write_pair
    write_pair-written sec_addr is_full t s mode contents =
        let (head_ok, head) = write_kv_hdr-Leaves s contents in
        let s1 = (write_kv_hdr d custom a (new_hdr key value) s).1 in
        let (rest_ok, rest) = rest_program-Leaves s1 head in
        let s2 = (rest_program (a + 24) (a + 24 + length key) s1).1 in
        let name_addr : u32 (a + 24) ≡ a + 24 = omega arith in
        let value_addr : u32 (u32 (a + 24) + wg_align (length key)) ≡ a + 24 + length key =
          omega arith in
        let after = cache_pair sec_addr key (new_hdr key value) a is_full t in
        (
          s2,
          ap (λ x. writes x (u32 (a + 24)) (u32 (u32 (a + 24) + wg_align (length key))) t after s)
                mode
              ∙ ap₂ (λ x y. writes custom x y t after s) name_addr value_addr
              ∙ rw (head_ok, writes, rest_ok),
          rest,
        )
