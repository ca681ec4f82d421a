-- ===== src/Wal/Prefix.antt =====
-- CalcXLogPageIVPrefix of src/access/open_pg_tde_xlog_smgr.c: the IV prefixes of WAL segments.
use open_pg_tde.Base.{
  [], ◌∷◌, ℕ, ◌+◌, ◌-◌, ◌*◌, ◌/◌, ◌%◌, ◌^◌, ◌<◌, ◌≡◌, ◌↔◌, sym, ap, ◌∙◌, arith, Bytes, u128,
  le_bytes, le_bytes-injective,
}
use mathlib.Core.List.{reverse, reverse-reverse}

-- the value of bytes in big-endian order, which the code gets by reversing them
unfoldable pub be_value : ℕ → Bytes → ℕ
be_value acc [] = acc
be_value acc (x ∷ xs) = be_value (acc * 256 + x) xs

-- CalcXLogPageIVPrefix. Bit 32 of the base is cleared. The or of the two shifted numbers is their
-- sum, as a 64-bit segment number reaches bit 95 only; a timeline loses its upper 16 bits.
unfoldable pub calc_xlog_page_iv_prefix : ℕ → ℕ → Bytes → Bytes
unfolding be_value
calc_xlog_page_iv_prefix tli segno base_iv =
    let base = be_value 0 base_iv in
    let cleared = base - base / 2 ^ 32 % 2 * 2 ^ 32 in
    let offset = u128 (tli * 2 ^ 112) + segno * 2 ^ 32 in
    reverse (le_bytes 16 (u128 (cleared + offset)))

shift_cancel : (x o p : ℕ) → o < 2 ^ 128 → p < 2 ^ 128 → u128 (x + o) ≡ u128 (x + p) → o ≡ p
shift_cancel x o p ho hp h = omega arith

offset-injective :
    (tli tli' segno segno' : ℕ)
    → segno < 2 ^ 64
    → segno' < 2 ^ 64
    → u128 (tli * 2 ^ 112) + segno * 2 ^ 32 ≡ u128 (tli' * 2 ^ 112) + segno' * 2 ^ 32
    → (tli % 2 ^ 16 ≡ tli' % 2 ^ 16) × (segno ≡ segno')
offset-injective tli tli' segno segno' h h' e = (omega arith, omega arith)

same_offset :
    (tli tli' segno segno' : ℕ)
    → tli % 2 ^ 16 ≡ tli' % 2 ^ 16
    → segno ≡ segno'
    → u128 (tli * 2 ^ 112) + segno * 2 ^ 32 ≡ u128 (tli' * 2 ^ 112) + segno' * 2 ^ 32
same_offset tli tli' segno segno' e f = omega arith

offset_lt : (tli segno : ℕ) → segno < 2 ^ 64 → u128 (tli * 2 ^ 112) + segno * 2 ^ 32 < 2 ^ 128
offset_lt tli segno h = omega arith

u128_lt : (n : ℕ) → u128 n < 2 ^ 128
u128_lt n = omega arith

prefix_offset :
    (x o p : ℕ)
    → o < 2 ^ 128
    → p < 2 ^ 128
    → reverse (le_bytes 16 (u128 (x + o))) ≡ reverse (le_bytes 16 (u128 (x + p)))
    → o ≡ p
prefix_offset x o p ho hp e = shift_cancel x o p ho hp (
    le_bytes-injective 16 (u128 (x + o)) (u128 (x + p)) (u128_lt (x + o)) (u128_lt (x + p)) (
      sym (reverse-reverse (le_bytes 16 (u128 (x + o))))
      ∙ ap reverse e
      ∙ reverse-reverse (le_bytes 16 (u128 (x + p)))))

-- Under one base IV, two segments with 64-bit numbers have the same prefix exactly when they have the
-- same number and their timelines agree in the lower 16 bits.
pub calc_xlog_page_iv_prefix-injective :
    (base_iv : Bytes) (tli tli' segno segno' : ℕ)
    → segno < 2 ^ 64
    → segno' < 2 ^ 64
    → (calc_xlog_page_iv_prefix tli segno base_iv ≡ calc_xlog_page_iv_prefix tli' segno' base_iv)
      ↔ ((tli % 2 ^ 16 ≡ tli' % 2 ^ 16) × (segno ≡ segno'))
unfolding calc_xlog_page_iv_prefix
calc_xlog_page_iv_prefix-injective base_iv tli tli' segno segno' h h' =
    let base = be_value 0 base_iv in
    let cleared = base - base / 2 ^ 32 % 2 * 2 ^ 32 in
    (
      λ e.
          offset-injective tli tli' segno segno' h h'
            (prefix_offset cleared _ _ (offset_lt tli segno h) (offset_lt tli' segno' h') e),
      λ e.
          ap (λ o. reverse (le_bytes 16 (u128 (cleared + o))))
            (same_offset tli tli' segno segno' e.0 e.1),
    )
