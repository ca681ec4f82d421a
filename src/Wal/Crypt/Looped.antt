-- ===== src/Wal/Crypt/Looped.antt =====
-- The loop of TDEXLogCryptBuffer over chained ranges, in place and into another buffer.
use open_pg_tde.Base.{
  ℕ, ◌≡◌, refl, sym, ap, ◌∙◌, inl, inr, ◌⊎◌, Bool, true, false, Bool-cases, Bytes, length, ok,
  and_then, List, [], ◌∷◌, none,
}
use open_pg_tde.Cipher.{builtin}
use open_pg_tde.Stream.{AesBlock}
use open_pg_tde.Wal.Range.{WalEncryptionRange}
use open_pg_tde.Wal.Cached.{Chained}
use open_pg_tde.Wal.Crypt.{
  SegmentMacros, SegmentPart, data_start, data_end, crypt_range, crypt_ranges,
}
use open_pg_tde.Wal.Crypt.Pointwise.{
  zip_at, length-zip_at, zip_at_over, zip_at_twice, zip_at_self, zip_at_keep, crypt_where,
}
use open_pg_tde.Wal.Crypt.Covered.{IsPart}
use open_pg_tde.Wal.Crypt.Located.{is_covered, range_prefix, crypt_range_lem}
use open_pg_tde.Wal.Crypt.Crypted.{
  HasKeys, one_more, InOrder, range_at, crypt_positions, crypt_each, crypt_each_undo,
  length-crypt_each, Separate, separate, Chained-Separate,
}

module _ (macros : SegmentMacros) (aes : AesBlock) (part : SegmentPart) where
  abbrev one : WalEncryptionRange → ℕ → ℕ → ℕ → ℕ
  one r = crypt_where aes r.key.key (range_prefix part r) (is_covered part r)

  round :
      (r : WalEncryptionRange) (buf src out : Bytes)
      → (r.key.key_len ≡ 16) ⊎ (r.key.key_len ≡ 32)
      → IsPart part (length buf)
      → length buf ≡ length src
      → length src ≡ length out
      → crypt_range macros aes builtin part
          (data_start macros part)
          (data_end macros part (length buf))
          r
          src
          out
        ≡ ok (zip_at (one r) part.offset src out)
  round r buf src out k p e l =
      ap
        (λ n.
          crypt_range macros aes builtin part (data_start macros part) (data_end macros part n) r
            src out)
        e
      ∙ crypt_range_lem macros aes part r k src out (rw (← e) p) l

  over :
      (r : WalEncryptionRange) (rest : List WalEncryptionRange) (q x o : ℕ)
      → (is_covered part r q ≡ true → range_at part rest q ≡ none)
      → crypt_positions aes part rest q x (one r q x o) ≡ crypt_positions aes part (r ∷ rest) q x o
  unfolding range_at
  over r rest q x o h = elim (Bool-cases (is_covered part r q)) [
    | inl c ↦ rw (c, h c) refl
    | inr c ↦ rw c refl
  ]

  again :
      (r : WalEncryptionRange) (rest : List WalEncryptionRange) (q x : ℕ)
      → (is_covered part r q ≡ true → range_at part rest q ≡ none)
      → crypt_positions aes part rest q (one r q x x) (one r q x x)
        ≡ crypt_positions aes part (r ∷ rest) q x x
  unfolding range_at
  again r rest q x h = elim (Bool-cases (is_covered part r q)) [
    | inl c ↦ rw (c, h c) refl
    | inr c ↦ rw c refl
  ]

  distinct_lem :
      (ranges : List WalEncryptionRange) (buf out : Bytes)
      → HasKeys ranges
      → Separate part ranges
      → IsPart part (length buf)
      → length buf ≡ length out
      → crypt_ranges macros aes builtin false part ranges buf out
        ≡ ok (zip_at (crypt_positions aes part ranges) part.offset buf out)
  unfolding crypt_ranges range_at
  distinct_lem [] buf out k s p l =
      ap ok (sym (zip_at_keep (λ q x o. o) part.offset buf out l λ q x o a b. refl))
  distinct_lem (r ∷ rest) buf out (one_more k ks) (separate s ss) p l =
      let out' : Bytes = zip_at (one r) part.offset buf out in
      ap (λ c. and_then c λ o. crypt_ranges macros aes builtin false part rest buf o)
        (round r buf buf out k p refl l)
      ∙ distinct_lem rest buf out' ks ss p (sym (length-zip_at (one r) part.offset buf out l))
      ∙ ap ok (
          zip_at_over (crypt_positions aes part rest) (one r) (crypt_positions aes part (r ∷ rest))
            part.offset buf out λ q x o. over r rest q x o (s q))

  in_place_lem :
      (ranges : List WalEncryptionRange) (buf out : Bytes)
      → HasKeys ranges
      → Separate part ranges
      → IsPart part (length buf)
      → length buf ≡ length out
      → crypt_ranges macros aes builtin true part ranges buf out
        ≡ ok (zip_at (crypt_positions aes part ranges) part.offset out out)
  unfolding crypt_ranges range_at
  in_place_lem [] buf out k s p l =
      ap ok (sym (zip_at_self (λ q x o. o) part.offset out λ q x. refl))
  in_place_lem (r ∷ rest) buf out (one_more k ks) (separate s ss) p l =
      let out' : Bytes = zip_at (one r) part.offset out out in
      ap (λ c. and_then c λ o. crypt_ranges macros aes builtin true part rest buf o)
        (round r buf out out k p l refl)
      ∙ in_place_lem rest buf out' ks ss p
          (l ∙ sym (length-zip_at (one r) part.offset out out refl))
      ∙ ap ok (
          zip_at_twice (crypt_positions aes part rest) (one r) (crypt_positions aes part (r ∷ rest))
            part.offset out λ q x. again r rest q x (s q))

  module _ (ranges : List WalEncryptionRange) (chained : Chained ranges) (in_order : InOrder ranges)
      (keys : HasKeys ranges) where
    -- For chained ranges in the order of their starts, with keys of 16 or 32 bytes, and a buffer inside
    -- a segment: TDEXLogCryptBuffer succeeds, whether it works in place or copies into another buffer
    -- of the same contents, and the result is byte for byte what the one range that covers the byte's
    -- position makes of it.
    pub crypt_ranges-eq-crypt_each :
        (in_place : Bool) (buf : Bytes)
        → IsPart part (length buf)
        → crypt_ranges macros aes builtin in_place part ranges buf buf
          ≡ ok (crypt_each aes part ranges buf)
    unfolding crypt_each
    crypt_ranges-eq-crypt_each true buf p =
        in_place_lem ranges buf buf keys (Chained-Separate part ranges chained in_order) p refl
    crypt_ranges-eq-crypt_each false buf p =
        distinct_lem ranges buf buf keys (Chained-Separate part ranges chained in_order) p refl

    -- Under the same conditions a buffer that is encrypted into another one, as the write of a segment
    -- does, and decrypted in place, as the read does, is the buffer that was given, and the encrypted
    -- buffer has its length.
    pub crypt_ranges_undo :
        (buf : Bytes)
        → IsPart part (length buf)
        → (written : Bytes) × (crypt_ranges macros aes builtin false part ranges buf buf
            ≡ ok written)
          × (length written ≡ length buf)
          × (crypt_ranges macros aes builtin true part ranges written written ≡ ok buf)
    crypt_ranges_undo buf p =
        let len = length-crypt_each aes part ranges buf in
        let written : Bytes = crypt_each aes part ranges buf in
        (
          written,
          crypt_ranges-eq-crypt_each false buf p,
          len,
          crypt_ranges-eq-crypt_each true written (rw len p)
              ∙ ap ok (crypt_each_undo aes part ranges buf),
        )
