-- ===== src/Wal/Crypt/Located.antt =====
-- One round of TDEXLogCryptBuffer: the bytes that the range covers, and only these, go through the
-- stream cipher, each by its own position.
use open_pg_tde.Base.{
  ℕ, ◌+◌, ◌-◌, ◌*◌, ◌≤◌, ◌<◌, ◌≡◌, refl, sym, ap, ap₂, ◌∙◌, inl, inr, ◌⊎◌, Bool, true, false, ◌&&◌,
  ◌++◌, Bool-cases, arith, ltb, leb, Bytes, length, length-take, length-drop, take, drop, Result,
  ok, and_then,
}
use open_pg_tde.Cipher.{builtin}
use open_pg_tde.Stream.{AesBlock, stream_crypt}
use open_pg_tde.Stream.Keystream.{crypt_at, length-crypt_at}
use open_pg_tde.Stream.Laws.{stream_crypt-eq-crypt_at}
use open_pg_tde.Wal.Prefix.{calc_xlog_page_iv_prefix}
use open_pg_tde.Wal.Range.{
  WalLocation, wal_location_cmp, is_before, wal_location_valid, WalEncryptionRange,
}
use open_pg_tde.Wal.Crypt.{
  SegmentMacros, SegmentPart, is_after, is_encrypted, splice, data_start, data_end, end_lsn,
  start_lsn, dec_end, crypt_part, crypt_range,
}
use open_pg_tde.Wal.Crypt.Pointwise.{zip_at, crypt_where, zip_at_keep, zip_interval}
use open_pg_tde.Wal.Crypt.Covered.{
  is_between, location_at, IsPart, between_lem, apart_before, apart_after, lsn_bounds, rec_ptr_lem,
  segment_offset_base, dec_end-base,
}

-- The range is encrypted and has a start, and the offset of the segment lies in it.
unfoldable pub is_covered : SegmentPart → WalEncryptionRange → ℕ → Bool
unfolding is_between wal_location_valid
is_covered part range q =
    (wal_location_valid range.start && is_encrypted range.type)
    && is_between range.start range.end_loc (location_at part q)

-- the prefix of the counter blocks
abbrev pub range_prefix : SegmentPart → WalEncryptionRange → Bytes
range_prefix part range = calc_xlog_page_iv_prefix part.tli part.segno range.key.base_iv

interval_shift :
    (base lo s e q : ℕ)
    → base + lo ≤ s
    → base + lo < e
    → (leb s (base + q) && ltb (base + q) e)
      ≡ (leb (lo + (s - base - lo)) q && ltb q (lo + (s - base - lo) + (e - base - (s - base))))
interval_shift base lo s e q a b = ground arith

module _ (macros : SegmentMacros) (aes : AesBlock) (part : SegmentPart) (range : WalEncryptionRange)
    (aes_key : (range.key.key_len ≡ 16) ⊎ (range.key.key_len ≡ 32)) (buf out_buf : Bytes)
    (p : IsPart part (length buf)) (same : length buf ≡ length out_buf) where
  spliced : ℕ → ℕ → Bytes
  spliced k n =
      take k out_buf
      ++ (crypt_at aes range.key.key (range_prefix part range) (part.offset + k)
            (take n (drop k buf))
          ++ drop (k + n) out_buf)

  crypt_part_lem :
      (k n s e : ℕ)
      → k + n ≤ length buf
      → s ≡ part.offset + k
      → k ≡ s - part.offset
      → n ≡ e - s
      → crypt_part macros aes builtin part s e range buf out_buf ≡ ok (spliced k n)
  unfolding crypt_part spliced
  crypt_part_lem k n s e h hs hk hn =
      let text : Bytes = take n (drop k buf) in
      let len : length text ≡ n = omega (arith, length-take n (drop k buf), length-drop k buf) in
      let prefix : Bytes = range_prefix part range in
      let key : Bytes = range.key.key in
      let crypt : Bytes → Result Bytes =
        λ t. stream_crypt aes builtin prefix s t key range.key.key_len in
      let done : ℕ → Bytes → Result Bytes = λ i new. ok (splice i new out_buf) in
      let whole : crypt text ≡ ok (crypt_at aes key prefix s text) =
        stream_crypt-eq-crypt_at aes prefix key range.key.key_len aes_key s text
          (omega (arith, p.inside, p.size_limit)) in
      let total : k + length (crypt_at aes key prefix s text) ≡ k + n =
        omega (arith, len, length-crypt_at aes key prefix s text) in
      ap₂ (λ m i. and_then (crypt (take m (drop i buf))) (done i)) (sym hn) (sym hk)
      ∙ ap (λ c. and_then c (done k)) whole
      ∙ ap (λ j. ok (take k out_buf ++ (crypt_at aes key prefix s text ++ drop j out_buf))) total
      ∙ ap (λ q. ok (take k out_buf ++ (crypt_at aes key prefix q text ++ drop (k + n) out_buf))) hs

  abbrev result : Result Bytes
  result = ok (
      zip_at (crypt_where aes range.key.key (range_prefix part range) (is_covered part range))
        part.offset buf out_buf)

  nothing_covered :
      ((q : ℕ) → part.offset ≤ q → q < part.offset + length buf → is_covered part range q ≡ false)
      → ok out_buf ≡ result
  nothing_covered h = ap ok (
      sym (
        zip_at_keep
          (crypt_where aes range.key.key (range_prefix part range) (is_covered part range))
          part.offset buf out_buf same λ q x o a b. rw (h q a b) refl))

  abbrev lo : WalLocation
  lo = location_at part part.offset

  abbrev hi : WalLocation
  hi = location_at part (part.offset + length buf)

  abbrev base : ℕ
  base = part.segno * part.seg_size

  overlap_lem :
      (wal_location_valid range.start && is_encrypted range.type) ≡ true
      → is_before (wal_location_cmp lo range.end_loc) ≡ true
      → is_after (wal_location_cmp hi range.start) ≡ true
      → crypt_part macros aes builtin part
          (macros.segment_offset (start_lsn lo range.start) part.seg_size)
          (dec_end
            (macros.segment_offset (end_lsn hi range.end_loc) part.seg_size)
            (part.offset + length buf))
          range
          buf
          out_buf
        ≡ result
  unfolding is_covered spliced
  overlap_lem g b a =
      let s0 : ℕ = start_lsn lo range.start in
      let e0 : ℕ = end_lsn hi range.end_loc in
      let bounds =
        lsn_bounds part.tli base part.offset (part.offset + length buf) range.start range.end_loc
          (omega (arith, p.some_bytes)) b a in
      let s : ℕ = s0 - base in
      let e : ℕ = e0 - base in
      let k : ℕ = s - part.offset in
      let n : ℕ = e - s in
      let hs : s0 ≡ base + s = omega (arith, bounds) in
      let he : e0 ≡ base + e = omega (arith, bounds) in
      let off : macros.segment_offset s0 part.seg_size ≡ s =
        ap (λ x. macros.segment_offset x part.seg_size) hs
        ∙ segment_offset_base macros part (length buf) p s (omega (arith, bounds, p.inside)) in
      let end : dec_end (macros.segment_offset e0 part.seg_size) (part.offset + length buf) ≡ e =
        ap (λ x. dec_end (macros.segment_offset x part.seg_size) (part.offset + length buf)) he
        ∙ dec_end-base macros part (length buf) p e (omega (arith, bounds))
            (omega (arith, bounds)) in
      ap₂ (λ i j. crypt_part macros aes builtin part i j range buf out_buf) off end
      ∙ crypt_part_lem k n s e (omega (arith, bounds)) (omega (arith, bounds)) refl refl
      ∙ ap ok (
          sym (
            zip_interval aes range.key.key (range_prefix part range) (is_covered part range) k n
              part.offset buf out_buf (omega (arith, bounds)) same
              λ q x y.
                ap (λ c. c && is_between range.start range.end_loc (location_at part q)) g
                ∙ between_lem part.tli base part.offset (part.offset + length buf) range.start
                    range.end_loc b a q x y
                ∙ interval_shift base part.offset s0 e0 q (omega (arith, bounds))
                    (omega (arith, bounds))))

  located_lem : crypt_range macros aes builtin part lo hi range buf out_buf ≡ result
  unfolding crypt_range is_covered
  located_lem = elim (Bool-cases (wal_location_valid range.start && is_encrypted range.type)) [
    | inr g ↦ rw g (nothing_covered λ q x y. rw g refl)
    | inl g ↦ elim (Bool-cases (is_before (wal_location_cmp lo range.end_loc))) [
      | inr b ↦
          rw (g, b)
            (nothing_covered λ q x y.
              rw g (apart_before part.tli base part.offset range.start range.end_loc b q x))
      | inl b ↦ elim (Bool-cases (is_after (wal_location_cmp hi range.start))) [
        | inr a ↦
            rw (g, b, a)
              (nothing_covered λ q x y. rw g (
                apart_after part.tli base (part.offset + length buf) range.start range.end_loc a q
                  y))
        | inl a ↦ rw (g, b, a) (overlap_lem g b a)
      ]
    ]
  ]

  -- A round of the loop gives the buffer in which each covered byte went through the stream cipher.
  pub crypt_range_lem :
      crypt_range macros aes builtin part
        (data_start macros part)
        (data_end macros part (length buf))
        range
        buf
        out_buf
      ≡ result
  crypt_range_lem =
      ap₂
        (λ i j.
          crypt_range macros aes builtin part (record { lsn = i; tli = part.tli })
            (record { lsn = j; tli = part.tli }) range buf out_buf)
        (rec_ptr_lem macros part (length buf) p part.offset (omega (arith, p.inside)))
        (rec_ptr_lem macros part (length buf) p (part.offset + length buf)
          (omega (arith, p.inside)))
      ∙ located_lem
