-- ===== src/Wal/Crypt/Crypted.antt =====
-- The whole of TDEXLogCryptBuffer, against the one range that covers each position.
use open_pg_tde.Base.{
  ℕ, ◌≡◌, refl, ◌∙◌, ◌⊎◌, true, false, arith, if◌then◌else◌, Bytes, length, Option, none, some,
  List, [], ◌∷◌, bit_xor, xor_undo,
}
use open_pg_tde.Stream.{AesBlock}
use open_pg_tde.Stream.Keystream.{keystream_byte}
use open_pg_tde.Wal.Range.{WalLocation, wal_location_cmp, is_before, WalEncryptionRange}
use open_pg_tde.Wal.Cached.{Chained, linked}
use open_pg_tde.Wal.Crypt.{SegmentPart}
use open_pg_tde.Wal.Crypt.Pointwise.{zip_at, length-zip_at, zip_at_twice, zip_at_self}
use open_pg_tde.Wal.Crypt.Covered.{is_between, location_at}
use open_pg_tde.Wal.Crypt.Located.{is_covered, range_prefix}

-- Each range that is used has a key of 16 or 32 bytes.
pub data HasKeys : List WalEncryptionRange → Type 0 where
  no_keys : HasKeys []
  one_more :
      {r : WalEncryptionRange} {rest : List WalEncryptionRange}
      → (r.key.key_len ≡ 16) ⊎ (r.key.key_len ≡ 32)
      → HasKeys rest
      → HasKeys (r ∷ rest)

-- No range starts before the one it follows.
pub data InOrder : List WalEncryptionRange → Type 0 where
  empty : InOrder []
  single : {r : WalEncryptionRange} → InOrder (r ∷ [])
  ordered :
      {r next : WalEncryptionRange} {rest : List WalEncryptionRange}
      → is_before (wal_location_cmp next.start r.start) ≡ false
      → InOrder (next ∷ rest)
      → InOrder (r ∷ next ∷ rest)

-- the encrypted range that an offset of a segment lies in
unfoldable pub range_at : SegmentPart → List WalEncryptionRange → ℕ → Option WalEncryptionRange
unfolding is_covered
range_at part [] q = none
range_at part (r ∷ rest) q = if is_covered part r q then some r else range_at part rest q

module _ (aes : AesBlock) (part : SegmentPart) where
  abbrev pub crypt_by : Option WalEncryptionRange → ℕ → ℕ → ℕ → ℕ
  crypt_by none q x o = o
  crypt_by (some r) q x o = bit_xor x (keystream_byte aes r.key.key (range_prefix part r) q)

  abbrev pub crypt_positions : List WalEncryptionRange → ℕ → ℕ → ℕ → ℕ
  crypt_positions ranges q = crypt_by (range_at part ranges q) q

  -- What TDEXLogCryptBuffer is meant to compute: each byte that lies in an encrypted range xor the
  -- byte of that range's keystream at its own offset, and any other byte as it was.
  unfoldable pub crypt_each : List WalEncryptionRange → Bytes → Bytes
  unfolding range_at
  crypt_each ranges buf = zip_at (crypt_positions ranges) part.offset buf buf

  crypt_by_twice :
      (r : Option WalEncryptionRange) (q x : ℕ)
      → crypt_by r q (crypt_by r q x x) (crypt_by r q x x) ≡ x
  crypt_by_twice none q x = refl
  crypt_by_twice (some r) q x = xor_undo x (keystream_byte aes r.key.key (range_prefix part r) q)

  pub crypt_each_undo :
      (ranges : List WalEncryptionRange) (buf : Bytes)
      → crypt_each ranges (crypt_each ranges buf) ≡ buf
  unfolding crypt_each
  crypt_each_undo ranges buf =
      let f : ℕ → ℕ → ℕ → ℕ = crypt_positions ranges in
      zip_at_twice f f (λ q x o. o) part.offset buf
        (λ q x. crypt_by_twice (range_at part ranges q) q x)
      ∙ zip_at_self (λ q x o. o) part.offset buf (λ q x. refl)

  pub length-crypt_each :
      (ranges : List WalEncryptionRange) (buf : Bytes) → length (crypt_each ranges buf) ≡ length buf
  unfolding crypt_each
  length-crypt_each ranges buf = length-zip_at (crypt_positions ranges) part.offset buf buf refl

pub data Separate (part : SegmentPart) : List WalEncryptionRange → Type 0 where
  separate_none : Separate part []
  separate :
      {r : WalEncryptionRange} {rest : List WalEncryptionRange}
      → ((q : ℕ) → is_covered part r q ≡ true → range_at part rest q ≡ none)
      → Separate part rest
      → Separate part (r ∷ rest)

before_start :
    (loc a b : WalLocation)
    → is_before (wal_location_cmp loc a) ≡ true
    → is_before (wal_location_cmp b a) ≡ false
    → is_before (wal_location_cmp loc b) ≡ true
unfolding wal_location_cmp
before_start loc a b h k = ground arith

not-is_covered :
    (part : SegmentPart) (r : WalEncryptionRange) (q : ℕ)
    → is_before (wal_location_cmp (location_at part q) r.start) ≡ true
    → is_covered part r q ≡ false
unfolding is_covered is_between
not-is_covered part r q h = rw h (ground arith)

covered_end :
    (part : SegmentPart) (r : WalEncryptionRange) (q : ℕ)
    → is_covered part r q ≡ true
    → is_before (wal_location_cmp (location_at part q) r.end_loc) ≡ true
unfolding is_covered is_between
covered_end part r q h = ground arith

range_at_before :
    (part : SegmentPart) (r : WalEncryptionRange) (rest : List WalEncryptionRange) (q : ℕ)
    → InOrder (r ∷ rest)
    → is_before (wal_location_cmp (location_at part q) r.start) ≡ true
    → range_at part (r ∷ rest) q ≡ none
unfolding range_at
range_at_before part r [] q o h = rw (not-is_covered part r q h) refl
range_at_before part r (next ∷ rest) q (ordered n o) h =
    rw (not-is_covered part r q h) (
      range_at_before part next rest q o (before_start (location_at part q) r.start next.start h n))

pub Chained-Separate :
    (part : SegmentPart) (ranges : List WalEncryptionRange)
    → Chained ranges
    → InOrder ranges
    → Separate part ranges
unfolding range_at
Chained-Separate part [] c o = separate_none
Chained-Separate part (r ∷ []) c o = separate (λ q h. refl) separate_none
Chained-Separate part (r ∷ next ∷ rest) (linked e c) (ordered n o) =
    separate (λ q h. range_at_before part next rest q o (rw (← e) (covered_end part r q h)))
      (Chained-Separate part (next ∷ rest) c o)
