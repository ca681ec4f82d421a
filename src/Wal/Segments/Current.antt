-- ===== src/Wal/Segments/Current.antt =====
-- The current range is the last one of a cache: from its start on, it is the range of every position.
use open_pg_tde.Base.{
  ℕ, ◌+◌, ◌≤◌, ◌<◌, ◌≡◌, refl, ap, ap₂, Bool, true, false, not, arith, Bytes, length, ◌^◌, ◌*◌,
  some, List, [], ◌∷◌, ◌++◌,
}
use open_pg_tde.Stream.{AesBlock}
use open_pg_tde.Stream.Keystream.{crypt_at}
use open_pg_tde.Wal.Range.{
  WalLocation, wal_location_cmp, is_before, wal_location_valid, WalEncryptionRange, max_location,
  encrypted,
}
use open_pg_tde.Wal.Cached.{Chained, linked}
use open_pg_tde.Wal.Crypt.{SegmentPart}
use open_pg_tde.Wal.Crypt.Covered.{is_between, location_at, IsPart}
use open_pg_tde.Wal.Crypt.Pointwise.{zip_at}
use open_pg_tde.Wal.Crypt.Located.{is_covered, range_prefix}
use open_pg_tde.Wal.Crypt.Crypted.{
  InOrder, ordered, range_at, crypt_by, crypt_positions, crypt_each,
}
use open_pg_tde.Wal.Segments.{get_last_wal_key}

-- The location does not lie before the start.
abbrev pub reached : WalLocation → WalLocation → Bool
reached start loc = not (is_before (wal_location_cmp loc start))

reached_trans :
    (a b loc : WalLocation)
    → is_before (wal_location_cmp b a) ≡ false
    → reached b loc ≡ true
    → reached a loc ≡ true
unfolding wal_location_cmp
reached_trans a b loc h k = ground arith

reached_first :
    (f : WalEncryptionRange) (rest : List WalEncryptionRange) (r : WalEncryptionRange)
    (loc : WalLocation)
    → InOrder (f ∷ rest ++ r ∷ [])
    → reached r.start loc ≡ true
    → reached f.start loc ≡ true
reached_first f [] r loc (ordered h o) k = reached_trans f.start r.start loc h k
reached_first f (g ∷ rest) r loc (ordered h o) k =
    reached_trans f.start g.start loc h (reached_first g rest r loc o k)

ended :
    (part : SegmentPart) (f : WalEncryptionRange) (q : ℕ)
    → reached f.end_loc (location_at part q) ≡ true
    → is_covered part f q ≡ false
unfolding is_covered is_between
ended part f q h = ground arith

range_at_last :
    (part : SegmentPart) (front : List WalEncryptionRange) (r : WalEncryptionRange) (q : ℕ)
    → Chained (front ++ r ∷ [])
    → InOrder (front ++ r ∷ [])
    → reached r.start (location_at part q) ≡ true
    → is_covered part r q ≡ true
    → range_at part (front ++ r ∷ []) q ≡ some r
unfolding range_at
range_at_last part [] r q c o h k = rw k refl
range_at_last part (f ∷ []) r q (linked e c) o h k = rw (ended part f q (rw e h)) (rw k refl)
range_at_last part (f ∷ g ∷ front) r q (linked e c) (ordered n o) h k =
    rw (ended part f q (rw e (reached_first g front r (location_at part q) o h)))
      (range_at_last part (g ∷ front) r q c o h k)

below_max :
    (lsn tli : ℕ)
    → lsn + 1 < 2 ^ 64
    → tli < 2 ^ 32
    → is_before (wal_location_cmp (record { lsn = lsn; tli = tli }) max_location) ≡ true
unfolding wal_location_cmp
below_max lsn tli h k = ground arith

-- An encrypted range without an end covers all positions from its start on.
covered_open :
    (part : SegmentPart) (r : WalEncryptionRange) (q : ℕ)
    → r.type ≡ encrypted
    → wal_location_valid r.start ≡ true
    → r.end_loc ≡ max_location
    → part.tli < 2 ^ 32
    → part.segno * part.seg_size + q + 1 < 2 ^ 64
    → reached r.start (location_at part q) ≡ true
    → is_covered part r q ≡ true
unfolding is_covered is_between
covered_open part r q t v e a b h =
    rw (t, v) (rw h (rw e (below_max (part.segno * part.seg_size + q) part.tli b a)))

later :
    (part : SegmentPart) (start : WalLocation) (p q : ℕ)
    → p ≤ q
    → reached start (location_at part p) ≡ true
    → reached start (location_at part q) ≡ true
unfolding wal_location_cmp
later part start p q h k = ground arith

zip_by :
    (aes : AesBlock) (part : SegmentPart) (ranges : List WalEncryptionRange)
    (r : WalEncryptionRange) (p : ℕ) (xs : Bytes)
    → ((q : ℕ) → p ≤ q → q < p + length xs → range_at part ranges q ≡ some r)
    → zip_at (crypt_positions aes part ranges) p xs xs
      ≡ crypt_at aes r.key.key (range_prefix part r) p xs
unfolding crypt_at
zip_by aes part ranges r p [] h = refl
zip_by aes part ranges r p (x ∷ xs) h =
    ap₂ ◌∷◌ (ap (λ o. crypt_by aes part o p x x) (h p (omega arith) (omega arith)))
      (zip_by aes part ranges r (p + 1) xs λ q a b. h q (omega arith) (omega arith))

-- The buffer of a write from the start of the last range on lies in this range as a whole.
pub crypt_each_last :
    (aes : AesBlock) (part : SegmentPart) (front : List WalEncryptionRange) (r : WalEncryptionRange)
    (buf : Bytes)
    → Chained (front ++ r ∷ [])
    → InOrder (front ++ r ∷ [])
    → IsPart part (length buf)
    → part.tli < 2 ^ 32
    → r.type ≡ encrypted
    → wal_location_valid r.start ≡ true
    → r.end_loc ≡ max_location
    → reached r.start (location_at part part.offset) ≡ true
    → crypt_each aes part (front ++ r ∷ []) buf
      ≡ crypt_at aes r.key.key (range_prefix part r) part.offset buf
unfolding crypt_each
crypt_each_last aes part front r buf c o p tli t v e h =
    zip_by aes part (front ++ r ∷ []) r part.offset buf λ q a b.
      let k : reached r.start (location_at part q) ≡ true = later part r.start part.offset q a h in
      range_at_last part front r q c o k
        (covered_open part r q t v e tli (omega (arith, p.lsn_limit, p.inside)) k)

pub get_last_wal_key-append :
    (front : List WalEncryptionRange) (r : WalEncryptionRange)
    → get_last_wal_key (front ++ r ∷ []) ≡ some r
get_last_wal_key-append [] r = refl
get_last_wal_key-append (f ∷ []) r = refl
get_last_wal_key-append (f ∷ g ∷ front) r = get_last_wal_key-append (g ∷ front) r
