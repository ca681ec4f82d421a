-- ===== src/Wal/Crypt/Covered.antt =====
-- Which positions of a buffer a range covers.
use open_pg_tde.Base.{
  ℕ, ◌+◌, ◌*◌, ◌%◌, ◌^◌, ◌≤◌, ◌<◌, ◌≡◌, ◌∙◌, Bool, true, false, ◌&&◌, not, arith, ltb, leb,
  if◌then◌else◌,
}
use native.Mathlib.Nat.{mul-add-mod_self_right, mod-eq_of_lt, mod_self}
use native.Mathlib.Decide.{dec_lt}
use open_pg_tde.Wal.Range.{WalLocation, wal_location_cmp, is_before}
use open_pg_tde.Wal.Crypt.{SegmentMacros, SegmentPart, is_after, dec_end}

-- A location lies in the range: not before its start, and before its end.
unfoldable pub is_between : WalLocation → WalLocation → WalLocation → Bool
unfolding wal_location_cmp
is_between start stop loc =
    not (is_before (wal_location_cmp loc start)) && is_before (wal_location_cmp loc stop)

-- the location of an offset in a segment
abbrev pub location_at : SegmentPart → ℕ → WalLocation
location_at part q = record { lsn = part.segno * part.seg_size + q; tli = part.tli }

-- A part of a segment, of `count` bytes: the size is a power of two of at most 1 GB, and positions
-- are 64-bit numbers.
pub record IsPart (part : SegmentPart) (count : ℕ) : Type 0 where
  pub size_log : ℕ
  pub is_power : part.seg_size ≡ 2 ^ size_log
  pub some_bytes : 0 < count
  pub inside : part.offset + count ≤ part.seg_size
  pub size_limit : part.seg_size ≤ 2 ^ 30
  pub lsn_limit : part.segno * part.seg_size + part.seg_size < 2 ^ 64

-- an overlap leaves only positions between start_lsn and end_lsn covered
pub between_lem :
    (tli base lo hi : ℕ) (start stop : WalLocation)
    → is_before (wal_location_cmp (record { lsn = base + lo; tli = tli }) stop) ≡ true
    → is_after (wal_location_cmp (record { lsn = base + hi; tli = tli }) start) ≡ true
    → (q : ℕ) → lo ≤ q
    → q < hi
    → is_between start stop (record { lsn = base + q; tli = tli }) ≡ (
        leb
          (if ltb start.tli tli
            then base + lo
            else if ltb start.lsn (base + lo)
            then base + lo
            else start.lsn)
          (base + q)
        && ltb (base + q) (
            if ltb tli stop.tli
            then base + hi
            else if ltb (base + hi) stop.lsn
            then base + hi
            else stop.lsn))
unfolding is_between wal_location_cmp
between_lem tli base lo hi start stop a b q l h = ground arith

pub apart_before :
    (tli base lo : ℕ) (start stop : WalLocation)
    → is_before (wal_location_cmp (record { lsn = base + lo; tli = tli }) stop) ≡ false
    → (q : ℕ) → lo ≤ q
    → is_between start stop (record { lsn = base + q; tli = tli }) ≡ false
unfolding is_between wal_location_cmp
apart_before tli base lo start stop a q l = ground arith

pub apart_after :
    (tli base hi : ℕ) (start stop : WalLocation)
    → is_after (wal_location_cmp (record { lsn = base + hi; tli = tli }) start) ≡ false
    → (q : ℕ) → q < hi
    → is_between start stop (record { lsn = base + q; tli = tli }) ≡ false
unfolding is_between wal_location_cmp
apart_after tli base hi start stop a q l = ground arith

-- the bounds of the part that is processed
pub lsn_bounds :
    (tli base lo hi : ℕ) (start stop : WalLocation)
    → lo < hi
    → is_before (wal_location_cmp (record { lsn = base + lo; tli = tli }) stop) ≡ true
    → is_after (wal_location_cmp (record { lsn = base + hi; tli = tli }) start) ≡ true
    → let s =
        (if ltb start.tli tli
          then base + lo
          else if ltb start.lsn (base + lo)
          then base + lo
          else start.lsn) in
      let e =
        (if ltb tli stop.tli
          then base + hi
          else if ltb (base + hi) stop.lsn
          then base + hi
          else stop.lsn) in
      (base + lo ≤ s) × (s < base + hi) × (base + lo < e) × (e ≤ base + hi)
unfolding wal_location_cmp
lsn_bounds tli base lo hi start stop h a b = ground arith

module _ (macros : SegmentMacros) (part : SegmentPart) (count : ℕ) (p : IsPart part count) where
  open macros use {offset_to_rec_ptr, segment_offset}

  abbrev base : ℕ
  base = part.segno * part.seg_size

  pub rec_ptr_lem :
      (j : ℕ) → j ≤ part.seg_size → offset_to_rec_ptr part.segno j part.seg_size ≡ base + j
  rec_ptr_lem j h =
      macros.offset_to_rec_ptr_lem part.segno j part.seg_size (omega (arith, p.lsn_limit))

  segment_offset_mod : (x : ℕ) → segment_offset x part.seg_size ≡ x % part.seg_size
  segment_offset_mod x = rw p.is_power (macros.segment_offset_lem x p.size_log)

  pub segment_offset_base :
      (j : ℕ) → j < part.seg_size → segment_offset (base + j) part.seg_size ≡ j
  segment_offset_base j h =
      segment_offset_mod (base + j)
      ∙ mul-add-mod_self_right part.segno part.seg_size j
      ∙ mod-eq_of_lt h

  segment_offset_end : segment_offset (base + part.seg_size) part.seg_size ≡ 0
  segment_offset_end =
      segment_offset_mod (base + part.seg_size)
      ∙ mul-add-mod_self_right part.segno part.seg_size part.seg_size
      ∙ mod_self part.seg_size

  pub dec_end-base :
      (e : ℕ)
      → part.offset < e
      → e ≤ part.offset + count
      → dec_end (segment_offset (base + e) part.seg_size) (part.offset + count) ≡ e
  dec_end-base e a b = elim (dec_lt e part.seg_size) [
    | yes h ↦ rw (segment_offset_base e h) (ground arith)
    | no h ↦
        let whole : e ≡ part.seg_size = omega (arith, p.inside) in
        rw (whole, segment_offset_end) (ground (arith, p.inside))
  ]
