-- ===== src/Wal/Location.antt =====
-- Locations in the WAL, and setting the start of the current range.
use open_pg_tde.Base.{
  ◌<◌, ◌≡◌, ◌↔◌, refl, ap, ◌⊎◌, inl, inr, true, Bool-cases, List, [], ◌∷◌, ◌++◌, ltb, arith,
}
use open_pg_tde.Wal.Range.{
  WalLocation, wal_location_cmp, Comparison, before, same, after, is_before, WalKeyFileEntry,
  is_invalid,
}
use open_pg_tde.Wal.Ranges.{invalidate, last_range_set_location}

-- a location precedes another: an earlier timeline, or the same one and an earlier position
pub data Precedes (a b : WalLocation) : Type 0 where
  earlier_timeline : a.tli < b.tli → Precedes a b
  earlier_position : a.tli ≡ b.tli → a.lsn < b.lsn → Precedes a b

-- wal_location_cmp gives -1 exactly where the first location precedes the second: its timeline is
-- earlier, or the timelines are the same and its position is.
pub wal_location_cmp_iff : (a b : WalLocation) → (wal_location_cmp a b ≡ before) ↔ Precedes a b
unfolding wal_location_cmp
wal_location_cmp_iff a b = (
  λ h. elim (Bool-cases (ltb a.tli b.tli)) [
    | inl p ↦ earlier_timeline (ground arith)
    | inr p ↦ earlier_position (ground arith) (ground arith)
  ],
  λ p. elim p [
    | earlier_timeline q ↦ ground (arith, q)
    | earlier_position q r ↦ ground (arith, q, r)
  ],
)

is_before-before : (c : Comparison) → is_before c ≡ true → c ≡ before
is_before-before before h = refl
is_before-before same h = absurd (cc h)
is_before-before after h = absurd (cc h)

invalidated :
    (loc : WalLocation) (prev : WalKeyFileEntry)
    → (is_invalid (invalidate loc prev).range_type ≡ true)
      ⊎ Precedes (invalidate loc prev).range_start loc
unfolding invalidate
invalidated loc prev = elim (Bool-cases (is_before (wal_location_cmp prev.range_start loc))) [
  | inl p ↦ inr (
      rw p (
        (wal_location_cmp_iff prev.range_start loc).0
          (is_before-before (wal_location_cmp prev.range_start loc) p)))
  | inr p ↦ inl (rw p refl)
]

-- Setting the location of the last range changes the last two entries of the file only: the last one
-- starts at the location, and the one before it is invalid or starts before the location.
pub last_range_set_location_lem :
    (loc : WalLocation) (es : List WalKeyFileEntry) (prev last : WalKeyFileEntry)
    → (prev' : WalKeyFileEntry) × (last_range_set_location loc (es ++ prev ∷ last ∷ [])
        ≡ es ++ prev' ∷ record last { range_start = loc } ∷ [])
      × ((is_invalid prev'.range_type ≡ true) ⊎ Precedes prev'.range_start loc)
unfolding last_range_set_location
last_range_set_location_lem loc [] prev last = (invalidate loc prev, refl, invalidated loc prev)
last_range_set_location_lem loc (d ∷ []) prev last =
    (invalidate loc prev, refl, invalidated loc prev)
last_range_set_location_lem loc (d ∷ x ∷ []) prev last =
    let (prev', p, q) = last_range_set_location_lem loc (x ∷ []) prev last in
    (prev', ap (◌∷◌ d) p, q)
last_range_set_location_lem loc (d ∷ x ∷ y ∷ es) prev last =
    let (prev', p, q) = last_range_set_location_lem loc (x ∷ y ∷ es) prev last in
    (prev', ap (◌∷◌ d) p, q)
