-- ===== src/KeyMap/Slots.antt =====
-- Which slot open_pg_tde_save_smgr_key writes.
use open_pg_tde.Base.{
  ℕ, suc, ◌+◌, ◌*◌, ◌<◌, ◌≤◌, ◌≡◌, refl, ap, ap₂, ◌∙◌, ◌⊎◌, inl, inr, true, false, Bool-cases, List,
  [], ◌∷◌, ◌==◌, if◌then◌else◌, arith,
}
use open_pg_tde.KeyMap.Layout.{
  RelFileLocator, TdeMapEntry, map_entry_type_empty, header_size, entry_size,
}
use open_pg_tde.KeyMap.File.{slot}
use open_pg_tde.KeyMap.Save.{same_rel, next_free, scan}

-- the file offset of the entry behind `k` others
abbrev pub offset_of : ℕ → ℕ
offset_of k = header_size + entry_size * k

pub slot-offset_of : (k : ℕ) → slot (offset_of k) ≡ k
slot-offset_of k = omega arith

-- the entries that carry the relation's numbers, in use or not
unfoldable pub listed : RelFileLocator → List TdeMapEntry → ℕ
unfolding same_rel
listed rel [] = 0
listed rel (e ∷ es) = (if same_rel rel e then 1 else 0) + listed rel es

-- One entry at most carries the numbers of a relation; the number 0 is no relation's.
abbrev pub Unique : List TdeMapEntry → Type 0
Unique es = (rel : RelFileLocator) → 0 < rel.rel_number → listed rel es ≤ 1

-- A slot at which a relation's key may be written: none before it is the relation's, and it is the
-- relation's, unused while no later one is the relation's, or the end of the file.
pub data Fits (rel : RelFileLocator) : List TdeMapEntry → ℕ → Type 0 where
  at_end : Fits rel [] 0
  reuse :
      {e : TdeMapEntry} {es : List TdeMapEntry}
      → ((same_rel rel e ≡ true) ⊎ ((e.type ≡ map_entry_type_empty) × (listed rel es ≡ 0)))
      → Fits rel (e ∷ es) 0
  later :
      {e : TdeMapEntry} {es : List TdeMapEntry} {i : ℕ}
      → same_rel rel e ≡ false
      → Fits rel es i
      → Fits rel (e ∷ es) (suc i)

scan-found :
    (rel : RelFileLocator) (e : TdeMapEntry) (es : List TdeMapEntry) (off w : ℕ)
    → same_rel rel e ≡ true
    → scan rel (e ∷ es) off w ≡ (true, off)
unfolding scan
scan-found rel e es off w p =
    let rest = scan rel es (off + entry_size) (next_free e off w) in
    ap (λ b. if b then (true, off) else rest) p

scan-next :
    (rel : RelFileLocator) (e : TdeMapEntry) (es : List TdeMapEntry) (off w : ℕ)
    → same_rel rel e ≡ false
    → scan rel (e ∷ es) off w ≡ scan rel es (off + entry_size) (next_free e off w)
unfolding scan
scan-next rel e es off w p =
    let rest = scan rel es (off + entry_size) (next_free e off w) in
    ap (λ b. if b then (true, off) else rest) p

pub next_offset : (k : ℕ) → offset_of k + entry_size ≡ offset_of (suc k)
next_offset k = omega arith

next_free_kept : (e : TdeMapEntry) (off w : ℕ) → 0 < w → next_free e off w ≡ w
unfolding next_free
next_free_kept e off w h = ground arith

-- the outcome of the loop once a free slot is known: it is kept unless the relation has an entry
scan_known :
    (rel : RelFileLocator) (es : List TdeMapEntry) (k w : ℕ)
    → 0 < w
    → ((scan rel es (offset_of k) w ≡ (false, w)) × (listed rel es ≡ 0))
      ⊎ ((i : ℕ) × (scan rel es (offset_of k) w ≡ (true, offset_of (k + i))) × Fits rel es i)
unfolding scan listed
scan_known rel [] k w h = inl (ground arith, refl)
scan_known rel (e ∷ es) k w h = elim (Bool-cases (same_rel rel e)) [
  | inl p ↦ inr (
    0,
    scan-found rel e es (offset_of k) w p ∙ ap (λ j. (true, offset_of j)) (omega arith),
    reuse (inl p),
  )
  | inr p ↦
      let step : scan rel (e ∷ es) (offset_of k) w ≡ scan rel es (offset_of (suc k)) w =
        scan-next rel e es (offset_of k) w p
        ∙ ap₂ (scan rel es) (next_offset k) (next_free_kept e (offset_of k) w h) in
      elim (scan_known rel es (suc k) w h) [
        | inl (q, r) ↦ inl (step ∙ q, ground (arith, r, p))
        | inr (i, q, fits) ↦
            inr (suc i, step ∙ q ∙ ap (λ j. (true, offset_of j)) (omega arith), later p fits)
      ]
]

-- A file in which no entry has the relation's numbers: none is reported.
pub scan-unlisted :
    (rel : RelFileLocator) (es : List TdeMapEntry) (off w : ℕ)
    → listed rel es ≡ 0
    → (scan rel es off w).0 ≡ false
unfolding scan listed
scan-unlisted rel [] off w h = refl
scan-unlisted rel (e ∷ es) off w h = elim (Bool-cases (same_rel rel e)) [
  | inl p ↦ absurd (ground (arith, p, h))
  | inr p ↦
      let later : listed rel es ≡ 0 = ground (arith, p, h) in
      ap (λ r. r.0) (scan-next rel e es off w p)
      ∙ scan-unlisted rel es (off + entry_size) (next_free e off w) later
]

-- The loop ends with a slot that fits; an entry of the relation is reported where one is found.
pub scan-Fits :
    (rel : RelFileLocator) (es : List TdeMapEntry) (k : ℕ)
    → (i : ℕ) × ((scan rel es (offset_of k) 0).1 ≡ offset_of (k + i)) × Fits rel es i
unfolding scan
scan-Fits rel [] k = (0, omega arith, at_end)
scan-Fits rel (e ∷ es) k = elim (Bool-cases (same_rel rel e)) [
  | inl p ↦ (
    0,
    ap (λ r. r.1) (scan-found rel e es (offset_of k) 0 p) ∙ ap offset_of (omega arith),
    reuse (inl p),
  )
  | inr p ↦
      let step : scan rel (e ∷ es) (offset_of k) 0
          ≡ scan rel es (offset_of (suc k)) (next_free e (offset_of k) 0) =
        scan-next rel e es (offset_of k) 0 p
        ∙ ap (λ o. scan rel es o (next_free e (offset_of k) 0)) (next_offset k) in
      elim (Bool-cases (e.type == map_entry_type_empty)) [
        | inl q ↦
            let free : next_free e (offset_of k) 0 ≡ offset_of k =
              unfold next_free in ground arith in
            elim (scan_known rel es (suc k) (offset_of k) (omega arith)) [
              | inl (r, unlisted) ↦ (
                0,
                ap (λ x. x.1) (step ∙ ap (scan rel es (offset_of (suc k))) free ∙ r)
                    ∙ ap offset_of (omega arith),
                reuse (inr (ground arith, unlisted)),
              )
              | inr (i, r, fits) ↦ (
                suc i,
                ap (λ x. x.1) (step ∙ ap (scan rel es (offset_of (suc k))) free ∙ r)
                    ∙ ap offset_of (omega arith),
                later p fits,
              )
            ]
        | inr q ↦
            let none_yet : next_free e (offset_of k) 0 ≡ 0 = unfold next_free in ground arith in
            let (i, r, fits) = scan-Fits rel es (suc k) in
            (
              suc i,
              ap (λ x. x.1) (step ∙ ap (scan rel es (offset_of (suc k))) none_yet)
                  ∙ r
                  ∙ ap offset_of (omega arith),
              later p fits,
            )
      ]
]
