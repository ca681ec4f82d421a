-- ===== src/KeyMap/Found.antt =====
-- What a search for a relation's entry finds after a slot was written.
use open_pg_tde.Base.{
  ℕ, zero, suc, ◌+◌, ◌≤◌, length, ◌≡◌, refl, sym, ap, ◌∙◌, ◌⊎◌, inl, inr, true, false, Bool-cases,
  none, some, List, [], ◌∷◌, if◌then◌else◌, arith,
}
use open_pg_tde.KeyMap.Layout.{RelFileLocator, TdeMapEntry, map_entry_type_empty, entry_size}
use open_pg_tde.KeyMap.File.{write_at}
use open_pg_tde.KeyMap.Save.{same_rel, is_key_of, key_offset}
use open_pg_tde.KeyMap.Lookup.{first_key}
use open_pg_tde.KeyMap.Slots.{Fits, at_end, reuse, later, listed, offset_of, next_offset}

pub first_key-hit :
    (rel : RelFileLocator) (e : TdeMapEntry) (es : List TdeMapEntry)
    → is_key_of rel e ≡ true
    → first_key rel (e ∷ es) ≡ some e
unfolding first_key
first_key-hit rel e es p = ap (λ b. if b then some e else first_key rel es) p

pub first_key-miss :
    (rel : RelFileLocator) (e : TdeMapEntry) (es : List TdeMapEntry)
    → is_key_of rel e ≡ false
    → first_key rel (e ∷ es) ≡ first_key rel es
unfolding first_key
first_key-miss rel e es p = ap (λ b. if b then some e else first_key rel es) p

first_key_cons :
    (rel : RelFileLocator) (x : TdeMapEntry) (es fs : List TdeMapEntry)
    → first_key rel es ≡ first_key rel fs
    → first_key rel (x ∷ es) ≡ first_key rel (x ∷ fs)
unfolding first_key
first_key_cons rel x es fs h = ap (λ r. if is_key_of rel x then some x else r) h

pub key_same_rel :
    (rel : RelFileLocator) (e : TdeMapEntry) → is_key_of rel e ≡ true → same_rel rel e ≡ true
unfolding is_key_of
key_same_rel rel e p = ground arith

pub not_same_rel :
    (rel : RelFileLocator) (e : TdeMapEntry) → same_rel rel e ≡ false → is_key_of rel e ≡ false
unfolding is_key_of
not_same_rel rel e p = ground arith

pub empty_no_key :
    (rel : RelFileLocator) (e : TdeMapEntry)
    → e.type ≡ map_entry_type_empty
    → is_key_of rel e ≡ false
unfolding is_key_of
empty_no_key rel e p = ground arith

-- No entry with the relation's numbers precedes the slot, so the new entry is found.
pub first_key-write_at :
    (rel : RelFileLocator) (es : List TdeMapEntry) (i : ℕ) (e : TdeMapEntry)
    → Fits rel es i
    → is_key_of rel e ≡ true
    → first_key rel (write_at i e es) ≡ some e
unfolding write_at
first_key-write_at rel _ _ e at_end h = first_key-hit rel e [] h
first_key-write_at rel _ _ e (reuse {es = es} p) h = first_key-hit rel e es h
first_key-write_at rel _ _ e (later {e = x} {es = es} {i = i} p fits) h =
    first_key-miss rel x (write_at i e es) (not_same_rel rel x p)
    ∙ first_key-write_at rel es i e fits h

-- What is overwritten is no other relation's key, so the others' searches end as before.
pub first_key-write_at_other :
    (rel other : RelFileLocator) (es : List TdeMapEntry) (i : ℕ) (e : TdeMapEntry)
    → Fits rel es i
    → is_key_of other e ≡ false
    → ((x : TdeMapEntry) → same_rel rel x ≡ true → same_rel other x ≡ false)
    → first_key other (write_at i e es) ≡ first_key other es
unfolding write_at
first_key-write_at_other rel other _ _ e at_end h apart = first_key-miss other e [] h
first_key-write_at_other rel other _ _ e (reuse {e = x} {es = es} p) h apart =
    first_key-miss other e es h
    ∙ sym (
        first_key-miss other x es (elim p [
          | inl same ↦ not_same_rel other x (apart x same)
          | inr (free, unlisted) ↦ empty_no_key other x free
        ]))
first_key-write_at_other rel other _ _ e (later {e = x} {es = es} {i = i} p fits) h apart =
    first_key_cons other x (write_at i e es) es
      (first_key-write_at_other rel other es i e fits h apart)

-- the entries that are in use for the relation
unfoldable pub uses : RelFileLocator → List TdeMapEntry → ℕ
unfolding is_key_of
uses rel [] = 0
uses rel (e ∷ es) = (if is_key_of rel e then 1 else 0) + uses rel es

pub uses-none :
    (rel : RelFileLocator) (es : List TdeMapEntry) → uses rel es ≡ 0 → first_key rel es ≡ none
unfolding uses first_key
uses-none rel [] h = refl
uses-none rel (e ∷ es) h = ground (arith, uses-none rel es)

pub uses_le_listed : (rel : RelFileLocator) (es : List TdeMapEntry) → uses rel es ≤ listed rel es
unfolding uses listed
uses_le_listed rel [] = omega arith
uses_le_listed rel (e ∷ es) = elim (Bool-cases (is_key_of rel e)) [
  | inl p ↦ ground (arith, p, key_same_rel rel e p, uses_le_listed rel es)
  | inr p ↦ ground (arith, p, uses_le_listed rel es)
]

-- The key of a relation is stored in a slot of its own: one entry at most carries its numbers then.
pub listed-write_at :
    (rel : RelFileLocator) (es : List TdeMapEntry) (i : ℕ) (e : TdeMapEntry)
    → Fits rel es i
    → listed rel es ≤ 1
    → listed rel (write_at i e es) ≤ 1
unfolding listed write_at
listed-write_at rel _ _ e at_end h = ground arith
listed-write_at rel _ _ e (reuse {e = x} {es = es} (inl p)) h = ground (arith, p)
listed-write_at rel _ _ e (reuse {e = x} {es = es} (inr (p, q))) h = ground (arith, q)
listed-write_at rel _ _ e (later {e = x} {es = es} {i = i} p fits) h =
    let lower : listed rel es ≤ 1 = omega arith in
    ground (arith, p, listed-write_at rel es i e fits lower)

-- An entry of another relation lists nothing more for this one.
pub listed-write_at_other :
    (rel : RelFileLocator) (es : List TdeMapEntry) (i : ℕ) (e : TdeMapEntry)
    → i ≤ length es
    → same_rel rel e ≡ false
    → listed rel (write_at i e es) ≤ listed rel es
unfolding listed write_at
listed-write_at_other rel [] zero e h p = ground (arith, p)
listed-write_at_other rel [] (suc i) e h p = absurd (omega arith)
listed-write_at_other rel (x ∷ es) zero e h p = ground (arith, p)
listed-write_at_other rel (x ∷ es) (suc i) e h p =
    let lower : i ≤ length es = omega arith in
    omega (arith, listed-write_at_other rel es i e lower p)

key_offset-hit :
    (rel : RelFileLocator) (e : TdeMapEntry) (es : List TdeMapEntry) (off : ℕ)
    → is_key_of rel e ≡ true
    → key_offset rel (e ∷ es) off ≡ some off
unfolding key_offset
key_offset-hit rel e es off p =
    ap (λ b. if b then some off else key_offset rel es (off + entry_size)) p

key_offset-miss :
    (rel : RelFileLocator) (e : TdeMapEntry) (es : List TdeMapEntry) (off : ℕ)
    → is_key_of rel e ≡ false
    → key_offset rel (e ∷ es) off ≡ key_offset rel es (off + entry_size)
unfolding key_offset
key_offset-miss rel e es off p =
    ap (λ b. if b then some off else key_offset rel es (off + entry_size)) p

-- The slot that is freed is in use for the relation, and one entry fewer is in use for it afterwards.
pub key_offset-uses :
    (rel : RelFileLocator) (es : List TdeMapEntry) (k : ℕ) (e : TdeMapEntry)
    → e.type ≡ map_entry_type_empty
    → ((key_offset rel es (offset_of k) ≡ none) × (uses rel es ≡ 0))
      ⊎ ((i : ℕ) × (key_offset rel es (offset_of k) ≡ some (offset_of (k + i)))
          × (suc (uses rel (write_at i e es)) ≡ uses rel es)
          × ((other : RelFileLocator)
              → ((x : TdeMapEntry) → same_rel rel x ≡ true → same_rel other x ≡ false)
              → first_key other (write_at i e es) ≡ first_key other es))
unfolding key_offset uses write_at
key_offset-uses rel [] k e free = inl (refl, refl)
key_offset-uses rel (x ∷ es) k e free = elim (Bool-cases (is_key_of rel x)) [
  | inl p ↦ inr (
    0,
    key_offset-hit rel x es (offset_of k) p ∙ ap (λ j. some (offset_of j)) (omega arith),
    ground (arith, p, empty_no_key rel e free),
    λ other apart.
        first_key-miss other e es (empty_no_key other e free)
        ∙ sym (first_key-miss other x es (not_same_rel other x (apart x (key_same_rel rel x p)))),
  )
  | inr p ↦
      let step : key_offset rel (x ∷ es) (offset_of k) ≡ key_offset rel es (offset_of (suc k)) =
        key_offset-miss rel x es (offset_of k) p ∙ ap (key_offset rel es) (next_offset k) in
      elim (key_offset-uses rel es (suc k) e free) [
        | inl (q, r) ↦ inl (step ∙ q, ground (arith, p, r))
        | inr (i, q, r, others) ↦ inr (
          suc i,
          step ∙ q ∙ ap (λ j. some (offset_of j)) (omega arith),
          omega (arith, r),
          λ other apart. first_key_cons other x (write_at i e es) es (others other apart),
        )
      ]
]
