-- ===== src/Providers/Found.antt =====
-- Searching the file of key providers after a write.
use open_pg_tde.Base.{
  ℕ, zero, suc, ◌+◌, ◌<◌, ◌≤◌, ◌≡◌, refl, sym, ap, ◌∙◌, inl, inr, Bool, true, false, Bool-cases,
  Option, none, some, List, [], ◌∷◌, ◌++◌, ltb, if◌then◌else◌, arith, Bytes, length, ok, err,
  duplicate_provider, ℤ, abs,
}
use open_pg_tde.Providers.{
  KeyringProviderRecord, is_named, first_named, max_id, pg_int32_max, write_record,
}

-- the absolute value of each id, deleted records included, is below a bound
pub data AllBelow (bound : ℕ) : List KeyringProviderRecord → Type 0 where
  no_records : AllBelow bound []
  id_below :
      {r : KeyringProviderRecord} {rs : List KeyringProviderRecord}
      → abs r.provider_id < bound
      → AllBelow bound rs
      → AllBelow bound (r ∷ rs)

named_first :
    (name : Bytes) (r : KeyringProviderRecord) (rs : List KeyringProviderRecord) (k : ℕ)
    → first_named name (r ∷ rs) k ≡ none
    → (is_named name r ≡ false) × (first_named name rs (k + 1) ≡ none)
unfolding first_named
named_first name r rs k h = elim (Bool-cases (is_named name r)) [
  | inl p ↦
      let clash : some (k, r) ≡ none =
        sym (ap (λ b. if b then some (k, r) else first_named name rs (k + 1)) p) ∙ h in
      absurd (cc clash)
  | inr p ↦ (p, sym (ap (λ b. if b then some (k, r) else first_named name rs (k + 1)) p) ∙ h)
]

larger : ℕ → ℕ → ℕ
larger a b = if ltb a b then b else a

-- Where no live record has the name and ids are left, the loop ends with the largest id.
pub max_id_lem :
    (name : Bytes) (rs : List KeyringProviderRecord) (k largest : ℕ)
    → first_named name rs k ≡ none
    → AllBelow pg_int32_max rs
    → largest < pg_int32_max
    → (m : ℕ) × (max_id name rs largest ≡ ok m)
      × (m < pg_int32_max)
      × (largest ≤ m)
      × AllBelow (suc m) rs
unfolding max_id
max_id_lem name _ k largest h no_records below = (largest, refl, below, omega arith, no_records)
max_id_lem name _ k largest h (id_below {r = r} {rs = rs} p ps) below =
    let (unnamed, rest) = named_first name r rs k h in
    let next = if ltb largest (abs r.provider_id) then abs r.provider_id else largest in
    let next_below : next < pg_int32_max = ground (arith, p, below) in
    let (m, q, bound, least, all) = max_id_lem name rs (k + 1) next rest ps next_below in
    let covers : largest ≤ m = ground (arith, least) in
    let id_covers : abs r.provider_id < suc m = ground (arith, least) in
    (
      m,
      ap (λ b. if b then err duplicate_provider else max_id name rs next) unnamed ∙ q,
      bound,
      covers,
      id_below id_covers all,
    )

pub write_record_end :
    (r : KeyringProviderRecord) (rs : List KeyringProviderRecord)
    → write_record (length rs) r rs ≡ rs ++ r ∷ []
unfolding write_record
write_record_end r [] = refl
write_record_end r (x ∷ rs) = ap (◌∷◌ x) (write_record_end r rs)

-- a new record is found at the end
pub first_named-append :
    (name : Bytes) (r : KeyringProviderRecord) (rs : List KeyringProviderRecord) (k : ℕ)
    → first_named name rs k ≡ none
    → is_named name r ≡ true
    → first_named name (rs ++ r ∷ []) k ≡ some (k + length rs, r)
unfolding first_named
first_named-append name r [] k h p =
    ap (λ b. if b then some (k, r) else none) p ∙ ap (λ j. some (j, r)) (omega arith)
first_named-append name r (x ∷ rs) k h p =
    let (unnamed, rest) = named_first name x rs k h in
    ap (λ b. if b then some (k, x) else first_named name (rs ++ r ∷ []) (k + 1)) unnamed
    ∙ first_named-append name r rs (k + 1) rest p
    ∙ ap (λ j. some (j, r)) (omega arith)

-- the ids of a file, in the order of its records
abbrev pub ids : List KeyringProviderRecord → List ℤ
ids [] = []
ids (r ∷ rs) = r.provider_id ∷ ids rs

some_offset : Option (ℕ × KeyringProviderRecord) → ℕ
some_offset none = 0
some_offset (some p) = p.0

some_record : KeyringProviderRecord → Option (ℕ × KeyringProviderRecord) → KeyringProviderRecord
some_record r none = r
some_record r (some p) = p.1

offset_least :
    (name : Bytes) (rs : List KeyringProviderRecord) (k j : ℕ) (x : KeyringProviderRecord)
    → first_named name rs k ≡ some (j, x)
    → k ≤ j
unfolding first_named some_offset
offset_least name [] k j x h = absurd (cc h)
offset_least name (r ∷ rs) k j x h =
    let pick : Bool → Option (ℕ × KeyringProviderRecord) =
      λ b. if b then some (k, r) else first_named name rs (k + 1) in
    elim (Bool-cases (is_named name r)) [
      | inl p ↦ omega (arith, ap some_offset (sym (ap pick p) ∙ h))
      | inr p ↦ omega (arith, offset_least name rs (k + 1) j x (sym (ap pick p) ∙ h))
    ]

-- the record that is found first in the list
found_head :
    (name : Bytes) (r : KeyringProviderRecord) (rs : List KeyringProviderRecord) (k : ℕ)
    (x : KeyringProviderRecord)
    → first_named name (r ∷ rs) k ≡ some (k + 0, x)
    → (is_named name r ≡ true) × (r ≡ x)
unfolding first_named some_record
found_head name r rs k x h =
    let pick : Bool → Option (ℕ × KeyringProviderRecord) =
      λ b. if b then some (k, r) else first_named name rs (k + 1) in
    elim (Bool-cases (is_named name r)) [
      | inl p ↦ (p, ap (some_record r) (sym (ap pick p) ∙ h))
      | inr p ↦ absurd (omega (arith, offset_least name rs (k + 1) (k + 0) x (sym (ap pick p) ∙ h)))
    ]

-- a record that is found later
found_tail :
    (name : Bytes) (r : KeyringProviderRecord) (rs : List KeyringProviderRecord) (k i : ℕ)
    (x : KeyringProviderRecord)
    → first_named name (r ∷ rs) k ≡ some (k + suc i, x)
    → (is_named name r ≡ false) × (first_named name rs (k + 1) ≡ some (k + 1 + i, x))
unfolding first_named some_offset
found_tail name r rs k i x h =
    let pick : Bool → Option (ℕ × KeyringProviderRecord) =
      λ b. if b then some (k, r) else first_named name rs (k + 1) in
    elim (Bool-cases (is_named name r)) [
      | inl p ↦ absurd (omega (arith, ap some_offset (sym (ap pick p) ∙ h)))
      | inr p ↦ (p, sym (ap pick p) ∙ h ∙ ap (λ j. some (j, x)) (omega arith))
    ]

-- Writing a record with the id of the one that was found leaves the ids of the file.
pub ids-write_record :
    (name : Bytes) (rs : List KeyringProviderRecord) (k i : ℕ) (x y : KeyringProviderRecord)
    → first_named name rs k ≡ some (k + i, x)
    → y.provider_id ≡ x.provider_id
    → ids (write_record i y rs) ≡ ids rs
unfolding first_named write_record
ids-write_record name [] k i x y h e = absurd (cc h)
ids-write_record name (r ∷ rs) k zero x y h e =
    let (p, same) = found_head name r rs k x h in
    ap (λ n. n ∷ ids rs) (e ∙ sym (ap (λ z. z.provider_id) same))
ids-write_record name (r ∷ rs) k (suc i) x y h e =
    let (p, later) = found_tail name r rs k i x h in
    ap (◌∷◌ r.provider_id) (ids-write_record name rs (k + 1) i x y later e)

-- the live records with a name
unfoldable pub count_named : Bytes → List KeyringProviderRecord → ℕ
unfolding is_named
count_named name [] = 0
count_named name (r ∷ rs) =
    let rest = count_named name rs in if is_named name r then suc rest else rest

-- Writing another record over the one that was found takes one live record with the name away.
pub count_named-write_record :
    (name : Bytes) (rs : List KeyringProviderRecord) (k i : ℕ) (x y : KeyringProviderRecord)
    → first_named name rs k ≡ some (k + i, x)
    → is_named name y ≡ false
    → suc (count_named name (write_record i y rs)) ≡ count_named name rs
unfolding first_named write_record count_named
count_named-write_record name [] k i x y h e = absurd (cc h)
count_named-write_record name (r ∷ rs) k zero x y h e =
    let (p, same) = found_head name r rs k x h in
    let n = count_named name rs in
    ap (λ b. suc (if b then suc n else n)) e ∙ ap (λ b. if b then suc n else n) (sym p)
count_named-write_record name (r ∷ rs) k (suc i) x y h e =
    let (p, later) = found_tail name r rs k i x h in
    let n = count_named name rs in
    let m = count_named name (write_record i y rs) in
    ap (λ b. suc (if b then suc m else m)) p
    ∙ count_named-write_record name rs (k + 1) i x y later e
    ∙ ap (λ b. if b then suc n else n) (sym p)

-- A search for a name that neither record has is not changed.
pub first_named-write_record :
    (name other : Bytes) (rs : List KeyringProviderRecord) (k i : ℕ) (x y : KeyringProviderRecord)
    → first_named name rs k ≡ some (k + i, x)
    → is_named other x ≡ false
    → is_named other y ≡ false
    → first_named other (write_record i y rs) k ≡ first_named other rs k
unfolding first_named write_record
first_named-write_record name other [] k i x y h d e = absurd (cc h)
first_named-write_record name other (r ∷ rs) k zero x y h d e =
    let (p, same) = found_head name r rs k x h in
    ap (λ b. if b then some (k, y) else first_named other rs (k + 1)) e
    ∙ sym (
        ap (λ b. if b then some (k, r) else first_named other rs (k + 1))
          (ap (is_named other) same ∙ d))
first_named-write_record name other (r ∷ rs) k (suc i) x y h d e =
    let (p, later) = found_tail name r rs k i x h in
    ap (λ rest. if is_named other r then some (k, r) else rest)
      (first_named-write_record name other rs (k + 1) i x y later d e)
