-- ===== src/KeyMap/OldKeys.antt =====
-- The keys that a key file of version 4 or 5 holds, and the entries they become.
use open_pg_tde.Base.{
  ℕ, ◌≡◌, refl, sym, ap, ◌∙◌, inl, inr, Bool, true, false, Bool-cases, ◌&&◌, Option, none, some,
  List, [], ◌∷◌, ◌==◌, if◌then◌else◌, arith, Bytes, ok, and_then,
}
use open_pg_tde.Block.{InternalKey}
use open_pg_tde.Keys.{Gcms, PrincipalKey}
use open_pg_tde.KeyMap.Layout.{
  RelFileLocator, TdeMapEntry, TdeMapEntryV4, map_entry_type_empty, map_entry_type_key,
  empty_map_entry, KeyDir,
}
use open_pg_tde.KeyMap.Entry.{IsKey, seal_entry, decrypt_rel_key-seal_entry}
use open_pg_tde.KeyMap.Save.{is_key_of, same_rel}
use open_pg_tde.KeyMap.Lookup.{first_key, key_of_entry}
use open_pg_tde.KeyMap.Old.{ikey_from_map_entry_v4, old_locator, map_from_disk_entry_v4}
use open_pg_tde.KeyMap.Found.{first_key-hit, first_key-miss}
use open_pg_tde.KeyMap.Stored.{seal_step}

-- a key that an old file holds
pub record OldKey : Type 0 where
  pub spc_oid : ℕ
  pub rel_number : ℕ
  pub key : InternalKey

-- Each entry of an old file is unused, or opens with the principal key; the keys in their order.
pub data Opens (gcm : Gcms) (pk : PrincipalKey) : List TdeMapEntryV4 → List OldKey → Type 0 where
  no_entries : Opens gcm pk [] []
  unused :
      {e : TdeMapEntryV4} {es : List TdeMapEntryV4} {olds : List OldKey}
      → e.type ≡ map_entry_type_empty
      → Opens gcm pk es olds
      → Opens gcm pk (e ∷ es) olds
  holds_key :
      {e : TdeMapEntryV4} {es : List TdeMapEntryV4} {olds : List OldKey}
      → (key : InternalKey) → e.type ≡ map_entry_type_key
      → ikey_from_map_entry_v4 gcm pk e ≡ ok key
      → IsKey key
      → Opens gcm pk es olds
      → Opens gcm pk
          (e ∷ es)
          (record { spc_oid = e.spc_oid; rel_number = e.rel_number; key = key } ∷ olds)

abbrev pub is_old : ℕ → ℕ → OldKey → Bool
is_old spc num o = o.spc_oid == spc && o.rel_number == num

-- the first key of an old file for a relation
abbrev pub first_old : ℕ → ℕ → List OldKey → Option InternalKey
first_old spc num [] = none
first_old spc num (o ∷ olds) = if is_old spc num o then some o.key else first_old spc num olds

-- the entries hold these keys, sealed under the principal key
abbrev pub SameKeys : Gcms → PrincipalKey → List OldKey → List TdeMapEntry → Type 0
SameKeys gcm pk olds es =
    (rel : RelFileLocator)
    → key_of_entry gcm (some pk) (first_key rel es) ≡ ok (first_old rel.spc_oid rel.rel_number olds)

sealed_old :
    (gcm : Gcms) (pk : PrincipalKey) (rel : RelFileLocator) (o : OldKey) (iv : Bytes)
    → is_key_of rel (seal_entry gcm pk (old_locator pk o.spc_oid o.rel_number) o.key iv)
      ≡ is_old rel.spc_oid rel.rel_number o
unfolding is_key_of same_rel seal_entry
sealed_old gcm pk rel o iv = refl

pub SameKeys-cons :
    (gcm : Gcms) (pk : PrincipalKey) (o : OldKey) (olds : List OldKey) (es : List TdeMapEntry)
    (iv : Bytes)
    → IsKey o.key
    → SameKeys gcm pk olds es
    → SameKeys gcm pk
        (o ∷ olds)
        (seal_entry gcm pk (old_locator pk o.spc_oid o.rel_number) o.key iv ∷ es)
SameKeys-cons gcm pk o olds es iv k same rel =
    let loc = old_locator pk o.spc_oid o.rel_number in
    let x = seal_entry gcm pk loc o.key iv in
    let pick : Bool → Option InternalKey =
      λ b. if b then some o.key else first_old rel.spc_oid rel.rel_number olds in
    elim (Bool-cases (is_old rel.spc_oid rel.rel_number o)) [
      | inl p ↦
          ap (key_of_entry gcm (some pk)) (first_key-hit rel x es (sealed_old gcm pk rel o iv ∙ p))
          ∙ ap (λ c. and_then c λ y. ok (some y)) (decrypt_rel_key-seal_entry gcm pk loc o.key iv k)
          ∙ sym (ap (λ b. ok (pick b)) p)
      | inr p ↦
          ap (key_of_entry gcm (some pk)) (first_key-miss rel x es (sealed_old gcm pk rel o iv ∙ p))
          ∙ same rel
          ∙ sym (ap (λ b. ok (pick b)) p)
    ]

pub read_unused :
    (gcm : Gcms) (pk : PrincipalKey) (e : TdeMapEntryV4) (s : KeyDir)
    → e.type ≡ map_entry_type_empty
    → map_from_disk_entry_v4 gcm pk e s ≡ (ok empty_map_entry, s)
unfolding map_from_disk_entry_v4
read_unused gcm pk e s h =
    let t : (e.type == map_entry_type_empty) ≡ true = ground arith in rw t refl

pub read_key :
    (gcm : Gcms) (pk : PrincipalKey) (e : TdeMapEntryV4) (key : InternalKey) (s : KeyDir)
    (iv : Bytes) (rand : List Bytes)
    → e.type ≡ map_entry_type_key
    → ikey_from_map_entry_v4 gcm pk e ≡ ok key
    → s.rand ≡ iv ∷ rand
    → map_from_disk_entry_v4 gcm pk e s ≡ (
      ok (seal_entry gcm pk (old_locator pk e.spc_oid e.rel_number) key iv),
      record s { rand = rand },
    )
unfolding map_from_disk_entry_v4
read_key gcm pk e key s iv rand used opened p =
    let t : (e.type == map_entry_type_empty) ≡ false = ground arith in
    rw t (rw opened (seal_step gcm pk (old_locator pk e.spc_oid e.rel_number) key s iv rand p))
