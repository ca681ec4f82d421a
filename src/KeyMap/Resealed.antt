-- ===== src/KeyMap/Resealed.antt =====
-- The entries that open_pg_tde_perform_rotate_key writes.
use open_pg_tde.Base.{
  ◌≡◌, refl, sym, ap, ◌∙◌, inl, inr, Bool-cases, Option, some, List, [], ◌∷◌, arith, Bytes, Result,
  ok, and_then,
}
use open_pg_tde.Block.{InternalKey}
use open_pg_tde.Keys.{Gcms, PrincipalKey}
use open_pg_tde.KeyMap.Layout.{
  RelFileLocator, TdeMapEntry, map_entry_type_empty, map_entry_type_key,
}
use open_pg_tde.KeyMap.Entry.{IsKey, seal_entry, decrypt_rel_key, decrypt_rel_key-seal_entry}
use open_pg_tde.KeyMap.Save.{is_key_of, same_rel}
use open_pg_tde.KeyMap.Lookup.{first_key, key_of_entry}
use open_pg_tde.KeyMap.Rotate.{locator}
use open_pg_tde.KeyMap.Found.{first_key-hit, first_key-miss, empty_no_key}

-- Each entry is unused, or holds a key that the principal key opens.
pub data Ready (gcm : Gcms) (pk : PrincipalKey) : List TdeMapEntry → Type 0 where
  no_entries : Ready gcm pk []
  unused :
      {e : TdeMapEntry} {es : List TdeMapEntry}
      → e.type ≡ map_entry_type_empty
      → Ready gcm pk es
      → Ready gcm pk (e ∷ es)
  opens :
      {e : TdeMapEntry} {es : List TdeMapEntry}
      → (key : InternalKey) → e.type ≡ map_entry_type_key
      → decrypt_rel_key gcm pk e ≡ ok key
      → IsKey key
      → Ready gcm pk es
      → Ready gcm pk (e ∷ es)

-- The used entries in their order, their keys sealed under another principal key.
pub data Resealed (gcm : Gcms) (pk new_pk : PrincipalKey)
    : List TdeMapEntry → List TdeMapEntry → Type 0 where
  finished : Resealed gcm pk new_pk [] []
  skipped :
      {e : TdeMapEntry} {es out : List TdeMapEntry}
      → e.type ≡ map_entry_type_empty
      → Resealed gcm pk new_pk es out
      → Resealed gcm pk new_pk (e ∷ es) out
  sealed :
      {e : TdeMapEntry} {es out : List TdeMapEntry}
      → (key : InternalKey) (iv : Bytes) → e.type ≡ map_entry_type_key
      → decrypt_rel_key gcm pk e ≡ ok key
      → IsKey key
      → Resealed gcm pk new_pk es out
      → Resealed gcm pk new_pk (e ∷ es) (seal_entry gcm new_pk (locator pk e) key iv ∷ out)

-- a sealed entry carries the numbers of the one it was made from
sealed_is_key_of :
    (gcm : Gcms) (pk new_pk : PrincipalKey) (rel : RelFileLocator) (e : TdeMapEntry)
    (key : InternalKey) (iv : Bytes)
    → e.type ≡ map_entry_type_key
    → is_key_of rel (seal_entry gcm new_pk (locator pk e) key iv) ≡ is_key_of rel e
unfolding is_key_of same_rel seal_entry
sealed_is_key_of gcm pk new_pk rel e key iv h = ground arith

-- A relation's key reads the same from both files, each with its principal key.
pub key_of_entry-Resealed :
    (gcm : Gcms) (pk new_pk : PrincipalKey) (rel : RelFileLocator) (es out : List TdeMapEntry)
    → Resealed gcm pk new_pk es out
    → key_of_entry gcm (some new_pk) (first_key rel out)
      ≡ key_of_entry gcm (some pk) (first_key rel es)
key_of_entry-Resealed gcm pk new_pk rel _ _ finished = unfold first_key in refl
key_of_entry-Resealed gcm pk new_pk rel _ _ (skipped {e = e} {es = es} {out = out} free r) =
    key_of_entry-Resealed gcm pk new_pk rel es out r
    ∙ sym (ap (key_of_entry gcm (some pk)) (first_key-miss rel e es (empty_no_key rel e free)))
key_of_entry-Resealed gcm pk new_pk rel _ _
      (sealed {e = e} {es = es} {out = out} key iv used opened k r) =
    let x = seal_entry gcm new_pk (locator pk e) key iv in
    let same = sealed_is_key_of gcm pk new_pk rel e key iv used in
    let found : Result InternalKey → Result (Option InternalKey) =
      λ c. and_then c λ y. ok (some y) in
    elim (Bool-cases (is_key_of rel e)) [
      | inl p ↦
          ap (key_of_entry gcm (some new_pk)) (first_key-hit rel x out (same ∙ p))
          ∙ ap found (decrypt_rel_key-seal_entry gcm new_pk (locator pk e) key iv k)
          ∙ sym (ap found opened)
          ∙ sym (ap (key_of_entry gcm (some pk)) (first_key-hit rel e es p))
      | inr p ↦
          ap (key_of_entry gcm (some new_pk)) (first_key-miss rel x out (same ∙ p))
          ∙ key_of_entry-Resealed gcm pk new_pk rel es out r
          ∙ sym (ap (key_of_entry gcm (some pk)) (first_key-miss rel e es p))
    ]
