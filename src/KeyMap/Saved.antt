-- ===== src/KeyMap/Saved.antt =====
-- Saving a relation's key and reading it back.
use open_pg_tde.Base.{
  ℕ, ◌≤◌, ◌≡◌, refl, sym, ap, ◌∙◌, inl, inr, ◌⊎◌, Bool, true, false, not, ◌||◌, Bool-cases, ◌&&◌,
  Option, some, List, [], ◌∷◌, ◌==◌, arith, Bytes, ok, length, and_then,
}
use open_pg_tde.Block.{InternalKey}
use open_pg_tde.Keys.{Gcms, PrincipalKey, Random}
use open_pg_tde.KeyMap.Layout.{RelFileLocator, TdeFileHeader, TdeMapEntry, KeyDir, header_size}
use open_pg_tde.KeyMap.Entry.{IsKey, seal_entry, decrypt_rel_key-seal_entry}
use open_pg_tde.KeyMap.File.{write_at}
use open_pg_tde.KeyMap.Save.{scan, save_smgr_key, is_key_of, same_rel}
use open_pg_tde.KeyMap.Lookup.{get_smgr_key, key_of_entry}
use open_pg_tde.KeyMap.Slots.{Fits, at_end, reuse, later, listed, Unique}
use open_pg_tde.KeyMap.Stored.{
  Holds, get_smgr_key_lem, save_smgr_key_lem, save_opened, writes_when, store_key_kept,
}
use open_pg_tde.KeyMap.Found.{
  first_key-write_at, first_key-write_at_other, listed-write_at, listed-write_at_other,
  not_same_rel, key_same_rel,
}

-- another relation of the same database
abbrev pub sibling : RelFileLocator → ℕ → ℕ → RelFileLocator
sibling rel spc_oid rel_number = record {
  spc_oid = spc_oid;
  db_oid = rel.db_oid;
  rel_number = rel_number;
}

-- the tablespace and the number are those of the relation
abbrev pub same_numbers : RelFileLocator → ℕ → ℕ → Bool
same_numbers rel spc_oid rel_number = rel.spc_oid == spc_oid && rel.rel_number == rel_number

sealed_key_of :
    (gcm : Gcms) (pk : PrincipalKey) (rel : RelFileLocator) (key : InternalKey) (iv : Bytes)
    → is_key_of rel (seal_entry gcm pk rel key iv) ≡ true
unfolding is_key_of same_rel seal_entry
sealed_key_of gcm pk rel key iv = ground arith

pub apart_rel :
    (rel : RelFileLocator) (spc num : ℕ)
    → same_numbers rel spc num ≡ false
    → (x : TdeMapEntry) → same_rel rel x ≡ true
    → same_rel (sibling rel spc num) x ≡ false
unfolding same_rel
apart_rel rel spc num d x p = ground arith

-- Where the key file of the database can be read, two random buffers are at hand, and the key may
-- replace another one or no entry has the numbers of the relation, saving a key for the relation
-- succeeds, and reading it with the same principal key gives the key. What is read for any
-- other relation of the database, with any principal key, is as before.
pub get-save_smgr_key :
    (gcm : Gcms) (pk : PrincipalKey) (rel : RelFileLocator) (key : InternalKey)
    (replace_existing : Bool) (s : KeyDir) (h : TdeFileHeader) (es : List TdeMapEntry)
    (iv1 iv2 : Bytes) (rand : Random)
    → Holds s rel.db_oid h es
    → s.rand ≡ iv1 ∷ iv2 ∷ rand
    → IsKey key
    → (replace_existing ≡ true) ⊎ (listed rel es ≡ 0)
    → let r = save_smgr_key gcm (some pk) rel key replace_existing s in
      (r.0 ≡ ok tt)
      × ((get_smgr_key gcm (some pk) rel r.1).0 ≡ ok (some key))
      × ((other : Option PrincipalKey) (spc num : ℕ)
          → same_numbers rel spc num ≡ false
          → (get_smgr_key gcm other (sibling rel spc num) r.1).0
            ≡ (get_smgr_key gcm other (sibling rel spc num) s).0)
get-save_smgr_key gcm pk rel key replace_existing s h es iv1 iv2 rand w p k new =
    let e = seal_entry gcm pk rel key iv2 in
    let sealed = sealed_key_of gcm pk rel key iv2 in
    let (done, i, fits, after) =
      save_smgr_key_lem gcm pk rel key replace_existing s h es iv1 iv2 rand w p
        (writes_when rel es replace_existing new) in
    (
      done,
      ap (λ r. r.0) (get_smgr_key_lem gcm (some pk) _ rel h (write_at i e es) after)
          ∙ ap (key_of_entry gcm (some pk)) (first_key-write_at rel es i e fits sealed)
          ∙ ap (λ c. and_then c λ x. ok (some x)) (decrypt_rel_key-seal_entry gcm pk rel key iv2 k),
      λ other spc num d.
          let rel' = sibling rel spc num in
          ap (λ r. r.0)
            (get_smgr_key_lem gcm other _ rel' h (write_at i e es)
              (record { stored = after.stored; version = after.version }))
          ∙ ap (key_of_entry gcm other) (
              first_key-write_at_other rel rel' es i e fits
                (not_same_rel rel' e (apart_rel rel spc num d e (key_same_rel rel e sealed)))
                (apart_rel rel spc num d))
          ∙ sym (
              ap (λ r. r.0)
                (get_smgr_key_lem gcm other s rel' h es
                  (record { stored = w.stored; version = w.version }))),
    )

Fits-length : (rel : RelFileLocator) (es : List TdeMapEntry) (i : ℕ) → Fits rel es i → i ≤ length es
Fits-length rel _ _ at_end = omega arith
Fits-length rel _ _ (reuse p) = omega arith
Fits-length rel _ _ (later {es = es} {i = i} p fits) = omega (arith, Fits-length rel es i fits)

listed_same :
    (a b : RelFileLocator) (es : List TdeMapEntry)
    → a.spc_oid ≡ b.spc_oid
    → a.rel_number ≡ b.rel_number
    → listed a es ≡ listed b es
unfolding listed same_rel
listed_same a b [] p q = refl
listed_same a b (e ∷ es) p q = ground (arith, listed_same a b es p q)

same_rel_numbers :
    (gcm : Gcms) (pk : PrincipalKey) (rel other : RelFileLocator) (key : InternalKey) (iv : Bytes)
    → same_rel other (seal_entry gcm pk rel key iv) ≡ true
    → (other.spc_oid ≡ rel.spc_oid) × (other.rel_number ≡ rel.rel_number)
unfolding same_rel seal_entry
same_rel_numbers gcm pk rel other key iv p = (ground arith, ground arith)

Unique-write_at :
    (gcm : Gcms) (pk : PrincipalKey) (rel : RelFileLocator) (key : InternalKey) (iv : Bytes)
    (es : List TdeMapEntry) (i : ℕ)
    → Fits rel es i
    → Unique es
    → Unique (write_at i (seal_entry gcm pk rel key iv) es)
Unique-write_at gcm pk rel key iv es i fits u other nonzero =
    let e = seal_entry gcm pk rel key iv in
    elim (Bool-cases (same_rel other e)) [
      | inl same ↦
          let (spc, num) = same_rel_numbers gcm pk rel other key iv same in
          omega (
            arith,
            listed_same other rel (write_at i e es) spc num,
            listed-write_at rel es i e fits (u rel (omega arith)),
          )
      | inr apart ↦
          let more = listed-write_at_other other es i e (Fits-length rel es i fits) apart in
          omega (arith, more, u other nonzero)
    ]

-- Where the key file of the database can be read and two random buffers are at hand, saving a key for
-- a relation, with or without replace_existing, keeps the entries well formed: the file can be read
-- again, and at most one entry carries the numbers of each relation if that was so before.
pub save_smgr_key-Unique :
    (gcm : Gcms) (pk : PrincipalKey) (rel : RelFileLocator) (key : InternalKey)
    (replace_existing : Bool) (s : KeyDir) (h : TdeFileHeader) (es : List TdeMapEntry)
    (iv1 iv2 : Bytes) (rand : Random)
    → Holds s rel.db_oid h es
    → s.rand ≡ iv1 ∷ iv2 ∷ rand
    → Unique es
    → (fs : List TdeMapEntry) × Holds
        (save_smgr_key gcm (some pk) rel key replace_existing s).1
        rel.db_oid
        h
        fs
      × Unique fs
save_smgr_key-Unique gcm pk rel key replace_existing s h es iv1 iv2 rand w p u =
    elim (Bool-cases (not (scan rel es header_size 0).0 || replace_existing)) [
      | inl writes ↦
          let (done, i, fits, after) =
            save_smgr_key_lem gcm pk rel key replace_existing s h es iv1 iv2 rand w p writes in
          (
            write_at i (seal_entry gcm pk rel key iv2) es,
            after,
            Unique-write_at gcm pk rel key iv2 es i fits u,
          )
      | inr keeps ↦
          let (t, whole, holds, same_rand) =
            save_opened gcm pk rel key replace_existing s h es iv1 (iv2 ∷ rand) w p in
          (es, rw (whole ∙ store_key_kept gcm pk rel key replace_existing es t keeps) holds, u)
    ]
