-- ===== src/KeyMap/Existing.antt =====
-- Saving a key for a relation that has one.
use open_pg_tde.Base.{
  ℕ, ◌+◌, ◌≡◌, refl, sym, ap, ◌∙◌, inl, inr, Bool, not, ◌||◌, true, false, Bool-cases, Option, some,
  List, [], ◌∷◌, if◌then◌else◌, Bytes, ok,
}
use open_pg_tde.Block.{InternalKey}
use open_pg_tde.Keys.{Gcms, PrincipalKey}
use open_pg_tde.KeyMap.Layout.{
  RelFileLocator, TdeFileHeader, TdeMapEntry, KeyDir, header_size, entry_size,
}
use open_pg_tde.KeyMap.Save.{same_rel, next_free, scan, save_smgr_key}
use open_pg_tde.KeyMap.Lookup.{first_key, get_smgr_key}
use open_pg_tde.KeyMap.Stored.{Holds, save_opened, store_key_kept, get_smgr_key_lem}
use open_pg_tde.KeyMap.Found.{not_same_rel}

scan_finds :
    (rel : RelFileLocator) (es : List TdeMapEntry) (off w : ℕ) (e : TdeMapEntry)
    → first_key rel es ≡ some e
    → (scan rel es off w).0 ≡ true
unfolding first_key scan
scan_finds rel [] off w e h = absurd (cc h)
scan_finds rel (x ∷ es) off w e h =
    let pick : Bool → Bool × ℕ =
      λ b. if b then (true, off) else scan rel es (off + entry_size) (next_free x off w) in
    elim (Bool-cases (same_rel rel x)) [
      | inl p ↦ ap (λ b. (pick b).0) p
      | inr p ↦
          let later : first_key rel es ≡ some e =
            sym (ap (λ b. if b then some x else first_key rel es) (not_same_rel rel x p)) ∙ h in
          ap (λ b. (pick b).0) p ∙ scan_finds rel es (off + entry_size) (next_free x off w) e later
    ]

-- Where the key file of the database can be read, a random buffer is at hand, and the relation has a
-- key, saving another one without replace_existing succeeds and changes nothing that is read: for
-- every relation of the database, with any principal key, it is as before.
pub get-save_smgr_key_existing :
    (gcm : Gcms) (pk : PrincipalKey) (rel : RelFileLocator) (key : InternalKey) (e : TdeMapEntry)
    (s : KeyDir) (h : TdeFileHeader) (es : List TdeMapEntry) (iv : Bytes) (rand : List Bytes)
    → Holds s rel.db_oid h es
    → s.rand ≡ iv ∷ rand
    → first_key rel es ≡ some e
    → let r = save_smgr_key gcm (some pk) rel key false s in
      (r.0 ≡ ok tt)
      × ((other : Option PrincipalKey) (spc num : ℕ)
          → let x : RelFileLocator = record {
            spc_oid = spc;
            db_oid = rel.db_oid;
            rel_number = num;
          } in
            (get_smgr_key gcm other x r.1).0 ≡ (get_smgr_key gcm other x s).0)
get-save_smgr_key_existing gcm pk rel key e s h es iv rand w p found =
    let (u, opened, holds, same_rand) = save_opened gcm pk rel key false s h es iv rand w p in
    let keeps : (not (scan rel es header_size 0).0 || false) ≡ false =
      ap (λ b. not b || false) (scan_finds rel es header_size 0 e found) in
    let whole : save_smgr_key gcm (some pk) rel key false s ≡ (ok tt, u) =
      opened ∙ store_key_kept gcm pk rel key false es u keeps in
    rw whole (
      refl,
      λ other spc num.
          let x : RelFileLocator = record {
            spc_oid = spc;
            db_oid = rel.db_oid;
            rel_number = num;
          } in
          ap (λ r. r.0)
            (get_smgr_key_lem gcm other u x h es
              (record { stored = holds.stored; version = holds.version }))
          ∙ sym (
              ap (λ r. r.0)
                (get_smgr_key_lem gcm other s x h es
                  (record { stored = w.stored; version = w.version }))),
    )
