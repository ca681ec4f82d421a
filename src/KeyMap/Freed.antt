-- ===== src/KeyMap/Freed.antt =====
-- Freeing the entry of a relation's key.
use open_pg_tde.Base.{
  ℕ, ◌<◌, ◌≤◌, ◌≡◌, refl, sym, ap, ◌∙◌, inl, inr, true, false, Option, none, some, List, arith, ok,
  Exec, bind_ok,
}
use open_pg_tde.Keys.{Gcms, PrincipalKey}
use open_pg_tde.KeyMap.Layout.{
  RelFileLocator, TdeFileHeader, TdeMapEntry, KeyDir, keys, empty_map_entry, header_size,
}
use open_pg_tde.KeyMap.File.{OpenFile, write_at, open_file_write}
use open_pg_tde.KeyMap.Save.{free_key_map_entry, key_offset, free_at, same_rel}
use open_pg_tde.KeyMap.Lookup.{first_key, get_smgr_key, key_of_entry}
use open_pg_tde.KeyMap.Slots.{listed, Unique, offset_of}
use open_pg_tde.KeyMap.Found.{uses, uses-none, uses_le_listed, key_offset-uses}
use open_pg_tde.KeyMap.Stored.{
  Holds, get_smgr_key_lem, open_file_write_lem, write_one_map_entry_lem,
}
use open_pg_tde.KeyMap.Saved.{sibling, same_numbers, apart_rel}

-- The key file after an entry was freed, whether there was one or not.
record Freed (rel : RelFileLocator) (s : KeyDir) (h : TdeFileHeader) (es fs : List TdeMapEntry)
    : Type 0 where
  pub holds : Holds s rel.db_oid h fs
  pub unused : listed rel es ≤ 1 → uses rel fs ≡ 0
  pub kept :
      (other : RelFileLocator)
      → ((x : TdeMapEntry) → same_rel rel x ≡ true → same_rel other x ≡ false)
      → first_key other fs ≡ first_key other es

free_at_lem :
    (rel : RelFileLocator) (s : KeyDir) (h : TdeFileHeader) (es : List TdeMapEntry)
    → Holds s rel.db_oid h es
    → let r = free_at (keys rel.db_oid) (key_offset rel es (offset_of 0)) s in
      (r.0 ≡ ok tt) × (fs : List TdeMapEntry) × Freed rel r.1 h es fs
unfolding free_at
free_at_lem rel s h es w = elim (key_offset-uses rel es 0 empty_map_entry refl) [
  | inl (q, r) ↦ rw q (refl, es, record { holds = w; unused = λ _. r; kept = λ other apart. refl })
  | inr (i, q, r, others) ↦
      let after = write_one_map_entry_lem s rel.db_oid h es i empty_map_entry w in
      let found : key_offset rel es (offset_of 0) ≡ some (offset_of i) =
        q ∙ ap (λ j. some (offset_of j)) (omega arith) in
      rw found (
        refl,
        write_at i empty_map_entry es,
        record {
          holds = after.1;
          unused = λ one. omega (arith, r, one, uses_le_listed rel es);
          kept = others;
        },
      )
]

free_key_map_entry_lem :
    (rel : RelFileLocator) (s : KeyDir) (h : TdeFileHeader) (es : List TdeMapEntry)
    → Holds s rel.db_oid h es
    → let r = free_key_map_entry rel s in
      (r.0 ≡ ok tt) × (fs : List TdeMapEntry) × Freed rel r.1 h es fs
unfolding free_key_map_entry
free_key_map_entry_lem rel s h es w =
    let open_file = open_file_write (keys rel.db_oid) none false in
    let f : OpenFile = record { entries = es; curr_pos = header_size } in
    let free : OpenFile → Exec KeyDir Unit =
      λ f. free_at (keys rel.db_oid) (key_offset rel f.entries f.curr_pos) in
    let (opens, holds, same_rand) = open_file_write_lem s rel.db_oid h es none w in
    rw (bind_ok open_file free s f opens) (free_at_lem rel (open_file s).1 h es holds)

-- Where the key file can be read and is well formed, freeing succeeds, and no key is read for the
-- relation afterwards. What is read for any other relation of the database is as before.
pub get-free_key_map_entry :
    (rel : RelFileLocator) (s : KeyDir) (h : TdeFileHeader) (es : List TdeMapEntry)
    → Holds s rel.db_oid h es
    → Unique es
    → 0 < rel.rel_number
    → let r = free_key_map_entry rel s in
      (r.0 ≡ ok tt)
      × ((gcm : Gcms) (pk : Option PrincipalKey)
          → ((get_smgr_key gcm pk rel r.1).0 ≡ ok none)
            × ((spc num : ℕ)
                → same_numbers rel spc num ≡ false
                → (get_smgr_key gcm pk (sibling rel spc num) r.1).0
                  ≡ (get_smgr_key gcm pk (sibling rel spc num) s).0))
get-free_key_map_entry rel s h es w u nonzero =
    let (done, fs, freed) = free_key_map_entry_lem rel s h es w in
    (
      done,
      λ gcm pk. (
        ap (λ r. r.0) (get_smgr_key_lem gcm pk _ rel h fs freed.holds)
            ∙ ap (key_of_entry gcm pk) (uses-none rel fs (freed.unused (u rel nonzero))),
        λ spc num d.
            let other = sibling rel spc num in
            ap (λ r. r.0)
              (get_smgr_key_lem gcm pk _ other h fs
                (record { stored = freed.holds.stored; version = freed.holds.version }))
            ∙ ap (key_of_entry gcm pk) (freed.kept other (apart_rel rel spc num d))
            ∙ sym (
                ap (λ r. r.0)
                  (get_smgr_key_lem gcm pk s other h es
                    (record { stored = w.stored; version = w.version }))),
      ),
    )
