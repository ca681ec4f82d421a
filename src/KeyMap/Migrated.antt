-- ===== src/KeyMap/Migrated.antt =====
-- What is read from a migrated key file of version 4 or 5.
use open_pg_tde.Base.{
  inl, inr, Bool-cases, err, unsupported_old_version, ℕ, suc, ◌≤◌, ◌≡◌, refl, sym, ap, ◌∙◌, Bool,
  true, false, some, List, [], ◌∷◌, ◌++◌, ◌==◌, map, arith, Bytes, ok, length, Exec, lift, modify,
  bind_ok, bind_eq, ◌>>=◌, ◌>>◌,
}
use open_pg_tde.Block.{InternalKey}
use open_pg_tde.Keys.{Gcms, PrincipalKey, signed_with, sign_principal_key_info}
use open_pg_tde.KeyMap.Layout.{
  RelFileLocator, TdeFileHeader, TdeMapEntry, TdeMapEntryV4, map_entry_type_empty,
  map_entry_type_key, Body, current, keyed, KeyDir, FilePath, keys, temporary, smgr_file_magic,
  filemagic_version, header_size,
}
use open_pg_tde.KeyMap.Entry.{seal_entry}
use open_pg_tde.KeyMap.File.{
  with_random, OpenFile, open_file_write, write_one_map_entry, write_at, slot, update_entries,
}
use open_pg_tde.KeyMap.Lookup.{first_key, get_smgr_key}
use open_pg_tde.KeyMap.Rotate.{rename}
use open_pg_tde.KeyMap.Old.{
  ikey_from_map_entry_v4, old_locator, map_from_disk_entry_v4, old_entries, migrate_entries,
  rewrite_file, migrate_keyed, migrate_file, supported_version, migrate_checked,
}
use open_pg_tde.KeyMap.Slots.{offset_of, slot-offset_of, next_offset}
use open_pg_tde.KeyMap.Stored.{path_eq_refl, sign_step, get_smgr_key_lem}
use open_pg_tde.KeyMap.RotateLoop.{
  write_at_end, append_nil, append_one, length_append_one, another_buffer,
}
use open_pg_tde.KeyMap.Rotated.{new_header, open_new, rename_lem}
use open_pg_tde.KeyMap.OldKeys.{
  OldKey, Opens, no_entries, unused, holds_key, first_old, SameKeys, SameKeys-cons, read_unused,
  read_key,
}

sealed_used :
    (gcm : Gcms) (pk : PrincipalKey) (rel : RelFileLocator) (key : InternalKey) (iv : Bytes)
    → ((seal_entry gcm pk rel key iv).type == map_entry_type_empty) ≡ false
unfolding seal_entry
sealed_used gcm pk rel key iv = refl

-- one round of the loop on an unused entry
skip_round :
    (gcm : Gcms) (pk : PrincipalKey) (path : FilePath) (e : TdeMapEntryV4) (es : List TdeMapEntryV4)
    (pos : ℕ) (s : KeyDir)
    → e.type ≡ map_entry_type_empty
    → migrate_entries path (map (map_from_disk_entry_v4 gcm pk) (e ∷ es)) pos s
      ≡ migrate_entries path (map (map_from_disk_entry_v4 gcm pk) es) pos s
unfolding migrate_entries
skip_round gcm pk path e es pos s free =
    ap
      (λ r.
        (lift r.0 >>= λ n. elim (n.type == map_entry_type_empty) [
          | true ↦ migrate_entries path (map (map_from_disk_entry_v4 gcm pk) es) pos
          | false ↦
              write_one_map_entry path n pos
              >>= migrate_entries path (map (map_from_disk_entry_v4 gcm pk) es)
        ])
          r.1)
      (read_unused gcm pk e s free)

-- and on one with a key
key_round :
    (gcm : Gcms) (pk : PrincipalKey) (path : FilePath) (e : TdeMapEntryV4) (es : List TdeMapEntryV4)
    (done : List TdeMapEntry) (h : TdeFileHeader) (s : KeyDir) (key : InternalKey) (iv : Bytes)
    (rand : List Bytes)
    → e.type ≡ map_entry_type_key
    → ikey_from_map_entry_v4 gcm pk e ≡ ok key
    → s.file path ≡ some (keyed h (current done))
    → s.rand ≡ iv ∷ rand
    → (t : KeyDir) × (migrate_entries path
          (map (map_from_disk_entry_v4 gcm pk) (e ∷ es))
          (offset_of (length done))
          s
        ≡ migrate_entries path
            (map (map_from_disk_entry_v4 gcm pk) es)
            (offset_of (suc (length done)))
            t)
      × (t.file path
          ≡ some (
              keyed h (
                current
                  (done ++ seal_entry gcm pk (old_locator pk e.spc_oid e.rel_number) key iv ∷ []))))
      × (t.rand ≡ rand)
unfolding migrate_entries write_one_map_entry
key_round gcm pk path e es done h s key iv rand used opened stored p =
    let loc = old_locator pk e.spc_oid e.rel_number in
    let x = seal_entry gcm pk loc key iv in
    let pos = offset_of (length done) in
    let s1 : KeyDir = record s { rand = rand } in
    let t = (write_one_map_entry path x pos s1).1 in
    let ms = map (map_from_disk_entry_v4 gcm pk) es in
    let step : Bool → TdeMapEntry → Exec KeyDir Unit = λ b n. elim b [
      | true ↦ migrate_entries path ms pos
      | false ↦ write_one_map_entry path n pos >>= migrate_entries path ms
    ] in
    (
      t,
      bind_eq (map_from_disk_entry_v4 gcm pk e) (λ n. step (n.type == map_entry_type_empty) n) s s1
            x (read_key gcm pk e key s iv rand used opened p)
          ∙ ap (λ b. step b x s1) (sealed_used gcm pk loc key iv)
          ∙ ap (λ o. migrate_entries path ms o t) (next_offset (length done)),
      rw (path_eq_refl path) (
          ap (update_entries (write_at (slot pos) x)) stored
          ∙ ap (λ j. some (keyed h (current (write_at j x done)))) (slot-offset_of (length done))
          ∙ ap (λ es. some (keyed h (current es))) (write_at_end done x)),
      refl,
    )

-- the loop on a whole file
migrate_entries-SameKeys :
    (gcm : Gcms) (pk : PrincipalKey) (path : FilePath) (es : List TdeMapEntryV4)
    (olds : List OldKey) (done : List TdeMapEntry) (h : TdeFileHeader) (s : KeyDir)
    → Opens gcm pk es olds
    → s.file path ≡ some (keyed h (current done))
    → length olds ≤ length s.rand
    → let r =
        migrate_entries path (map (map_from_disk_entry_v4 gcm pk) es) (offset_of (length done)) s in
      (r.0 ≡ ok tt)
      × (out : List TdeMapEntry) × SameKeys gcm pk olds out
      × (r.1.file path ≡ some (keyed h (current (done ++ out))))
migrate_entries-SameKeys gcm pk path _ _ done h s no_entries stored n =
    unfold migrate_entries in
    (
      refl,
      [],
      λ rel. unfold first_key in refl,
      stored ∙ ap (λ es. some (keyed h (current es))) (sym (append_nil done)),
    )
migrate_entries-SameKeys gcm pk path _ _ done h s (unused {e = e} {es = es} {olds = olds} free r)
      stored n =
    rw (skip_round gcm pk path e es (offset_of (length done)) s free)
      (migrate_entries-SameKeys gcm pk path es olds done h s r stored n)
migrate_entries-SameKeys gcm pk path _ _ done h s
      (holds_key {e = e} {es = es} {olds = olds} key used opened k r) stored n =
    let (iv, rand, p, left) = another_buffer s.rand (length olds) n in
    let x = seal_entry gcm pk (old_locator pk e.spc_oid e.rel_number) key iv in
    let o : OldKey = record { spc_oid = e.spc_oid; rel_number = e.rel_number; key = key } in
    let (t, round, file, q) =
      key_round gcm pk path e es done h s key iv rand used opened stored p in
    let left' : length olds ≤ length t.rand = omega (arith, ap length q, left) in
    let (ended, out, same, last) =
      migrate_entries-SameKeys gcm pk path es olds (done ++ x ∷ []) h t r file left' in
    let ms = map (map_from_disk_entry_v4 gcm pk) es in
    let whole : migrate_entries path (map (map_from_disk_entry_v4 gcm pk) (e ∷ es))
          (offset_of (length done)) s
        ≡ migrate_entries path ms (offset_of (length (done ++ x ∷ []))) t =
      round ∙ ap (λ j. migrate_entries path ms (offset_of j) t) (sym (length_append_one done x)) in
    rw whole (
      ended,
      x ∷ out,
      SameKeys-cons gcm pk o olds out iv k same,
      last ∙ ap (λ es. some (keyed h (current es))) (append_one done x out),
    )

rewrite_file_lem :
    (gcm : Gcms) (pk : PrincipalKey) (db : ℕ) (es : List TdeMapEntryV4) (olds : List OldKey)
    (s : KeyDir) (iv : Bytes) (rand : List Bytes)
    → Opens gcm pk es olds
    → s.rand ≡ iv ∷ rand
    → length olds ≤ length rand
    → let r = rewrite_file gcm pk db (map (map_from_disk_entry_v4 gcm pk) es) s in
      (r.0 ≡ ok tt)
      × (out : List TdeMapEntry) × SameKeys gcm pk olds out
      × (r.1.file (temporary db) ≡ some (keyed (new_header gcm pk iv) (current out)))
unfolding rewrite_file
rewrite_file_lem gcm pk db es olds s iv rand o p n =
    let path = temporary db in
    let ms = map (map_from_disk_entry_v4 gcm pk) es in
    let signed = signed_with gcm pk iv in
    let s1 : KeyDir = record s { rand = rand } in
    let (opens, file, same_rand, others) = open_new s1 path signed in
    let copy : OpenFile → Exec KeyDir Unit = λ f. migrate_entries path ms f.curr_pos in
    let f : OpenFile = record { entries = []; curr_pos = header_size } in
    let whole : rewrite_file gcm pk db ms s
        ≡ copy f (open_file_write path (some signed) true s1).1 =
      bind_eq (with_random (sign_principal_key_info gcm pk))
        (λ x. open_file_write path (some x) true >>= copy) s s1 signed
        (sign_step gcm pk s iv rand p)
      ∙ bind_ok (open_file_write path (some signed) true) copy s1 f opens in
    rw whole (
      migrate_entries-SameKeys gcm pk path es olds [] (new_header gcm pk iv) _ o file
        (omega (arith, ap length same_rand, n)))

-- A version whose entries can be read passes the test.
readable_version :
    (gcm : Gcms) (pk : PrincipalKey) (version : ℕ) (body : Body)
    (ms : List (Exec KeyDir TdeMapEntry))
    → old_entries gcm pk version body ≡ ok ms
    → supported_version version ≡ ok tt
unfolding old_entries supported_version
readable_version gcm pk version body ms known = elim (Bool-cases (version == 3)) [
  | inl p ↦ rw p refl
  | inr p ↦ elim (Bool-cases (version == 4)) [
    | inl q ↦ rw (p, q) refl
    | inr q ↦ elim (Bool-cases (version == 5)) [
      | inl r ↦ rw (p, q, r) refl
      | inr r ↦
          let clash : err unsupported_old_version ≡ ok ms = rw (p, q, r) at known in
          absurd (cc clash)
    ]
  ]
]

-- Where each used entry of a key file of version 4 or 5 opens with the principal key, and random bytes
-- are at hand, migrating the file succeeds; what is read afterwards for a relation of the database is
-- the first key that the old file held for it, or none if it held none.
pub get-migrate_file :
    (gcm : Gcms) (pk : PrincipalKey) (h : TdeFileHeader) (body : Body) (es : List TdeMapEntryV4)
    (olds : List OldKey) (s : KeyDir) (iv : Bytes) (rand : List Bytes)
    → (h.file_version == smgr_file_magic) ≡ false
    → old_entries gcm pk (filemagic_version h.file_version) body
      ≡ ok (map (map_from_disk_entry_v4 gcm pk) es)
    → Opens gcm pk es olds
    → s.rand ≡ iv ∷ rand
    → length olds ≤ length rand
    → let db = pk.key_info.database_id in
      let r = migrate_file gcm (some pk) db (some (keyed h body)) s in
      (r.0 ≡ ok tt)
      × ((spc num : ℕ)
          → let rel : RelFileLocator = record { spc_oid = spc; db_oid = db; rel_number = num } in
            (get_smgr_key gcm (some pk) rel r.1).0 ≡ ok (first_old spc num olds))
unfolding migrate_file migrate_keyed migrate_checked
get-migrate_file gcm pk h body es olds s iv rand old known o p n =
    let db = pk.key_info.database_id in
    let ms = map (map_from_disk_entry_v4 gcm pk) es in
    let (done, out, same, file) = rewrite_file_lem gcm pk db es olds s iv rand o p n in
    let t = (rewrite_file gcm pk db ms s).1 in
    let moved : KeyDir = rename (temporary db) (keys db) t in
    let (arrived, gone) = rename_lem t db in
    let finish : Exec KeyDir Unit = modify (rename (temporary db) (keys db)) in
    let whole : (rewrite_file gcm pk db ms >> finish) s ≡ (ok tt, moved) =
      bind_ok (rewrite_file gcm pk db ms) (λ _. finish) s tt done in
    let version = filemagic_version h.file_version in
    rw (old, readable_version gcm pk version body (map (map_from_disk_entry_v4 gcm pk) es) known)
      (rw known (
        rw whole (
          refl,
          λ spc num.
              let rel : RelFileLocator = record { spc_oid = spc; db_oid = db; rel_number = num } in
              ap (λ r. r.0)
                (get_smgr_key_lem gcm (some pk) moved rel (new_header gcm pk iv) out
                  (record { stored = arrived ∙ file; version = refl }))
              ∙ same rel,
        )))
