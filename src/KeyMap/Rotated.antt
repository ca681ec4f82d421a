-- ===== src/KeyMap/Rotated.antt =====
-- Rotating the principal key of a database.
use open_pg_tde.Base.{
  ℕ, ◌≤◌, ◌≡◌, refl, sym, ap, ◌∙◌, Bool, true, false, none, some, List, [], ◌∷◌, if◌then◌else◌,
  arith, Bytes, ok, length, Exec, pure, modify, bind_ok, bind_eq, ◌>>=◌, ◌>>◌,
}
use open_pg_tde.Keys.{
  Gcms, PrincipalKey, PrincipalKeyInfo, SignedPrincipalKeyInfo, signed_with,
  sign_principal_key_info, rotate_principal_key,
}
use open_pg_tde.KeyMap.Layout.{
  RelFileLocator, TdeFileHeader, TdeMapEntry, current, keyed, KeyDir, FilePath, keys, temporary,
  path_eq, smgr_file_magic, header_size,
}
use open_pg_tde.KeyMap.File.{
  with_random, OpenFile, open_file_read, read_found, start_file, open_file_write, file_header_read,
  file_header_write,
}
use open_pg_tde.KeyMap.Lookup.{get_smgr_key, get_principal_key_info, count_keys, opened_entries}
use open_pg_tde.KeyMap.Rotate.{
  rotate_entries, write_rotated, perform_rotate_key, rename, xlog_insert,
}
use open_pg_tde.KeyMap.Stored.{Holds, path_eq_refl, sign_step, get_smgr_key_lem}
use open_pg_tde.KeyMap.RotateLoop.{rotate_entries-Resealed}
use open_pg_tde.KeyMap.Resealed.{Ready, Resealed, key_of_entry-Resealed}

-- the header that the rewritten file gets
abbrev pub new_header : Gcms → PrincipalKey → Bytes → TdeFileHeader
new_header gcm pk iv = record {
  file_version = smgr_file_magic;
  signed_key_info = signed_with gcm pk iv;
}

-- A file that is created or cut has a header and no entries.
pub open_new :
    (s : KeyDir) (path : FilePath) (signed : SignedPrincipalKeyInfo)
    → let r = open_file_write path (some signed) true s in
      (r.0 ≡ ok (record { entries = []; curr_pos = header_size }))
      × (r.1.file path
          ≡ some (
              keyed
                (record { file_version = smgr_file_magic; signed_key_info = signed })
                (current [])))
      × (r.1.rand ≡ s.rand)
      × ((q : FilePath) → path_eq path q ≡ false → r.1.file q ≡ s.file q)
unfolding open_file_write start_file file_header_read file_header_write
open_new s path signed = (refl, rw (path_eq_refl path) refl, refl, λ q apart. rw apart refl)

open_read_lem :
    (s : KeyDir) (db_oid : ℕ) (h : TdeFileHeader) (es : List TdeMapEntry)
    → Holds s db_oid h es
    → open_file_read (keys db_oid) false s
      ≡ (ok (some (record { entries = es; curr_pos = header_size })), s)
unfolding open_file_read read_found file_header_read
open_read_lem s db_oid h es w = rw w.stored (rw w.version refl)

-- The rewritten file before it replaces the old one.
write_rotated_lem :
    (gcm : Gcms) (pk new_pk : PrincipalKey) (s : KeyDir) (h : TdeFileHeader) (es : List TdeMapEntry)
    (iv : Bytes) (rand : List Bytes)
    → Holds s pk.key_info.database_id h es
    → Ready gcm pk es
    → s.rand ≡ iv ∷ rand
    → count_keys 0 es ≤ length rand
    → let r = write_rotated gcm pk new_pk s in
      (r.0 ≡ ok tt)
      × (out : List TdeMapEntry) × Resealed gcm pk new_pk es out
      × (r.1.file (temporary pk.key_info.database_id)
          ≡ some (keyed (new_header gcm new_pk iv) (current out)))
unfolding write_rotated
write_rotated_lem gcm pk new_pk s h es iv rand w ready p n =
    let db = pk.key_info.database_id in
    let path = temporary db in
    let signed = signed_with gcm new_pk iv in
    let s1 : KeyDir = record s { rand = rand } in
    let old : OpenFile = record { entries = es; curr_pos = header_size } in
    let f : OpenFile = record { entries = []; curr_pos = header_size } in
    let copy : OpenFile → Exec KeyDir Unit = λ f. rotate_entries gcm pk new_pk path es f.curr_pos in
    let (opens, file, same_rand, others) = open_new s1 path signed in
    let whole : write_rotated gcm pk new_pk s
        ≡ copy f (open_file_write path (some signed) true s1).1 =
      bind_eq (with_random (sign_principal_key_info gcm new_pk))
        (λ signed. open_file_read (keys db) false >>= λ old.
          open_file_write path (some signed) true >>= λ f.
          rotate_entries gcm pk new_pk path (opened_entries old) f.curr_pos)
        s s1 signed (sign_step gcm new_pk s iv rand p)
      ∙ bind_eq (open_file_read (keys db) false)
          (λ old. open_file_write path (some signed) true >>= λ f.
            rotate_entries gcm pk new_pk path (opened_entries old) f.curr_pos)
          s1 s1 (some old)
          (open_read_lem s1 db h es (record { stored = w.stored; version = w.version }))
      ∙ bind_ok (open_file_write path (some signed) true) copy s1 f opens in
    rw whole (
      rotate_entries-Resealed gcm pk new_pk path es [] (new_header gcm new_pk iv) _ ready file
        (omega (arith, ap length same_rand, n)))

pub header_info_lem :
    (s : KeyDir) (db : ℕ) (h : TdeFileHeader) (es : List TdeMapEntry)
    → s.file (keys db) ≡ some (keyed h (current es))
    → h.file_version ≡ smgr_file_magic
    → (get_principal_key_info db s).0 ≡ ok (some h.signed_key_info)
unfolding get_principal_key_info file_header_read
header_info_lem s db h es p v = rw p (rw v refl)

pub log_lem :
    (write_xlog : Bool) (info : PrincipalKeyInfo) (t : KeyDir)
    → let r =
        (if write_xlog then modify (xlog_insert (rotate_principal_key info)) else pure tt) t in
      (r.0 ≡ ok tt) × ((q : FilePath) → r.1.file q ≡ t.file q)
log_lem true info t = (refl, λ q. refl)
log_lem false info t = (refl, λ q. refl)

pub rename_lem :
    (t : KeyDir) (db : ℕ)
    → ((rename (temporary db) (keys db) t).file (keys db) ≡ t.file (temporary db))
      × ((rename (temporary db) (keys db) t).file (temporary db) ≡ none)
unfolding path_eq
rename_lem t db = (ground arith, ground arith)

-- Where the key file can be read, the old principal key opens every key in it, and random bytes are
-- at hand, rotating succeeds. What is read afterwards with the new principal key is, for every
-- relation of the database, what was read before with the old one; the header names the new key; and
-- the temporary file is gone.
pub get-perform_rotate_key :
    (gcm : Gcms) (pk new_pk : PrincipalKey) (write_xlog : Bool) (s : KeyDir) (h : TdeFileHeader)
    (es : List TdeMapEntry) (iv : Bytes) (rand : List Bytes)
    → Holds s pk.key_info.database_id h es
    → Ready gcm pk es
    → s.rand ≡ iv ∷ rand
    → count_keys 0 es ≤ length rand
    → let db = pk.key_info.database_id in
      let r = perform_rotate_key gcm pk new_pk write_xlog s in
      (r.0 ≡ ok tt)
      × ((spc num : ℕ)
          → let rel : RelFileLocator = record { spc_oid = spc; db_oid = db; rel_number = num } in
            (get_smgr_key gcm (some new_pk) rel r.1).0 ≡ (get_smgr_key gcm (some pk) rel s).0)
      × ((get_principal_key_info db r.1).0 ≡ ok (some (signed_with gcm new_pk iv)))
      × (r.1.file (temporary db) ≡ none)
unfolding perform_rotate_key
get-perform_rotate_key gcm pk new_pk write_xlog s h es iv rand w ready p n =
    let db = pk.key_info.database_id in
    let (done, out, resealed, file) = write_rotated_lem gcm pk new_pk s h es iv rand w ready p n in
    let t = (write_rotated gcm pk new_pk s).1 in
    let moved : KeyDir = rename (temporary db) (keys db) t in
    let read : (v : KeyDir)
        → v.file (keys db) ≡ t.file (temporary db)
        → ((spc num : ℕ)
            → let rel : RelFileLocator = record { spc_oid = spc; db_oid = db; rel_number = num } in
              (get_smgr_key gcm (some new_pk) rel v).0 ≡ (get_smgr_key gcm (some pk) rel s).0)
          × ((get_principal_key_info db v).0 ≡ ok (some (signed_with gcm new_pk iv))) =
      λ v same. (
        λ spc num.
            let rel : RelFileLocator = record { spc_oid = spc; db_oid = db; rel_number = num } in
            ap (λ r. r.0)
              (get_smgr_key_lem gcm (some new_pk) v rel (new_header gcm new_pk iv) out
                (record { stored = same ∙ file; version = refl }))
            ∙ key_of_entry-Resealed gcm pk new_pk rel es out resealed
            ∙ sym (
                ap (λ r. r.0)
                  (get_smgr_key_lem gcm (some pk) s rel h es
                    (record { stored = w.stored; version = w.version }))),
        header_info_lem v db (new_header gcm new_pk iv) out (same ∙ file) refl,
      ) in
    let (arrived, gone) = rename_lem t db in
    let log : Exec KeyDir Unit =
      if write_xlog then modify (xlog_insert (rotate_principal_key new_pk.key_info)) else pure tt in
    let finish : Exec KeyDir Unit = modify (rename (temporary db) (keys db)) >> log in
    let (logged, same) = log_lem write_xlog new_pk.key_info moved in
    let whole : perform_rotate_key gcm pk new_pk write_xlog s ≡ finish t =
      bind_ok (write_rotated gcm pk new_pk) (λ _. finish) s tt done in
    let (keys_same, info_same) = read (log moved).1 (same (keys db) ∙ arrived) in
    rw whole (logged, keys_same, info_same, same (temporary db) ∙ gone)
