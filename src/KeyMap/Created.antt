-- ===== src/KeyMap/Created.antt =====
-- Creating a key file with a principal key.
use open_pg_tde.Base.{
  ℕ, ◌≡◌, refl, ◌∙◌, Bool, true, false, some, List, [], ◌∷◌, if◌then◌else◌, Bytes, ok, Exec,
  bind_ok, bind_eq, ◌>>=◌, ◌>>◌, pure, modify,
}
use open_pg_tde.Keys.{
  Gcms, PrincipalKey, SignedPrincipalKeyInfo, signed_with, sign_principal_key_info,
  add_principal_key,
}
use open_pg_tde.KeyMap.Layout.{
  TdeFileHeader, KeyDir, FilePath, keys, path_eq, smgr_file_magic, current, keyed,
}
use open_pg_tde.KeyMap.File.{
  with_random, OpenFile, open_file_read, read_found, file_header_read, open_file_write,
}
use open_pg_tde.KeyMap.Lookup.{get_principal_key_info, count_encryption_keys, count_keys}
use open_pg_tde.KeyMap.Rotate.{save_principal_key, xlog_insert}
use open_pg_tde.KeyMap.Stored.{sign_step}
use open_pg_tde.KeyMap.Rotated.{open_new, header_info_lem, new_header}

logged :
    (write_xlog : Bool) (signed : SignedPrincipalKeyInfo) (s : KeyDir)
    → (t : KeyDir) × ((if write_xlog
            then modify (xlog_insert (add_principal_key signed))
            else pure tt)
          s
        ≡ (ok tt, t))
      × ((q : FilePath) → t.file q ≡ s.file q)
logged true signed s = (_, refl, λ q. refl)
logged false signed s = (_, refl, λ q. refl)

no_keys :
    (s : KeyDir) (db : ℕ) (h : TdeFileHeader)
    → s.file (keys db) ≡ some (keyed h (current []))
    → h.file_version ≡ smgr_file_magic
    → (count_encryption_keys db 0 s).0 ≡ ok 0
unfolding count_encryption_keys open_file_read read_found file_header_read count_keys
no_keys s db h p v = rw p (rw v refl)

-- With random bytes at hand, saving a principal key succeeds, whatever the file was before: the file
-- then names the key, signed with it, and has no relation keys; every other file is as it was.
pub get_principal_key_info-save_principal_key :
    (gcm : Gcms) (pk : PrincipalKey) (write_xlog : Bool) (s : KeyDir) (iv : Bytes)
    (rand : List Bytes)
    → s.rand ≡ iv ∷ rand
    → let db = pk.key_info.database_id in
      let r = save_principal_key gcm pk write_xlog s in
      (r.0 ≡ ok tt)
      × ((get_principal_key_info db r.1).0 ≡ ok (some (signed_with gcm pk iv)))
      × ((count_encryption_keys db 0 r.1).0 ≡ ok 0)
      × ((q : FilePath) → path_eq (keys db) q ≡ false → r.1.file q ≡ s.file q)
unfolding save_principal_key
get_principal_key_info-save_principal_key gcm pk write_xlog s iv rand p =
    let db = pk.key_info.database_id in
    let signed = signed_with gcm pk iv in
    let s1 : KeyDir = record s { rand = rand } in
    let (t, q, same) = logged write_xlog signed s1 in
    let (opens, file, same_rand, others) = open_new t (keys db) signed in
    let finish : OpenFile → Exec KeyDir Unit = λ f. pure tt in
    let rest : SignedPrincipalKeyInfo → Exec KeyDir Unit = λ x.
      (if write_xlog then modify (xlog_insert (add_principal_key x)) else pure tt)
      >> (open_file_write (keys db) (some x) true >>= finish) in
    let u = (open_file_write (keys db) (some signed) true t).1 in
    let whole : save_principal_key gcm pk write_xlog s ≡ (ok tt, u) =
      bind_eq (with_random (sign_principal_key_info gcm pk)) rest s s1 signed
        (sign_step gcm pk s iv rand p)
      ∙ bind_eq (if write_xlog then modify (xlog_insert (add_principal_key signed)) else pure tt)
          (λ _. open_file_write (keys db) (some signed) true >>= finish) s1 t tt q
      ∙ bind_ok (open_file_write (keys db) (some signed) true) finish t _ opens in
    rw whole (
      refl,
      header_info_lem u db (new_header gcm pk iv) [] file refl,
      no_keys u db (new_header gcm pk iv) file refl,
      λ q apart. others q apart ∙ same q,
    )
