-- ===== src/KeyMap/Rotate.antt =====
-- Operations on the whole key file of a database: creating it with a principal key, rotating the
-- principal key, and removing the file.
use open_pg_tde.Base.{
  ℕ, Bool, true, false, none, some, List, [], ◌∷◌, ◌++◌, ◌==◌, if◌then◌else◌, Exec, pure, raise,
  could_not_open, lift, gets, modify, ◌>>=◌, ◌>>◌,
}
use open_pg_tde.Keys.{
  Gcms, PrincipalKey, SignedPrincipalKeyInfo, XlogRecord, add_principal_key, rotate_principal_key,
  delete_principal_key, sign_principal_key_info, is_some,
}
use open_pg_tde.KeyMap.Layout.{
  RelFileLocator, TdeMapEntry, map_entry_type_empty, FilePath, keys, temporary, KeyDir, put_file,
}
use open_pg_tde.KeyMap.Entry.{initialize_map_entry, decrypt_rel_key}
use open_pg_tde.KeyMap.File.{with_random, open_file_read, open_file_write, write_one_map_entry}
use open_pg_tde.KeyMap.Lookup.{opened_entries}

-- XLogInsert
abbrev pub xlog_insert : XlogRecord → KeyDir → KeyDir
xlog_insert r s = record s { xlog = s.xlog ++ r ∷ [] }

-- durable_rename: the target is replaced and the source is gone
abbrev pub rename : FilePath → FilePath → KeyDir → KeyDir
rename old new s = put_file old none (put_file new (s.file old) s)

-- open_pg_tde_delete_tde_files and open_pg_tde_delete_principal_key_redo
unfoldable pub delete_tde_files : ℕ → Exec KeyDir Unit
delete_tde_files db_oid = modify (put_file (keys db_oid) none)

-- open_pg_tde_delete_principal_key; durable_unlink raises an error on a missing file
unfoldable pub delete_principal_key_file : ℕ → Exec KeyDir Unit
delete_principal_key_file db_oid = do
  modify (xlog_insert (delete_principal_key db_oid))
  exists ← gets (λ s. is_some (s.file (keys db_oid)))
  if exists then modify (put_file (keys db_oid) none) else raise could_not_open

-- open_pg_tde_save_principal_key_redo
unfoldable pub save_principal_key_redo : SignedPrincipalKeyInfo → Exec KeyDir Unit
unfolding open_file_write
save_principal_key_redo signed = do
  f ← open_file_write (keys signed.info.database_id) (some signed) false
  pure tt

-- open_pg_tde_save_principal_key
unfoldable pub save_principal_key : Gcms → PrincipalKey → Bool → Exec KeyDir Unit
unfolding open_file_write
save_principal_key gcm pk write_xlog = do
  signed ← with_random (sign_principal_key_info gcm pk)
  if write_xlog then modify (xlog_insert (add_principal_key signed)) else pure tt
  f ← open_file_write (keys pk.key_info.database_id) (some signed) true
  pure tt

-- rloc of open_pg_tde_perform_rotate_key
abbrev pub locator : PrincipalKey → TdeMapEntry → RelFileLocator
locator pk e = record {
  spc_oid = e.spc_oid;
  db_oid = pk.key_info.database_id;
  rel_number = e.rel_number;
}

-- the loop of open_pg_tde_perform_rotate_key
unfoldable pub rotate_entries :
    Gcms → PrincipalKey → PrincipalKey → FilePath → List TdeMapEntry → ℕ → Exec KeyDir Unit
unfolding write_one_map_entry
rotate_entries gcm pk new_pk path [] pos = pure tt
rotate_entries gcm pk new_pk path (e ∷ es) pos = elim (e.type == map_entry_type_empty) [
  | true ↦ rotate_entries gcm pk new_pk path es pos
  | false ↦ do
    key ← lift (decrypt_rel_key gcm pk e)
    written ← with_random (initialize_map_entry gcm new_pk (locator pk e) key)
    next ← write_one_map_entry path written pos
    rotate_entries gcm pk new_pk path es next
]

-- open_pg_tde_perform_rotate_key up to the end of its loop
unfoldable pub write_rotated : Gcms → PrincipalKey → PrincipalKey → Exec KeyDir Unit
unfolding rotate_entries open_file_read open_file_write
write_rotated gcm pk new_pk = do
  signed ← with_random (sign_principal_key_info gcm new_pk)
  old ← open_file_read (keys pk.key_info.database_id) false
  f ← open_file_write (temporary pk.key_info.database_id) (some signed) true
  rotate_entries gcm pk new_pk (temporary pk.key_info.database_id) (opened_entries old) f.curr_pos

-- open_pg_tde_perform_rotate_key
unfoldable pub perform_rotate_key : Gcms → PrincipalKey → PrincipalKey → Bool → Exec KeyDir Unit
unfolding write_rotated
perform_rotate_key gcm pk new_pk write_xlog = do
  write_rotated gcm pk new_pk
  modify (rename (temporary pk.key_info.database_id) (keys pk.key_info.database_id))
  if write_xlog then modify (xlog_insert (rotate_principal_key new_pk.key_info)) else pure tt
