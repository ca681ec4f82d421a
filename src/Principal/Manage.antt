-- ===== src/Principal/Manage.antt =====
-- Setting, rotating and deleting principal keys.
use open_pg_tde.Base.{
  ℕ, Bool, true, false, ◌&&◌, Option, none, some, List, [], ◌∷◌, ◌==◌, if◌then◌else◌, Bytes,
  and_then, principal_key_missing, principal_key_in_use, Exec, pure, raise, lift, ◌>>=◌, ◌>>◌,
}
use open_pg_tde.Aes.{same_bytes}
use open_pg_tde.Keys.{Gcms, PrincipalKeyInfo, PrincipalKey, global_data_tde_oid}
use open_pg_tde.KeyMap.Lookup.{count_encryption_keys}
use open_pg_tde.KeyMap.Rotate.{perform_rotate_key, delete_principal_key_file, delete_tde_files}
use open_pg_tde.Wal.File.Rewrite.{perform_rotate_server_key}
use open_pg_tde.Principal.{
  default_data_tde_oid, KeyInfo, Keyrings, Principals, on_dir, on_wal, push, clear, push_to_cache,
  clear_cache, required, required_keyring, get_principal_key_no_default, save_key,
}

-- open_pg_tde_is_same_principal_key. Names are padded with zero bytes, so that strcmp reads them whole.
unfoldable pub is_same_principal_key : Option PrincipalKey → Option PrincipalKey → Bool
unfolding same_bytes
is_same_principal_key (some a) (some b) =
    same_bytes a.key_info.name b.key_info.name && a.key_info.keyring_id == b.key_info.keyring_id
is_same_principal_key none b = false
is_same_principal_key (some a) none = false

-- the principal key made of what a key server gave, at a time
abbrev pub new_principal_key : ℕ → ℕ → KeyInfo → ℕ × ℕ → PrincipalKey
new_principal_key db keyring_id k now = record {
  key_info = record {
    database_id = db;
    keyring_id = keyring_id;
    creation_time = now;
    name = k.name;
  };
  key_data = k.key_data;
  key_length = k.len;
}

module _ (gcm : Gcms) (keyrings : Keyrings) where
  open keyrings use {provider_by_id, provider_by_name, get_key}

  -- the rotation of a key file, of a database or of the server
  unfoldable pub rotate_file : ℕ → PrincipalKey → PrincipalKey → Bool → Exec Principals Unit
  unfolding perform_rotate_key perform_rotate_server_key
  rotate_file db pk new_pk write_xlog =
      if db == global_data_tde_oid
      then on_wal (perform_rotate_server_key gcm pk new_pk write_xlog)
      else on_dir (perform_rotate_key gcm pk new_pk write_xlog)

  -- a key file rotated, and the cache with the new key
  unfoldable pub rotate_and_push : ℕ → PrincipalKey → PrincipalKey → Bool → Exec Principals Unit
  unfolding rotate_file clear_cache push_to_cache
  rotate_and_push db pk new_pk write_xlog = do
    rotate_file db pk new_pk write_xlog
    clear pk.key_info.database_id
    push new_pk

  -- the first key of a database is saved, and any other one replaces the current key
  unfoldable pub store_principal_key : ℕ → Option PrincipalKey → PrincipalKey → Exec Principals Unit
  unfolding rotate_and_push save_key push_to_cache
  store_principal_key db none new_pk = do save_key gcm keyrings db new_pk true; push new_pk
  store_principal_key db (some pk) new_pk = rotate_and_push db pk new_pk true

  -- set_principal_key_with_keyring; `now` is the result of gettimeofday
  unfoldable pub set_principal_key_with_keyring :
      Bytes → Bytes → ℕ → ℕ → ℕ × ℕ → Exec Principals Unit
  unfolding get_principal_key_no_default store_principal_key
  set_principal_key_with_keyring key_name provider_name provider_oid db now = do
    current ← get_principal_key_no_default gcm keyrings db
    keyring ← lift (provider_by_name provider_name provider_oid)
    k ← lift (and_then (get_key keyring key_name) required)
    store_principal_key db current (new_principal_key db keyring.keyring_id k now)

  -- the rotation on a standby of a database that has a key
  unfoldable pub redo_rotation :
      PrincipalKeyInfo → ℕ × ℕ → Option PrincipalKey → Exec Principals Unit
  unfolding rotate_and_push
  redo_rotation xlrec now none = raise principal_key_missing
  redo_rotation xlrec now (some pk) = do
    keyring ← lift (required_keyring (provider_by_id xlrec.keyring_id xlrec.database_id))
    k ← lift (and_then (get_key keyring xlrec.name) required)
    rotate_and_push xlrec.database_id pk
        (new_principal_key xlrec.database_id keyring.keyring_id k now) false

  -- xl_tde_perform_rotate_key. The code does not test whether the provider is there, which the WAL
  -- ensures; here its absence is an error.
  unfoldable pub xl_tde_perform_rotate_key : PrincipalKeyInfo → ℕ × ℕ → Exec Principals Unit
  unfolding get_principal_key_no_default redo_rotation
  xl_tde_perform_rotate_key xlrec now = do
    current ← get_principal_key_no_default gcm keyrings xlrec.database_id
    redo_rotation xlrec now current

  -- principal_key_startup_cleanup
  unfoldable pub principal_key_startup_cleanup : ℕ → Exec Principals Unit
  unfolding clear_cache delete_tde_files
  principal_key_startup_cleanup db = do clear db; on_dir (delete_tde_files db)

  -- open_pg_tde_rotate_default_key_for_database
  unfoldable pub rotate_default_key_for_database :
      PrincipalKey → PrincipalKey → Exec Principals Unit
  unfolding rotate_and_push
  rotate_default_key_for_database pk template =
      let db = pk.key_info.database_id in
      rotate_and_push db pk
        (record template { key_info = record template.key_info { database_id = db } }) true

  -- one database of open_pg_tde_update_default_principal_key_everywhere
  unfoldable pub update_if_same :
      PrincipalKey → PrincipalKey → Option PrincipalKey → Exec Principals Unit
  unfolding is_same_principal_key rotate_default_key_for_database
  update_if_same old_key new_key none = pure tt
  update_if_same old_key new_key (some pk) =
      if is_same_principal_key (some old_key) (some pk)
      then rotate_default_key_for_database pk new_key
      else pure tt

  -- the loop over the databases, in the order of the scan of pg_database
  unfoldable pub update_databases : PrincipalKey → PrincipalKey → List ℕ → Exec Principals Unit
  unfolding update_if_same get_principal_key_no_default
  update_databases old_key new_key [] = pure tt
  update_databases old_key new_key (db ∷ dbs) = do
    pk ← get_principal_key_no_default gcm keyrings db
    update_if_same old_key new_key pk
    update_databases old_key new_key dbs

  -- open_pg_tde_update_default_principal_key_everywhere: first the server, then each database
  unfoldable pub update_default_principal_key_everywhere :
      List ℕ → PrincipalKey → PrincipalKey → Exec Principals Unit
  unfolding update_databases
  update_default_principal_key_everywhere dbs old_key new_key =
      update_databases old_key new_key (global_data_tde_oid ∷ dbs)

  -- a database with encrypted relations goes over to the default key, unless it has that key
  unfoldable pub fall_back : PrincipalKey → Option PrincipalKey → Exec Principals Unit
  unfolding is_same_principal_key rotate_default_key_for_database
  fall_back pk none = raise principal_key_in_use
  fall_back pk (some default_key) =
      if is_same_principal_key (some pk) (some default_key)
      then raise principal_key_in_use
      else rotate_default_key_for_database pk default_key

  -- open_pg_tde_delete_key once the number of keys of the database is known
  unfoldable pub delete_counted : ℕ → PrincipalKey → ℕ → Exec Principals Unit
  unfolding fall_back get_principal_key_no_default delete_principal_key_file clear_cache
  delete_counted db pk count =
      let keep = get_principal_key_no_default gcm keyrings default_data_tde_oid >>= fall_back pk in
      let remove = on_dir (delete_principal_key_file db) >> clear db in
      if count == 0 then remove else keep

  unfoldable pub delete_found_key : ℕ → Option PrincipalKey → Exec Principals Unit
  unfolding delete_counted count_encryption_keys
  delete_found_key db none = raise principal_key_missing
  delete_found_key db (some pk) = do
    count ← on_dir (count_encryption_keys db 0)
    delete_counted db pk count

  -- open_pg_tde_delete_key, in the database `db`
  unfoldable pub delete_key : ℕ → Exec Principals Unit
  unfolding get_principal_key_no_default delete_found_key
  delete_key db = do found ← get_principal_key_no_default gcm keyrings db; delete_found_key db found
