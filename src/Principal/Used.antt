-- ===== src/Principal/Used.antt =====
-- The checks over all databases: deleting the default key, and which providers are in use.
use open_pg_tde.Base.{
  ℕ, Bool, true, false, ◌||◌, Option, none, some, List, [], ◌∷◌, ◌==◌, if◌then◌else◌, Result, ok,
  err, and_then, permission_denied, principal_key_not_configured, principal_key_missing,
  principal_key_in_use, key_mismatch, Exec, pure, raise, lift, gets, ◌>>=◌, ◌>>◌,
}
use open_pg_tde.Aes.{same_bytes}
use open_pg_tde.Keys.{
  Gcms, PrincipalKey, SignedPrincipalKeyInfo, verify_principal_key_info, global_data_tde_oid,
}
use open_pg_tde.KeyMap.Lookup.{count_encryption_keys}
use open_pg_tde.KeyMap.Rotate.{delete_principal_key_file}
use open_pg_tde.Wal.File.Server.{count_wal_ranges_in_file, delete_server_key}
use open_pg_tde.Principal.{
  default_data_tde_oid, Keyring, Keyrings, Principals, on_dir, on_wal, clear, clear_cache, required,
  cached_key, get_principal_key_no_default, get_from_keyring, key_info_of,
}
use open_pg_tde.Principal.Manage.{is_same_principal_key}

-- the key of a provider
abbrev pub uses_provider : ℕ → Option PrincipalKey → Bool
uses_provider id none = false
uses_provider id (some pk) = pk.key_info.keyring_id == id

module _ (gcm : Gcms) (keyrings : Keyrings) where
  -- A database without encrypted relations is remembered, and one with some of them is an error.
  unfoldable pub remember_unless_used : Bool → ℕ → List ℕ → Exec Principals (List ℕ)
  unfolding count_encryption_keys
  remember_unless_used false db found = pure found
  remember_unless_used true db found = do
    count ← on_dir (count_encryption_keys db 0)
    if count == 0 then pure (db ∷ found) else raise principal_key_in_use

  -- the databases whose key is the default key, the last one first
  unfoldable pub using_default : PrincipalKey → List ℕ → List ℕ → Exec Principals (List ℕ)
  unfolding get_principal_key_no_default remember_unless_used is_same_principal_key
  using_default default_key [] found = pure found
  using_default default_key (db ∷ dbs) found = do
    pk ← get_principal_key_no_default gcm keyrings db
    more ← remember_unless_used (is_same_principal_key (some default_key) pk) db found
    using_default default_key dbs more

  -- the server's key, where it is the default key
  unfoldable pub delete_server_if_same : Bool → Exec Principals Unit
  unfolding count_wal_ranges_in_file delete_server_key clear_cache
  delete_server_if_same false = pure tt
  delete_server_if_same true = do
    file ← gets (λ s. s.wal.keys)
    count ← lift (count_wal_ranges_in_file file)
    if count == 0
        then (do on_wal delete_server_key; clear global_data_tde_oid)
        else raise principal_key_in_use

  unfoldable pub delete_key_files : List ℕ → Exec Principals Unit
  unfolding delete_principal_key_file clear_cache
  delete_key_files [] = pure tt
  delete_key_files (db ∷ dbs) = do
    delete_key_files dbs
    on_dir (delete_principal_key_file db)
    clear db

  unfoldable pub delete_default : List ℕ → Option PrincipalKey → Exec Principals Unit
  unfolding using_default delete_server_if_same delete_key_files get_principal_key_no_default
      is_same_principal_key
  delete_default dbs none = raise principal_key_missing
  delete_default dbs (some default_key) = do
    found ← using_default default_key dbs []
    server_key ← get_principal_key_no_default gcm keyrings global_data_tde_oid
    delete_server_if_same (is_same_principal_key (some default_key) server_key)
    delete_key_files found
    on_dir (delete_principal_key_file default_data_tde_oid)
    clear default_data_tde_oid

  -- open_pg_tde_delete_default_key, with the databases in the order of the scan of pg_database
  unfoldable pub delete_default_key : Bool → List ℕ → Exec Principals Unit
  unfolding delete_default get_principal_key_no_default
  delete_default_key false dbs = raise permission_denied
  delete_default_key true dbs = do
    default_key ← get_principal_key_no_default gcm keyrings default_data_tde_oid
    delete_default dbs default_key

  -- Some database of the list has a key of the provider; the scan stops at the first one.
  unfoldable pub any_uses : ℕ → List ℕ → Exec Principals Bool
  unfolding get_principal_key_no_default
  any_uses id [] = pure false
  any_uses id (db ∷ dbs) = do
    pk ← get_principal_key_no_default gcm keyrings db
    if uses_provider id pk then pure true else any_uses id dbs

  -- open_pg_tde_is_provider_used: for a global provider the server, the default key and all databases
  unfoldable pub is_provider_used : List ℕ → ℕ → ℕ → Exec Principals Bool
  unfolding any_uses
  is_provider_used dbs db id =
      if db == global_data_tde_oid || db == default_data_tde_oid
      then any_uses id (global_data_tde_oid ∷ default_data_tde_oid ∷ dbs)
      else any_uses id (db ∷ [])

  -- open_pg_tde_principal_key_configured
  unfoldable pub principal_key_configured : ℕ → Exec Principals Bool
  unfolding get_principal_key_no_default
  principal_key_configured db = do
    pk ← get_principal_key_no_default gcm keyrings db
    elim pk [
      | some k ↦ pure true
      | none ↦ do
        default_key ← get_principal_key_no_default gcm keyrings default_data_tde_oid
        elim default_key [ some k ↦ pure true | none ↦ pure false ]
    ]

  -- the key of a modified provider against the description in a key file
  unfoldable pub verify_modified : Keyring → Option SignedPrincipalKeyInfo → Result (Unit {0})
  unfolding verify_principal_key_info
  verify_modified modified none = ok tt
  verify_modified modified (some signed) =
      let check = and_then (and_then (keyrings.get_key modified signed.info.name) required) λ k.
        (if verify_principal_key_info gcm signed k.key_data k.len
          then ok tt
          else err key_mismatch) in
      if signed.info.keyring_id == modified.keyring_id then check else ok tt

  unfoldable pub verify_all : Keyring → List ℕ → Exec Principals Unit
  unfolding verify_modified key_info_of
  verify_all modified [] = pure tt
  verify_all modified (db ∷ dbs) = do
    found ← key_info_of gcm keyrings db
    lift (verify_modified modified found)
    verify_all modified dbs

  -- open_pg_tde_verify_provider_keys_in_use: the server, and then each database
  unfoldable pub verify_provider_keys_in_use : List ℕ → Keyring → Exec Principals Unit
  unfolding verify_all
  verify_provider_keys_in_use dbs modified = verify_all modified (global_data_tde_oid ∷ dbs)

  -- a key differs from the one in the cache
  abbrev pub differs : PrincipalKey → Option PrincipalKey → Bool
  differs pk none = false
  differs pk (some old) =
      if pk.key_length == old.key_length
      then (if same_bytes pk.key_data old.key_data then false else true)
      else true

  -- open_pg_tde_verify_principal_key_internal
  unfoldable pub verify_principal_key_internal : ℕ → Exec Principals Unit
  unfolding get_from_keyring cached_key same_bytes
  verify_principal_key_internal db = do
    loaded ← get_from_keyring gcm keyrings db
    cached ← gets (λ s. cached_key db s.cache)
    elim loaded [
      | none ↦ raise principal_key_not_configured
      | some pk ↦ if differs pk cached then raise key_mismatch else pure tt
    ]
