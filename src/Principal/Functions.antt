-- ===== src/Principal/Functions.antt =====
-- The SQL functions that create and set principal keys.
use open_pg_tde.Base.{
  ℕ, Bool, true, false, Option, none, some, List, ◌==◌, if◌then◌else◌, leb, length, Bytes, Result,
  ok, err, and_then, permission_denied, principal_key_missing, global_providers_disabled,
  key_name_is_null, provider_name_is_null, name_too_short, name_too_long, key_exists, Exec, pure,
  raise, lift, ◌>>=◌, ◌>>◌,
}
use open_pg_tde.Keys.{Gcms, PrincipalKey, global_data_tde_oid}
use open_pg_tde.Principal.{
  default_data_tde_oid, Keyring, KeyInfo, Keyrings, Principals, get_principal_key_no_default,
}
use open_pg_tde.Principal.Manage.{
  set_principal_key_with_keyring, update_default_principal_key_everywhere,
}

-- superuser() and AllowInheritGlobalProviders
pub record Session : Type 0 where
  pub superuser : Bool
  pub allow_inherit_global_providers : Bool

-- PRINCIPAL_KEY_NAME_LEN
abbrev pub principal_key_name_len : ℕ
principal_key_name_len = 256

-- The checks of the arguments, in the order of the code; an argument may be NULL.
unfoldable pub check_global_provider : Session → ℕ → Result (Unit {0})
check_global_provider session provider_oid =
    let inherited =
      if session.allow_inherit_global_providers then ok tt else err global_providers_disabled in
    let global = if session.superuser then inherited else err permission_denied in
    if provider_oid == global_data_tde_oid then global else ok tt

unfoldable pub check_key_name : Option Bytes → Result Bytes
check_key_name none = err key_name_is_null
check_key_name (some name) =
    let long = if leb principal_key_name_len (length name) then err name_too_long else ok name in
    if length name == 0 then err name_too_short else long

abbrev pub check_provider_name : Option Bytes → Result Bytes
check_provider_name none = err provider_name_is_null
check_provider_name (some name) = ok name

-- the key that the server is asked to generate, KeyringGenerateNewKeyAndStore
pub record NewKey : Type 0 where
  pub provider : Keyring
  pub name : Bytes
  pub len : ℕ

-- KeyringGetKey returns NULL with an error code, and the code here tests for NULL alone.
abbrev pub is_absent : Result (Option KeyInfo) → Bool
is_absent (ok (some k)) = false
is_absent (ok none) = true
is_absent (err e) = true

-- open_pg_tde_create_principal_key_internal, up to the call that generates the key; `key_length` is
-- the setting KeyLength
unfoldable pub create_principal_key_internal :
    Keyrings → Session → ℕ → ℕ → Option Bytes → Option Bytes → Result NewKey
unfolding check_global_provider check_key_name
create_principal_key_internal keyrings session key_length provider_oid key_name provider_name =
    and_then (check_global_provider session provider_oid) λ u.
      and_then (check_key_name key_name) λ name.
        and_then (check_provider_name provider_name) λ provider.
          and_then (keyrings.provider_by_name provider provider_oid) λ keyring.
            (if is_absent (keyrings.get_key keyring name)
              then ok (record { provider = keyring; name = name; len = key_length })
              else err key_exists)

module _ (gcm : Gcms) (keyrings : Keyrings) (session : Session) (dbs : List ℕ) where
  -- existingKeyCopy: the default key before it is set
  unfoldable pub existing_default : ℕ → Exec Principals (Option PrincipalKey)
  unfolding get_principal_key_no_default
  existing_default db =
      if db == default_data_tde_oid then get_principal_key_no_default gcm keyrings db else pure none

  -- The code does not test whether the new default key is there, which it has just set; here its
  -- absence is an error.
  unfoldable pub update_from : PrincipalKey → Option PrincipalKey → Exec Principals Unit
  unfolding update_default_principal_key_everywhere
  update_from old_key none = raise principal_key_missing
  update_from old_key (some new_key) =
      update_default_principal_key_everywhere gcm keyrings dbs old_key new_key

  -- the new default key in all databases that had the old one
  unfoldable pub use_new_default : ℕ → Option PrincipalKey → Exec Principals Unit
  unfolding get_principal_key_no_default update_from
  use_new_default db none = pure tt
  use_new_default db (some old_key) = do
    new_key ← get_principal_key_no_default gcm keyrings db
    update_from old_key new_key

  -- open_pg_tde_set_principal_key_internal, with the databases in the order of the scan
  unfoldable pub set_principal_key_internal :
      ℕ → ℕ → Option Bytes → Option Bytes → ℕ × ℕ → Exec Principals Unit
  unfolding check_global_provider check_key_name existing_default set_principal_key_with_keyring
      use_new_default
  set_principal_key_internal provider_oid db key_name provider_name now = do
    lift (check_global_provider session provider_oid)
    name ← lift (check_key_name key_name)
    provider ← lift (check_provider_name provider_name)
    existing ← existing_default db
    set_principal_key_with_keyring gcm keyrings name provider provider_oid db now
    use_new_default db existing

  -- the server's key, if there is none
  unfoldable pub ensure_server_key :
      Option Bytes → Option Bytes → ℕ × ℕ → Option PrincipalKey → Exec Principals Unit
  unfolding set_principal_key_internal
  ensure_server_key key_name provider_name now none =
      set_principal_key_internal global_data_tde_oid global_data_tde_oid key_name provider_name now
  ensure_server_key key_name provider_name now (some pk) = pure tt

  -- open_pg_tde_set_default_key_using_global_key_provider
  unfoldable pub set_default_key_using_global_key_provider :
      Option Bytes → Option Bytes → ℕ × ℕ → Exec Principals Unit
  unfolding set_principal_key_internal ensure_server_key get_principal_key_no_default
  set_default_key_using_global_key_provider key_name provider_name now = do
    set_principal_key_internal global_data_tde_oid default_data_tde_oid key_name provider_name now
    server_key ← get_principal_key_no_default gcm keyrings global_data_tde_oid
    ensure_server_key key_name provider_name now server_key

  -- open_pg_tde_set_key_using_database_key_provider, in the database `db`
  unfoldable pub set_key_using_database_key_provider :
      ℕ → Option Bytes → Option Bytes → ℕ × ℕ → Exec Principals Unit
  unfolding set_principal_key_internal
  set_key_using_database_key_provider db = set_principal_key_internal db db

  -- open_pg_tde_set_key_using_global_key_provider, in the database `db`
  unfoldable pub set_key_using_global_key_provider :
      ℕ → Option Bytes → Option Bytes → ℕ × ℕ → Exec Principals Unit
  unfolding set_principal_key_internal
  set_key_using_global_key_provider db = set_principal_key_internal global_data_tde_oid db

  -- open_pg_tde_set_server_key_using_global_key_provider
  unfoldable pub set_server_key_using_global_key_provider :
      Option Bytes → Option Bytes → ℕ × ℕ → Exec Principals Unit
  unfolding set_principal_key_internal
  set_server_key_using_global_key_provider =
      set_principal_key_internal global_data_tde_oid global_data_tde_oid
