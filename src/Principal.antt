-- ===== src/Principal.antt =====
-- Principal keys: src/catalog/tde_principal_key.c, in the server. The state is the key files of the
-- databases, the WAL key file, and the shared cache of principal keys. Locks, and the wiping and
-- locking of memory, are left out; KeyMap and Wal each keep their own list of WAL records and of
-- coming random buffers.
pub mod Manage
pub mod Used
pub mod Cached
pub mod Loaded
pub mod Known
pub mod Changed
pub mod Removed
pub mod Fallback
pub mod Quiet
pub mod InUse
pub mod Functions
pub mod ProviderUse
pub mod ProviderKeys
use open_pg_tde.Base.{
  ℕ, Bool, true, false, ◌&&◌, Option, none, some, List, [], ◌∷◌, ◌==◌, if◌then◌else◌, Bytes, Result,
  ok, err, and_then, keyring_missing, key_missing, key_verification_failed, Exec, pure, raise, lift,
  gets, modify, ◌>>=◌, ◌>>◌,
}
use open_pg_tde.Keys.{
  Gcms, PrincipalKeyInfo, PrincipalKey, SignedPrincipalKeyInfo, verify_principal_key_info,
  global_data_tde_oid,
}
use open_pg_tde.KeyMap.Layout.{KeyDir}
use open_pg_tde.KeyMap.Lookup.{get_principal_key_info}
use open_pg_tde.KeyMap.Rotate.{save_principal_key}
use open_pg_tde.Wal.File.{WalDir}
use open_pg_tde.Wal.File.Server.{get_server_key_info, save_server_key}

-- DEFAULT_DATA_TDE_OID, the oid of the tablespace pg_default
abbrev pub default_data_tde_oid : ℕ
default_data_tde_oid = 1663

-- what is used of a GenericKeyring
pub record Keyring : Type 0 where
  pub keyring_id : ℕ
  pub provider_name : Bytes

-- KeyInfo: a key as its key server gives it
pub record KeyInfo : Type 0 where
  pub name : Bytes
  pub key_data : Bytes
  pub len : ℕ

-- The key servers and the providers that are configured: GetKeyProviderByID (none: no such id) and
-- GetKeyProviderByName (an error: no such name), with the oid of the database, and KeyringGetKey
-- (none: no such key; an error: any other return code than success).
pub record Keyrings : Type 0 where
  pub provider_by_id : ℕ → ℕ → Option Keyring
  pub provider_by_name : Bytes → ℕ → Result Keyring
  pub get_key : Keyring → Bytes → Result (Option KeyInfo)

pub record Principals : Type 0 where
  pub dir : KeyDir
  pub wal : WalDir
  pub cache : List PrincipalKey

abbrev pub on_dir : {A : Type 0} → Exec KeyDir A → Exec Principals A
on_dir m s = let r = m s.dir in (r.0, record s { dir = r.1 })

abbrev pub on_wal : {A : Type 0} → Exec WalDir A → Exec Principals A
on_wal m s = let r = m s.wal in (r.0, record s { wal = r.1 })

-- get_principal_key_from_cache: the cache is a hash by the database of the key
unfoldable pub cached_key : ℕ → List PrincipalKey → Option PrincipalKey
cached_key db [] = none
cached_key db (k ∷ ks) = if k.key_info.database_id == db then some k else cached_key db ks

unfoldable pub push_key : PrincipalKey → Option PrincipalKey → List PrincipalKey → List PrincipalKey
push_key pk none ks = pk ∷ ks
push_key pk (some old) ks = ks

-- push_principal_key_to_cache: an entry that is there stays
unfoldable pub push_to_cache : PrincipalKey → List PrincipalKey → List PrincipalKey
unfolding cached_key push_key
push_to_cache pk ks = push_key pk (cached_key pk.key_info.database_id ks) ks

-- clear_principal_key_cache
unfoldable pub clear_cache : ℕ → List PrincipalKey → List PrincipalKey
clear_cache db [] = []
clear_cache db (k ∷ ks) =
    let rest = clear_cache db ks in if k.key_info.database_id == db then rest else k ∷ rest

abbrev pub push : PrincipalKey → Exec Principals Unit
push pk = modify (λ s. record s { cache = push_to_cache pk s.cache })

abbrev pub clear : ℕ → Exec Principals Unit
clear db = modify (λ s. record s { cache = clear_cache db s.cache })

-- the key that a key server gave for a description, after its verification
unfoldable pub verified_key : Gcms → SignedPrincipalKeyInfo → KeyInfo → Result PrincipalKey
unfolding verify_principal_key_info
verified_key gcm signed k =
    if verify_principal_key_info gcm signed k.key_data k.len
    then ok (record { key_info = signed.info; key_data = k.key_data; key_length = k.len })
    else err key_verification_failed

abbrev pub required {ℓ} : {A : Type ℓ} → Option A → Result A
required none = err key_missing
required (some a) = ok a

abbrev pub required_keyring : Option Keyring → Result Keyring
required_keyring none = err keyring_missing
required_keyring (some k) = ok k

module _ (gcm : Gcms) (keyrings : Keyrings) where
  open keyrings use {provider_by_id, provider_by_name, get_key}

  -- get_principal_key_from_keyring, from the description in the key file on
  unfoldable pub load_key : ℕ → SignedPrincipalKeyInfo → Result PrincipalKey
  unfolding verified_key
  load_key db signed =
      and_then (required_keyring (provider_by_id signed.info.keyring_id db)) λ keyring.
        and_then (and_then (get_key keyring signed.info.name) required)
          λ k. verified_key gcm signed k

  unfoldable pub load_found : ℕ → Option SignedPrincipalKeyInfo → Result (Option PrincipalKey)
  unfolding load_key
  load_found db none = ok none
  load_found db (some signed) = and_then (load_key db signed) λ pk. ok (some pk)

  -- the description of the principal key in the key file of a database, or of the server
  unfoldable pub key_info_of : ℕ → Exec Principals (Option SignedPrincipalKeyInfo)
  unfolding get_principal_key_info get_server_key_info
  key_info_of db =
      if db == global_data_tde_oid
      then (λ s. (get_server_key_info s.wal.keys, s))
      else on_dir (get_principal_key_info db)

  -- get_principal_key_from_keyring
  unfoldable pub get_from_keyring : ℕ → Exec Principals (Option PrincipalKey)
  unfolding key_info_of load_found
  get_from_keyring db = do found ← key_info_of db; lift (load_found db found)

  -- what was loaded goes into the cache, and the result is read from there
  unfoldable pub keep_loaded : ℕ → Option PrincipalKey → Exec Principals (Option PrincipalKey)
  unfolding push_to_cache cached_key
  keep_loaded db none = pure none
  keep_loaded db (some pk) = do push pk; gets (λ s. cached_key db s.cache)

  unfoldable pub get_uncached : ℕ → Option PrincipalKey → Exec Principals (Option PrincipalKey)
  unfolding get_from_keyring keep_loaded
  get_uncached db (some pk) = pure (some pk)
  get_uncached db none = do pk ← get_from_keyring db; keep_loaded db pk

  -- GetPrincipalKeyNoDefault
  unfoldable pub get_principal_key_no_default : ℕ → Exec Principals (Option PrincipalKey)
  unfolding get_uncached cached_key
  get_principal_key_no_default db = do
    found ← gets (λ s. cached_key db s.cache)
    get_uncached db found

  -- the key file of a database, or of the server, with a principal key and nothing else
  unfoldable pub save_key : ℕ → PrincipalKey → Bool → Exec Principals Unit
  unfolding save_principal_key save_server_key
  save_key db pk write_xlog =
      if db == global_data_tde_oid
      then on_wal (save_server_key gcm pk write_xlog)
      else on_dir (save_principal_key gcm pk write_xlog)

  -- the default key, written down as the key of the database
  unfoldable pub adopt_default : ℕ → Option PrincipalKey → Exec Principals (Option PrincipalKey)
  unfolding save_key get_principal_key_no_default push_to_cache
  adopt_default db none = pure none
  adopt_default db (some default_key) = do
    let pk : PrincipalKey = record default_key {
      key_info = record default_key.key_info { database_id = db };
    }
    save_key db pk false
    push pk
    get_principal_key_no_default db

  unfoldable pub or_default : ℕ → Option PrincipalKey → Exec Principals (Option PrincipalKey)
  unfolding adopt_default get_principal_key_no_default
  or_default db (some pk) = pure (some pk)
  or_default db none = do
    default_key ← get_principal_key_no_default default_data_tde_oid
    adopt_default db default_key

  -- GetPrincipalKey
  unfoldable pub get_principal_key : ℕ → Exec Principals (Option PrincipalKey)
  unfolding get_principal_key_no_default or_default
  get_principal_key db = do found ← get_principal_key_no_default db; or_default db found
