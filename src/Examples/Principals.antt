-- ===== src/Examples/Principals.antt =====
-- The theorems on principal keys, applied to a server that has just restarted.
use open_pg_tde.Base.{false, ◌≡◌, refl, true, none, some, [], ◌∷◌, arith, zeros, ok}
use open_pg_tde.Aes.{same_bytes}
use open_pg_tde.Keys.{
  SignedPrincipalKeyInfo, signed_with, verify_principal_key_info, global_data_tde_oid,
}
use open_pg_tde.KeyMap.Layout.{FilePath, keys, path_eq}
use open_pg_tde.KeyMap.File.{file_header_read}
use open_pg_tde.KeyMap.Lookup.{get_principal_key_info, count_keys}
use open_pg_tde.Wal.File.Server.{get_server_key_info}
use open_pg_tde.Principal.{KeyInfo, Principals, cached_key, key_info_of}
use open_pg_tde.Principal.Manage.{
  new_principal_key, set_principal_key_with_keyring, delete_key, is_same_principal_key,
}
use open_pg_tde.Principal.Used.{
  delete_default_key, is_provider_used, verify_provider_keys_in_use, verify_all, verify_modified,
}
use open_pg_tde.Principal.Loaded.{verify-signed_with}
use open_pg_tde.Principal.Changed.{HasMoved, IsRotatable, set_principal_key_with_keyring-HasMoved}
use open_pg_tde.Principal.Removed.{delete_key-unused}
use open_pg_tde.Principal.InUse.{HasFailed, IsUsing, delete_default_key-HasFailed}
use open_pg_tde.Principal.ProviderUse.{IsAdmitted, is_provider_used-IsAdmitted}
use open_pg_tde.Principal.ProviderKeys.{verify_provider_keys_in_use_sound}
use open_pg_tde.Examples.Toy.{toy_gcm}
use open_pg_tde.Examples.KeyFiles.{pk, stored, one_key-Ready, one_counted}
use open_pg_tde.Examples.Restarted.{
  vault, fresh, vaults, default_key, shared_default, header_of, own_file, restarted,
  restarted-Holds, fresh-IsServed, own-HasKey, shared-HasKey, restarted-AreNamed,
}

-- a database with one relation key, and a default key of another name
abbrev server : Principals
server = restarted (own_file (stored ∷ [])) default_key

server-IsRotatable :
    IsRotatable toy_gcm vaults 5
      (header_of pk)
      (stored ∷ [])
      (zeros 16)
      ((8 ∷ zeros 15) ∷ (6 ∷ zeros 15) ∷ [])
      pk
      server
server-IsRotatable = record {
  local_db = refl;
  own = refl;
  holds = restarted-Holds (stored ∷ []) default_key;
  ready = one_key-Ready;
  random = refl;
  enough = omega (arith, one_counted);
}

set_principal_key_with_keyring-HasMoved_example :
    let r = set_principal_key_with_keyring toy_gcm vaults (113 ∷ []) (118 ∷ []) 5 5 (0, 0) server in
    (r.0 ≡ ok tt) × HasMoved toy_gcm vaults 5 pk (new_principal_key 5 1 fresh (0, 0)) server r.1
unfolding same_bytes
set_principal_key_with_keyring-HasMoved_example =
    set_principal_key_with_keyring-HasMoved toy_gcm vaults 5 (header_of pk) (stored ∷ []) (zeros 16)
      ((8 ∷ zeros 15) ∷ (6 ∷ zeros 15) ∷ []) (113 ∷ []) (118 ∷ []) 5 (0, 0) pk vault fresh server
      (own-HasKey (stored ∷ []) default_key) server-IsRotatable refl refl fresh-IsServed

-- a database without relation keys
abbrev unused : Principals
unused = restarted (own_file []) default_key

none_counted : count_keys 0 [] ≡ 0
unfolding count_keys
none_counted = refl

delete_key-unused_example :
    let r = delete_key toy_gcm vaults 5 unused in
    (r.0 ≡ ok tt)
    × (r.1.dir.file (keys 5) ≡ none)
    × (cached_key 5 r.1.cache ≡ none)
    × ((path : FilePath) → path_eq (keys 5) path ≡ false → r.1.dir.file path ≡ unused.dir.file path)
delete_key-unused_example =
    delete_key-unused toy_gcm vaults 5 (header_of pk) [] pk unused (own-HasKey [] default_key)
      (restarted-Holds [] default_key) none_counted

-- the default key is the key of the database
abbrev sharing : Principals
sharing = restarted (own_file (stored ∷ [])) shared_default

sharing-IsUsing :
    IsUsing toy_gcm vaults 5 (header_of pk) (stored ∷ []) pk shared_default (4 ∷ []) sharing
unfolding is_same_principal_key same_bytes
sharing-IsUsing = record {
  known = own-HasKey (stored ∷ []) shared_default;
  same = refl;
  holds = restarted-Holds (stored ∷ []) shared_default;
  used = rw one_counted refl;
}

delete_default_key-HasFailed_example :
    HasFailed toy_gcm vaults sharing
      (delete_default_key toy_gcm vaults true (1 ∷ 5 ∷ 4 ∷ []) sharing)
delete_default_key-HasFailed_example =
    delete_default_key-HasFailed toy_gcm vaults 5 (header_of pk) (stored ∷ []) pk shared_default
      (4 ∷ []) (1 ∷ []) sharing (restarted-AreNamed (stored ∷ []) shared_default refl)
      (shared-HasKey (own_file (stored ∷ []))) sharing-IsUsing

-- a database without a key file
abbrev keyless : Principals
keyless = restarted none default_key

is_provider_used-IsAdmitted_example :
    IsAdmitted toy_gcm vaults server
      (is_provider_used toy_gcm vaults (3 ∷ 5 ∷ []) global_data_tde_oid 1 server)
is_provider_used-IsAdmitted_example =
    is_provider_used-IsAdmitted toy_gcm vaults 1 5 pk [] (3 ∷ []) global_data_tde_oid server refl
      (restarted-AreNamed (stored ∷ []) default_key refl) (own-HasKey (stored ∷ []) default_key)
      refl

abbrev signed : SignedPrincipalKeyInfo
signed = signed_with toy_gcm pk (zeros 16)

described : (key_info_of toy_gcm vaults 5 server).0 ≡ ok (some signed)
unfolding key_info_of get_principal_key_info file_header_read path_eq
described = refl

passes : (verify_provider_keys_in_use toy_gcm vaults (3 ∷ 5 ∷ []) vault server).0 ≡ ok tt
unfolding verify_provider_keys_in_use verify_all verify_modified key_info_of get_principal_key_info
    file_header_read path_eq get_server_key_info signed_with same_bytes
passes = rw (verify-signed_with toy_gcm vaults 5 pk (zeros 16)) refl

verify_provider_keys_in_use_sound_example :
    (k : KeyInfo) × (vaults.get_key vault signed.info.name ≡ ok (some k))
    × (verify_principal_key_info toy_gcm signed k.key_data k.len ≡ true)
unfolding signed_with
verify_provider_keys_in_use_sound_example =
    verify_provider_keys_in_use_sound toy_gcm vaults vault signed 5 []
      (global_data_tde_oid ∷ 3 ∷ []) (3 ∷ 5 ∷ []) server refl described refl passes
