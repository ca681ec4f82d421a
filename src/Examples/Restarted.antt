-- ===== src/Examples/Restarted.antt =====
-- A server after a restart: its cache is empty, and its keys are in the key files and on a key server.
use open_pg_tde.Base.{
  ℕ, ◌≡◌, refl, sym, ap, ◌∙◌, inl, inr, Bool-cases, Option, none, some, List, [], ◌∷◌, ◌==◌,
  if◌then◌else◌, arith, zeros, ok,
}
use open_pg_tde.Aes.{same_bytes}
use open_pg_tde.Keys.{PrincipalKey, SignedPrincipalKeyInfo, signed_with, global_data_tde_oid}
use open_pg_tde.KeyMap.Layout.{
  TdeFileHeader, TdeMapEntry, KeyFile, keyed, current, FilePath, keys, path_eq, smgr_file_magic,
}
use open_pg_tde.KeyMap.File.{file_header_read}
use open_pg_tde.KeyMap.Lookup.{get_principal_key_info}
use open_pg_tde.KeyMap.Stored.{Holds}
use open_pg_tde.Wal.File.Server.{get_server_key_info}
use open_pg_tde.Principal.{
  Keyring, KeyInfo, Keyrings, Principals, cached_key, default_data_tde_oid, key_info_of,
}
use open_pg_tde.Principal.Manage.{new_principal_key}
use open_pg_tde.Principal.Loaded.{IsServed}
use open_pg_tde.Principal.Known.{HasKey, in_file, AreNamed}
use open_pg_tde.Examples.Toy.{toy_gcm}
use open_pg_tde.Examples.KeyFiles.{pk, rands}

abbrev pub vault : Keyring
vault = record { keyring_id = 1; provider_name = 118 ∷ [] }

abbrev pub own : KeyInfo
own = record { name = 112 ∷ []; key_data = pk.key_data; len = 16 }

abbrev pub fresh : KeyInfo
fresh = record { name = 113 ∷ []; key_data = 77 ∷ zeros 31; len = 32 }

-- one provider, whose key server has two keys
abbrev pub vaults : Keyrings
vaults = record {
  provider_by_id = λ id db. some vault;
  provider_by_name = λ name db. ok vault;
  get_key = λ keyring name. ok (some (if same_bytes name (112 ∷ []) then own else fresh));
}

-- the default keys: one of another name than the database's key, and one of the same name
abbrev pub default_key : PrincipalKey
default_key = new_principal_key default_data_tde_oid 1 fresh (0, 0)

abbrev pub shared_default : PrincipalKey
shared_default = new_principal_key default_data_tde_oid 1 own (0, 0)

abbrev pub header_of : PrincipalKey → TdeFileHeader
header_of k = record {
  file_version = smgr_file_magic;
  signed_key_info = signed_with toy_gcm k (zeros 16);
}

abbrev pub own_file : List TdeMapEntry → Option KeyFile
own_file es = some (keyed (header_of pk) (current es))

abbrev files : Option KeyFile → PrincipalKey → FilePath → Option KeyFile
files f d path =
    if path_eq path (keys 5)
    then f
    else if path_eq path (keys default_data_tde_oid)
    then some (keyed (header_of d) (current []))
    else none

-- the key file of the database 5, and the default key
abbrev pub restarted : Option KeyFile → PrincipalKey → Principals
restarted f d = record {
  dir = record { file = files f d; xlog = []; rand = rands };
  wal = record { keys = none; temporary = none; xlog = []; rand = [] };
  cache = [];
}

pub restarted-Holds :
    (es : List TdeMapEntry) (d : PrincipalKey)
    → Holds (restarted (own_file es) d).dir 5 (header_of pk) es
unfolding path_eq
restarted-Holds es d = record { stored = refl; version = refl }

pub own-IsServed : IsServed vaults 5 pk
unfolding same_bytes
own-IsServed = record {
  keyring = vault;
  found = refl;
  given = own;
  gives = refl;
  same_data = refl;
  same_length = refl;
}

pub fresh-IsServed : IsServed vaults 5 (new_principal_key 5 1 fresh (0, 0))
unfolding same_bytes
fresh-IsServed = record {
  keyring = vault;
  found = refl;
  given = fresh;
  gives = refl;
  same_data = refl;
  same_length = refl;
}

pub own-HasKey :
    (es : List TdeMapEntry) (d : PrincipalKey)
    → HasKey toy_gcm vaults 5 pk (restarted (own_file es) d)
unfolding cached_key key_info_of get_principal_key_info file_header_read path_eq
own-HasKey es d = in_file refl refl (zeros 16) refl own-IsServed

pub default-HasKey :
    (f : Option KeyFile)
    → HasKey toy_gcm vaults default_data_tde_oid default_key (restarted f default_key)
unfolding cached_key key_info_of get_principal_key_info file_header_read path_eq same_bytes
default-HasKey f = in_file refl refl (zeros 16) refl (record {
  keyring = vault;
  found = refl;
  given = fresh;
  gives = refl;
  same_data = refl;
  same_length = refl;
})

pub shared-HasKey :
    (f : Option KeyFile)
    → HasKey toy_gcm vaults default_data_tde_oid shared_default (restarted f shared_default)
unfolding cached_key key_info_of get_principal_key_info file_header_read path_eq same_bytes
shared-HasKey f = in_file refl refl (zeros 16) refl (record {
  keyring = vault;
  found = refl;
  given = own;
  gives = refl;
  same_data = refl;
  same_length = refl;
})

-- the key files name their databases
named_by :
    (k : PrincipalKey) (db : ℕ) (signed : SignedPrincipalKeyInfo)
    → k.key_info.database_id ≡ db
    → ok (some (signed_with toy_gcm k (zeros 16))) ≡ ok (some signed)
    → signed.info.database_id ≡ db
unfolding signed_with
named_by k db signed p h =
    let same : signed_with toy_gcm k (zeros 16) ≡ signed = cc h in
    sym (ap (λ x. x.info.database_id) same) ∙ p

pub restarted-AreNamed :
    (es : List TdeMapEntry) (d : PrincipalKey)
    → d.key_info.database_id ≡ default_data_tde_oid
    → AreNamed toy_gcm vaults (restarted (own_file es) d)
unfolding key_info_of get_principal_key_info file_header_read path_eq get_server_key_info
restarted-AreNamed es d p db signed h = elim (Bool-cases (db == global_data_tde_oid)) [
  | inl g ↦ let clash : ok none ≡ ok (some signed) = rw g at h in absurd (cc clash)
  | inr g ↦ elim (Bool-cases (db == 5)) [
    | inl a ↦
        let read : ok (some (signed_with toy_gcm pk (zeros 16))) ≡ ok (some signed) =
          rw (g, a) at h in
        named_by pk db signed (ground arith) read
    | inr a ↦ elim (Bool-cases (db == default_data_tde_oid)) [
      | inl b ↦
          let read : ok (some (signed_with toy_gcm d (zeros 16))) ≡ ok (some signed) =
            rw (g, a, b) at h in
          named_by d db signed (ground arith) read
      | inr b ↦ let clash : ok none ≡ ok (some signed) = rw (g, a, b) at h in absurd (cc clash)
    ]
  ]
]
