-- ===== src/Examples/KeyFiles.antt =====
-- A key file with one key, on which the theorems on key files are applied.
use open_pg_tde.Base.{
  inr, ℕ, ◌≡◌, refl, true, false, Option, none, some, List, [], ◌∷◌, if◌then◌else◌, arith, Bytes,
  zeros, ok, err, no_random_bytes,
}
use open_pg_tde.Block.{InternalKey}
use open_pg_tde.Cipher.{cipher_key_length}
use open_pg_tde.Keys.{
  Gcms, PrincipalKey, PrincipalKeyInfo, signed_with, sign_principal_key_info, rand_bytes,
}
use open_pg_tde.KeyMap.Layout.{
  RelFileLocator, TdeFileHeader, TdeMapEntry, current, v4, KeyFile, keyed, KeyDir, FilePath, keys,
  temporary, path_eq, smgr_file_magic,
}
use open_pg_tde.KeyMap.Entry.{IsKey, seal_entry, decrypt_rel_key-seal_entry}
use open_pg_tde.KeyMap.Save.{save_smgr_key, free_key_map_entry}
use open_pg_tde.KeyMap.Lookup.{get_smgr_key, get_principal_key_info, count_keys}
use open_pg_tde.KeyMap.Rotate.{perform_rotate_key, write_rotated}
use open_pg_tde.KeyMap.Old.{migrate_file, migrate_keyed, old_entries, rewrite_file}
use open_pg_tde.KeyMap.Slots.{listed, Unique}
use open_pg_tde.KeyMap.Stored.{Holds}
use open_pg_tde.KeyMap.Saved.{sibling, same_numbers, get-save_smgr_key, save_smgr_key-Unique}
use open_pg_tde.KeyMap.Freed.{get-free_key_map_entry}
use open_pg_tde.KeyMap.Resealed.{Ready, no_entries, opens}
use open_pg_tde.KeyMap.Rotated.{get-perform_rotate_key}
use open_pg_tde.KeyMap.Keeps.{perform_rotate_key-err}
use open_pg_tde.KeyMap.MigrateSafe.{migrate_file-err}
use open_pg_tde.KeyMap.Existing.{get-save_smgr_key_existing}
use open_pg_tde.KeyMap.Created.{get_principal_key_info-save_principal_key}
use open_pg_tde.KeyMap.Lookup.{first_key, count_encryption_keys}
use open_pg_tde.KeyMap.Rotate.{save_principal_key}
use open_pg_tde.KeyMap.Save.{is_key_of, same_rel}
use open_pg_tde.Examples.Toy.{toy_gcm}

abbrev pub info : PrincipalKeyInfo
info = record { database_id = 5; keyring_id = 1; creation_time = (0, 0); name = 112 ∷ [] }

abbrev pub pk : PrincipalKey
pk = record { key_info = info; key_data = 9 ∷ zeros 15; key_length = 16 }

abbrev pub new_pk : PrincipalKey
new_pk = record { key_info = info; key_data = 77 ∷ zeros 31; key_length = 32 }

abbrev pub key : InternalKey
key = record { key_len = 16; cipher = 0; base_iv = zeros 16; key = 1 ∷ 2 ∷ 3 ∷ zeros 13 }

abbrev pub rel : RelFileLocator
rel = record { spc_oid = 1663; db_oid = 5; rel_number = 16384 }

abbrev second_rel : RelFileLocator
second_rel = record { spc_oid = 1663; db_oid = 5; rel_number = 16385 }

key-IsKey : IsKey key
unfolding cipher_key_length
key-IsKey = record { known = refl; sized = refl }

abbrev pub header : TdeFileHeader
header = record {
  file_version = smgr_file_magic;
  signed_key_info = record { info = info; sign_iv = zeros 16; aead_tag = [] };
}

abbrev pub stored : TdeMapEntry
stored = seal_entry toy_gcm pk rel key (zeros 16)

abbrev files : KeyFile → FilePath → Option KeyFile
files f path = if path_eq path (keys 5) then some f else none

abbrev pub state : List Bytes → KeyFile → KeyDir
state rand f = record { file = files f; xlog = []; rand = rand }

abbrev pub rands : List Bytes
rands = zeros 16 ∷ (8 ∷ zeros 15) ∷ (6 ∷ zeros 15) ∷ []

abbrev pub one_key : KeyDir
one_key = state rands (keyed header (current (stored ∷ [])))

pub one_key-Holds : Holds one_key 5 header (stored ∷ [])
unfolding path_eq
one_key-Holds = record { stored = refl; version = refl }

one_key-Unique : Unique (stored ∷ [])
unfolding listed
one_key-Unique other nonzero = ground arith

pub one_key-Ready : Ready toy_gcm pk (stored ∷ [])
unfolding seal_entry
one_key-Ready =
    opens key refl (decrypt_rel_key-seal_entry toy_gcm pk rel key (zeros 16) key-IsKey) key-IsKey
      no_entries

pub one_counted : count_keys 0 (stored ∷ []) ≡ 1
unfolding count_keys seal_entry
one_counted = refl

not_listed : listed second_rel (stored ∷ []) ≡ 0
unfolding listed seal_entry same_rel
not_listed = refl

get-save_smgr_key_example :
    let r = save_smgr_key toy_gcm (some pk) second_rel key false one_key in
    (r.0 ≡ ok tt)
    × ((get_smgr_key toy_gcm (some pk) second_rel r.1).0 ≡ ok (some key))
    × ((other : Option PrincipalKey) (spc num : ℕ)
        → same_numbers second_rel spc num ≡ false
        → (get_smgr_key toy_gcm other (sibling second_rel spc num) r.1).0
          ≡ (get_smgr_key toy_gcm other (sibling second_rel spc num) one_key).0)
get-save_smgr_key_example =
    get-save_smgr_key toy_gcm pk second_rel key false one_key header (stored ∷ []) (zeros 16)
      (8 ∷ zeros 15) ((6 ∷ zeros 15) ∷ []) one_key-Holds refl key-IsKey (inr not_listed)

save_smgr_key-Unique_example :
    (fs : List TdeMapEntry) × Holds
      (save_smgr_key toy_gcm (some pk) second_rel key true one_key).1
      5
      header
      fs
    × Unique fs
save_smgr_key-Unique_example =
    save_smgr_key-Unique toy_gcm pk second_rel key true one_key header (stored ∷ []) (zeros 16)
      (8 ∷ zeros 15) ((6 ∷ zeros 15) ∷ []) one_key-Holds refl one_key-Unique

get-free_key_map_entry_example :
    let r = free_key_map_entry rel one_key in
    (r.0 ≡ ok tt)
    × ((gcm : Gcms) (p : Option PrincipalKey)
        → ((get_smgr_key gcm p rel r.1).0 ≡ ok none)
          × ((spc num : ℕ)
              → same_numbers rel spc num ≡ false
              → (get_smgr_key gcm p (sibling rel spc num) r.1).0
                ≡ (get_smgr_key gcm p (sibling rel spc num) one_key).0))
get-free_key_map_entry_example =
    get-free_key_map_entry rel one_key header (stored ∷ []) one_key-Holds one_key-Unique
      (omega arith)

get-perform_rotate_key_example :
    let r = perform_rotate_key toy_gcm pk new_pk true one_key in
    (r.0 ≡ ok tt)
    × ((spc num : ℕ)
        → let a : RelFileLocator = record { spc_oid = spc; db_oid = 5; rel_number = num } in
          (get_smgr_key toy_gcm (some new_pk) a r.1).0
          ≡ (get_smgr_key toy_gcm (some pk) a one_key).0)
    × ((get_principal_key_info 5 r.1).0 ≡ ok (some (signed_with toy_gcm new_pk (zeros 16))))
    × (r.1.file (temporary 5) ≡ none)
get-perform_rotate_key_example =
    get-perform_rotate_key toy_gcm pk new_pk true one_key header (stored ∷ []) (zeros 16)
      ((8 ∷ zeros 15) ∷ (6 ∷ zeros 15) ∷ []) one_key-Holds one_key-Ready refl
      (omega (arith, one_counted))

abbrev no_random : KeyDir
no_random = state [] (keyed header (current (stored ∷ [])))

rotation_fails : (perform_rotate_key toy_gcm pk new_pk true no_random).0 ≡ err no_random_bytes
unfolding perform_rotate_key write_rotated sign_principal_key_info rand_bytes
rotation_fails = refl

perform_rotate_key-err_example :
    (perform_rotate_key toy_gcm pk new_pk true no_random).1.file (keys 5) ≡ no_random.file (keys 5)
perform_rotate_key-err_example =
    perform_rotate_key-err toy_gcm pk new_pk true no_random no_random_bytes rotation_fails 5

abbrev old_file : KeyFile
old_file =
    keyed (record { file_version = 0x04454454; signed_key_info = header.signed_key_info }) (v4 [])

migration_fails :
    (migrate_file toy_gcm (some pk) 5 (some old_file) (state [] old_file)).0 ≡ err no_random_bytes
unfolding migrate_file migrate_keyed old_entries rewrite_file sign_principal_key_info rand_bytes
migration_fails = refl

migrate_file-err_example :
    (migrate_file toy_gcm (some pk) 5 (some old_file) (state [] old_file)).1.file (keys 5)
    ≡ (state [] old_file).file (keys 5)
migrate_file-err_example =
    migrate_file-err toy_gcm (some pk) 5 (some old_file) (state [] old_file) no_random_bytes
      migration_fails 5

found_key : first_key rel (stored ∷ []) ≡ some stored
unfolding first_key is_key_of same_rel seal_entry
found_key = refl

get-save_smgr_key_existing_example :
    let r = save_smgr_key toy_gcm (some pk) rel key false one_key in
    (r.0 ≡ ok tt)
    × ((other : Option PrincipalKey) (spc num : ℕ)
        → let x : RelFileLocator = record { spc_oid = spc; db_oid = 5; rel_number = num } in
          (get_smgr_key toy_gcm other x r.1).0 ≡ (get_smgr_key toy_gcm other x one_key).0)
get-save_smgr_key_existing_example =
    get-save_smgr_key_existing toy_gcm pk rel key stored one_key header (stored ∷ []) (zeros 16)
      ((8 ∷ zeros 15) ∷ (6 ∷ zeros 15) ∷ []) one_key-Holds refl found_key

get_principal_key_info-save_principal_key_example :
    let r = save_principal_key toy_gcm new_pk true one_key in
    (r.0 ≡ ok tt)
    × ((get_principal_key_info 5 r.1).0 ≡ ok (some (signed_with toy_gcm new_pk (zeros 16))))
    × ((count_encryption_keys 5 0 r.1).0 ≡ ok 0)
    × ((q : FilePath) → path_eq (keys 5) q ≡ false → r.1.file q ≡ one_key.file q)
get_principal_key_info-save_principal_key_example =
    get_principal_key_info-save_principal_key toy_gcm new_pk true one_key (zeros 16)
      ((8 ∷ zeros 15) ∷ (6 ∷ zeros 15) ∷ []) refl
