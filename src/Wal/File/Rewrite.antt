-- ===== src/Wal/File/Rewrite.antt =====
-- Rewriting the WAL key file: rotation of the server's principal key, and migration of the two older
-- formats.
use open_pg_tde.Base.{
  ℕ, suc, Bool, true, false, Option, none, some, List, [], ◌∷◌, ◌==◌, if◌then◌else◌, Bytes, take,
  Result, ok, err, principal_key_not_configured, unsupported_old_version, decryption_failed,
  and_then, Exec, pure, raise, lift, gets, modify, ◌>>=◌, ◌>>◌,
}
use open_pg_tde.Cipher.{cipher_key_length, cipher_aes_128}
use open_pg_tde.Keys.{
  Gcms, PrincipalKey, rotate_principal_key, sign_principal_key_info, aes_gcm_decrypt,
  SignedPrincipalKeyInfo,
}
use open_pg_tde.KeyMap.Layout.{filemagic_version}
use open_pg_tde.Wal.Range.{
  WalEncryptionRangeType, WalLocation, WalEncryptionRange, WalKeyFileEntry, max_location,
  initialize_wal_key_file_entry, wal_range_from_entry,
}
use open_pg_tde.Wal.File.{
  WalKeyFileEntryV1, WalKeyFileEntryV2, wal_entry_v1_aad, wal_entry_v2_aad, WalBody, current, v1,
  v2, WalFile, empty, torn, keyed, WalDir, wal_dir_random, wal_key_file_magic,
  wal_key_file_header_read, open_wal_key_file_read, open_wal_key_file_write, put_entry,
}
use open_pg_tde.Wal.File.Server.{log_record}

-- the range of an old entry, if its key could be decrypted
unfoldable pub old_range :
    ℕ → ℕ → WalEncryptionRangeType → Bytes → WalLocation → Option Bytes → Result WalEncryptionRange
old_range key_len cipher type base_iv start none = err decryption_failed
old_range key_len cipher type base_iv start (some key) = ok (record {
  type = type;
  key = record { key_len = key_len; cipher = cipher; base_iv = base_iv; key = key };
  start = start;
  end_loc = max_location;
})

-- wal_range_from_entry_v1
unfoldable pub wal_range_from_entry_v1 :
    Gcms → PrincipalKey → WalKeyFileEntryV1 → Result WalEncryptionRange
unfolding old_range
wal_range_from_entry_v1 gcm pk e =
    old_range 16 cipher_aes_128 e.range_type e.key_base_iv e.range_start (
      aes_gcm_decrypt gcm pk.key_data pk.key_length e.entry_iv (wal_entry_v1_aad e)
        (take 16 e.encrypted_key_data) e.aead_tag)

-- wal_range_from_entry_v2
unfoldable pub wal_range_from_entry_v2 :
    Gcms → PrincipalKey → WalKeyFileEntryV2 → Result WalEncryptionRange
unfolding old_range
wal_range_from_entry_v2 gcm pk e = and_then (cipher_key_length e.cipher) λ key_len.
    old_range key_len e.cipher e.range_type e.key_base_iv e.range_start (
      aes_gcm_decrypt gcm pk.key_data pk.key_length e.entry_iv (wal_entry_v2_aad e)
        (take key_len e.encrypted_key_data) e.aead_tag)

-- The loop over the entries of a file, of open_pg_tde_perform_rotate_server_key and of
-- open_pg_tde_update_wal_keys_file: each entry is opened, sealed under a principal key, and written to
-- the temporary file at the index `pos`.
unfoldable pub rewrite_entries :
    {E : Type 0}
    → Gcms
    → PrincipalKey
    → (E → Result WalEncryptionRange)
    → List E
    → ℕ
    → Exec WalDir Unit
rewrite_entries gcm new_pk open_entry [] pos = pure tt
rewrite_entries gcm new_pk open_entry (e ∷ es) pos = do
  range ← lift (open_entry e)
  written ← wal_dir_random (initialize_wal_key_file_entry gcm new_pk range)
  modify (λ s. record s { temporary = put_entry pos written s.temporary })
  rewrite_entries gcm new_pk open_entry es (suc pos)

-- the temporary file, opened with O_TRUNC
unfoldable pub open_temporary : SignedPrincipalKeyInfo → Exec WalDir Unit
unfolding open_wal_key_file_write
open_temporary signed = do
  f ← lift (open_wal_key_file_write signed true none)
  modify (λ s. record s { temporary = some f })

-- durable_rename of the temporary file
abbrev pub replace_keys : WalDir → WalDir
replace_keys s = record s { keys = s.temporary; temporary = none }

abbrev pub opened_list : Option (List WalKeyFileEntry) → List WalKeyFileEntry
opened_list none = []
opened_list (some es) = es

-- open_pg_tde_perform_rotate_server_key up to the end of its loop
unfoldable pub write_rotated_server : Gcms → PrincipalKey → PrincipalKey → Exec WalDir Unit
unfolding rewrite_entries open_temporary open_wal_key_file_read
write_rotated_server gcm pk new_pk = do
  signed ← wal_dir_random (sign_principal_key_info gcm new_pk)
  found ← gets (λ s. s.keys)
  old ← lift (open_wal_key_file_read false found)
  open_temporary signed
  rewrite_entries gcm new_pk (wal_range_from_entry gcm pk) (opened_list old) 0

-- open_pg_tde_perform_rotate_server_key
unfoldable pub perform_rotate_server_key :
    Gcms → PrincipalKey → PrincipalKey → Bool → Exec WalDir Unit
unfolding write_rotated_server
perform_rotate_server_key gcm pk new_pk write_xlog = do
  write_rotated_server gcm pk new_pk
  modify replace_keys
  if write_xlog then modify (log_record (rotate_principal_key new_pk.key_info)) else pure tt

-- the entries of the two old formats behind a header, and none where the layout is another one
abbrev pub body_v1 : WalBody → List WalKeyFileEntryV1
body_v1 (v1 es) = es
body_v1 (v2 es) = []
body_v1 (current es) = []

abbrev pub body_v2 : WalBody → List WalKeyFileEntryV2
body_v2 (v2 es) = es
body_v2 (v1 es) = []
body_v2 (current es) = []

-- the loop, with the reader of the file's version
unfoldable pub migrate_body : Gcms → PrincipalKey → ℕ → WalBody → Exec WalDir Unit
unfolding rewrite_entries wal_range_from_entry_v1 wal_range_from_entry_v2
migrate_body gcm pk version body =
    if version == 1
    then rewrite_entries gcm pk (wal_range_from_entry_v1 gcm pk) (body_v1 body) 0
    else rewrite_entries gcm pk (wal_range_from_entry_v2 gcm pk) (body_v2 body) 0

-- open_pg_tde_update_wal_keys_file from the test for a principal key on
unfoldable pub migrate_old : Gcms → Option PrincipalKey → ℕ → WalBody → Exec WalDir Unit
unfolding migrate_body open_temporary
migrate_old gcm none version body = raise principal_key_not_configured
migrate_old gcm (some pk) version body = do
  signed ← wal_dir_random (sign_principal_key_info gcm pk)
  open_temporary signed
  migrate_body gcm pk version body
  modify replace_keys

-- open_pg_tde_update_wal_keys_file once the header is read: nothing is done for the current version
unfoldable pub migrate_versioned : Gcms → Option PrincipalKey → ℕ → WalBody → Exec WalDir Unit
unfolding migrate_old
migrate_versioned gcm principal_key file_version body =
    let version = filemagic_version file_version in
    let migrated = migrate_old gcm principal_key version body in
    if file_version == wal_key_file_magic
    then pure tt
    else if version == 1
    then migrated
    else if version == 2
    then migrated
    else raise unsupported_old_version

-- open_pg_tde_update_wal_keys_file. Reading the header of an empty file leaves the variable for it as
-- it was, so the code goes on with the version that the stack holds, `stale`.
unfoldable pub update_found : Gcms → Option PrincipalKey → ℕ → Option WalFile → Exec WalDir Unit
unfolding migrate_versioned
update_found gcm principal_key stale none = pure tt
update_found gcm principal_key stale (some torn) =
    lift (and_then (wal_key_file_header_read torn) λ h. ok tt)
update_found gcm principal_key stale (some empty) =
    migrate_versioned gcm principal_key stale (current [])
update_found gcm principal_key stale (some (keyed h body)) =
    migrate_versioned gcm principal_key h.file_version body

unfoldable pub update_wal_keys_file : Gcms → Option PrincipalKey → ℕ → Exec WalDir Unit
unfolding update_found
update_wal_keys_file gcm principal_key stale s = update_found gcm principal_key stale s.keys s
