-- ===== src/Wal/File/Server.antt =====
-- The server's principal key in the WAL key file: saving it, reading its description, and removing it.
use open_pg_tde.Base.{
  ℕ, Bool, true, false, Option, none, some, List, [], ◌∷◌, ◌++◌, ◌==◌, if◌then◌else◌, length,
  Result, ok, err, could_not_open, wrong_file_version, and_then, Exec, pure, raise, lift, gets,
  modify, ◌>>=◌, ◌>>◌,
}
use open_pg_tde.Keys.{
  Gcms, PrincipalKey, SignedPrincipalKeyInfo, add_principal_key, delete_principal_key,
  sign_principal_key_info, global_data_tde_oid, XlogRecord,
}
use open_pg_tde.KeyMap.Layout.{filemagic_type}
use open_pg_tde.Wal.Range.{WalKeyFileEntry}
use open_pg_tde.Wal.File.{
  WalKeyFileHeader, WalFile, WalDir, wal_dir_random, wal_key_file_magic, wal_key_file_header_read,
  open_wal_key_file_read, opened_file, open_wal_key_file_write,
}

abbrev pub log_record : XlogRecord → WalDir → WalDir
log_record r s = record s { xlog = s.xlog ++ r ∷ [] }

-- The file is opened, and so made or cut, before its header is read.
unfoldable pub open_keys_write : SignedPrincipalKeyInfo → Bool → Exec WalDir Unit
unfolding open_wal_key_file_write
open_keys_write signed truncate = do
  found ← gets (λ s. s.keys)
  modify (λ s. record s { keys = some (opened_file truncate s.keys) })
  f ← lift (open_wal_key_file_write signed truncate found)
  modify (λ s. record s { keys = some f })

-- open_pg_tde_save_server_key_redo
unfoldable pub save_server_key_redo : SignedPrincipalKeyInfo → Exec WalDir Unit
unfolding open_keys_write
save_server_key_redo signed = open_keys_write signed false

-- open_pg_tde_save_server_key
unfoldable pub save_server_key : Gcms → PrincipalKey → Bool → Exec WalDir Unit
unfolding open_keys_write
save_server_key gcm pk write_xlog = do
  signed ← wal_dir_random (sign_principal_key_info gcm pk)
  if write_xlog then modify (log_record (add_principal_key signed)) else pure tt
  open_keys_write signed true

-- the type check of open_pg_tde_get_server_key_info, which leaves the version open
abbrev pub info_of_header : Option WalKeyFileHeader → Result (Option SignedPrincipalKeyInfo)
info_of_header none = ok none
info_of_header (some h) =
    if filemagic_type h.file_version == filemagic_type wal_key_file_magic
    then ok (some h.signed_key_info)
    else err wrong_file_version

-- open_pg_tde_get_server_key_info
unfoldable pub get_server_key_info : Option WalFile → Result (Option SignedPrincipalKeyInfo)
unfolding wal_key_file_header_read
get_server_key_info none = ok none
get_server_key_info (some f) = and_then (wal_key_file_header_read f) info_of_header

abbrev pub count_opened : Option (List WalKeyFileEntry) → ℕ
count_opened none = 0
count_opened (some es) = length es

-- open_pg_tde_count_wal_ranges_in_file
unfoldable pub count_wal_ranges_in_file : Option WalFile → Result ℕ
unfolding open_wal_key_file_read
count_wal_ranges_in_file f = and_then (open_wal_key_file_read true f) λ es. ok (count_opened es)

-- open_pg_tde_delete_server_key; durable_unlink raises an error on a missing file
unfoldable pub unlink_keys : Option WalFile → Exec WalDir Unit
unlink_keys none = raise could_not_open
unlink_keys (some f) = modify (λ s. record s { keys = none })

unfoldable pub delete_server_key : Exec WalDir Unit
unfolding unlink_keys
delete_server_key = do
  modify (log_record (delete_principal_key global_data_tde_oid))
  found ← gets (λ s. s.keys)
  unlink_keys found
