-- ===== src/KeyMap/Old.antt =====
-- Migrating the key files of older versions at server start.
use open_pg_tde.Base.{
  ℕ, ◌||◌, true, false, Option, none, some, List, [], ◌∷◌, ◌==◌, if◌then◌else◌, map, Bytes, take,
  Result, ok, err, decryption_failed, could_not_open, corrupted_file, unsupported_old_version,
  principal_key_not_configured, Exec, pure, raise, lift, gets, modify, ◌>>=◌, ◌>>◌, and_then,
}
use open_pg_tde.Block.{InternalKey}
use open_pg_tde.Cipher.{cipher_key_length, cipher_aes_128}
use open_pg_tde.Keys.{Gcms, PrincipalKey, aes_gcm_decrypt, sign_principal_key_info}
use open_pg_tde.KeyMap.Layout.{
  RelFileLocator, TdeFileHeader, TdeMapEntry, TdeMapEntryV3, TdeMapEntryV4, entry_v3_aad,
  entry_v4_aad, map_entry_type_empty, empty_map_entry, Body, v3, v4, v5, KeyFile, empty, torn,
  keyed, FilePath, keys, temporary, KeyDir, smgr_file_magic, filemagic_version,
}
use open_pg_tde.KeyMap.Entry.{initialize_map_entry}
use open_pg_tde.KeyMap.File.{with_random, open_file_write, write_one_map_entry}
use open_pg_tde.KeyMap.Rotate.{rename}

-- the key of an old entry, if its text could be decrypted
unfoldable pub old_key : ℕ → ℕ → Bytes → Option Bytes → Result InternalKey
old_key key_len cipher base_iv none = err decryption_failed
old_key key_len cipher base_iv (some key) =
    ok (record { key_len = key_len; cipher = cipher; base_iv = base_iv; key = key })

-- ikey_from_map_entry_v3: always a 16-byte key of AES-128
unfoldable pub ikey_from_map_entry_v3 : Gcms → PrincipalKey → TdeMapEntryV3 → Result InternalKey
unfolding old_key
ikey_from_map_entry_v3 gcm pk e = old_key 16 cipher_aes_128 e.key_base_iv (
    aes_gcm_decrypt gcm pk.key_data pk.key_length e.entry_iv (entry_v3_aad e)
      (take 16 e.encrypted_key_data) e.aead_tag)

-- ikey_from_map_entry_v4 and ikey_from_map_entry_v5
unfoldable pub ikey_from_map_entry_v4 : Gcms → PrincipalKey → TdeMapEntryV4 → Result InternalKey
unfolding old_key
ikey_from_map_entry_v4 gcm pk e = and_then (cipher_key_length e.cipher) λ key_len.
    old_key key_len e.cipher e.key_base_iv (
      aes_gcm_decrypt gcm pk.key_data pk.key_length e.entry_iv (entry_v4_aad e)
        (take key_len e.encrypted_key_data) e.aead_tag)

-- rloc of the functions below
abbrev pub old_locator : PrincipalKey → ℕ → ℕ → RelFileLocator
old_locator pk spc_oid rel_number = record {
  spc_oid = spc_oid;
  db_oid = pk.key_info.database_id;
  rel_number = rel_number;
}

-- map_from_disk_entry_v3, the entry having been read
unfoldable pub map_from_disk_entry_v3 :
    Gcms → PrincipalKey → TdeMapEntryV3 → Exec KeyDir TdeMapEntry
unfolding ikey_from_map_entry_v3 initialize_map_entry
map_from_disk_entry_v3 gcm pk e =
    if e.type == map_entry_type_empty then pure empty_map_entry else (do
      key ← lift (ikey_from_map_entry_v3 gcm pk e)
      with_random (initialize_map_entry gcm pk (old_locator pk e.spc_oid e.rel_number) key))

-- map_from_disk_entry_v4 and map_from_disk_entry_v5, the entry having been read
unfoldable pub map_from_disk_entry_v4 :
    Gcms → PrincipalKey → TdeMapEntryV4 → Exec KeyDir TdeMapEntry
unfolding ikey_from_map_entry_v4 initialize_map_entry
map_from_disk_entry_v4 gcm pk e =
    if e.type == map_entry_type_empty then pure empty_map_entry else (do
      key ← lift (ikey_from_map_entry_v4 gcm pk e)
      with_random (initialize_map_entry gcm pk (old_locator pk e.spc_oid e.rel_number) key))

abbrev pub v3_entries : Body → List TdeMapEntryV3
v3_entries (v3 es) = es
v3_entries _ = []

abbrev pub v4_entries : Body → List TdeMapEntryV4
v4_entries (v4 es) = es
v4_entries _ = []

abbrev pub v5_entries : Body → List TdeMapEntryV4
v5_entries (v5 es) = es
v5_entries _ = []

-- The choice of read_map_entry by the version of the file. The layout of the body is that of the
-- version, in whole entries: a file in which they disagree, from which no entries are read here, and
-- one that ends inside an entry, on which the readers raise an error, are not modelled.
unfoldable pub old_entries :
    Gcms → PrincipalKey → ℕ → Body → Result (List (Exec KeyDir TdeMapEntry))
unfolding map_from_disk_entry_v3 map_from_disk_entry_v4
old_entries gcm pk version body =
    if version == 3
    then ok (map (map_from_disk_entry_v3 gcm pk) (v3_entries body))
    else if version == 4
    then ok (map (map_from_disk_entry_v4 gcm pk) (v4_entries body))
    else if version == 5
    then ok (map (map_from_disk_entry_v4 gcm pk) (v5_entries body))
    else err unsupported_old_version

-- the loop over the entries of one file
unfoldable pub migrate_entries : FilePath → List (Exec KeyDir TdeMapEntry) → ℕ → Exec KeyDir Unit
unfolding write_one_map_entry
migrate_entries path [] pos = pure tt
migrate_entries path (read_map_entry ∷ rest) pos = do
  new_entry ← read_map_entry
  elim (new_entry.type == map_entry_type_empty) [
    | true ↦ migrate_entries path rest pos
    | false ↦ do next ← write_one_map_entry path new_entry pos; migrate_entries path rest next
  ]

-- the part of the loop body behind the choice of read_map_entry, up to the renaming
unfoldable pub rewrite_file :
    Gcms → PrincipalKey → ℕ → List (Exec KeyDir TdeMapEntry) → Exec KeyDir Unit
unfolding open_file_write migrate_entries
rewrite_file gcm pk db_oid entries = do
  signed ← with_random (sign_principal_key_info gcm pk)
  f ← open_file_write (temporary db_oid) (some signed) true
  migrate_entries (temporary db_oid) entries f.curr_pos

-- The versions that have a read_map_entry.
unfoldable pub supported_version : ℕ → Result (Unit {0})
supported_version version =
    if version == 3 || version == 4 || version == 5 then ok tt else err unsupported_old_version

-- what GetPrincipalKey returned, which is not NULL
abbrev pub required_key : Option PrincipalKey → Result PrincipalKey
required_key none = err principal_key_not_configured
required_key (some pk) = ok pk

-- the part of the loop body behind the version's test
unfoldable pub migrate_checked :
    Gcms → Option PrincipalKey → ℕ → TdeFileHeader → Body → Exec KeyDir Unit
unfolding rewrite_file old_entries
migrate_checked gcm principal_key db_oid h body = do
  pk ← lift (required_key principal_key)
  entries ← lift (old_entries gcm pk (filemagic_version h.file_version) body)
  rewrite_file gcm pk db_oid entries
  modify (rename (temporary db_oid) (keys db_oid))

-- the body of the loop of open_pg_tde_migrate_smgr_keys_file for a file with a header: the version is
-- tested before the principal key is asked for
unfoldable pub migrate_keyed :
    Gcms → Option PrincipalKey → ℕ → TdeFileHeader → Body → Exec KeyDir Unit
unfolding supported_version migrate_checked
migrate_keyed gcm principal_key db_oid h body =
    if h.file_version == smgr_file_magic then pure tt else (do
      lift (supported_version (filemagic_version h.file_version))
      migrate_checked gcm principal_key db_oid h body)

-- the body of the loop
unfoldable pub migrate_file : Gcms → Option PrincipalKey → ℕ → Option KeyFile → Exec KeyDir Unit
unfolding migrate_keyed
migrate_file gcm principal_key db_oid none = raise could_not_open
migrate_file gcm principal_key db_oid (some empty) = pure tt
migrate_file gcm principal_key db_oid (some torn) = raise corrupted_file
migrate_file gcm principal_key db_oid (some (keyed h body)) =
    migrate_keyed gcm principal_key db_oid h body

-- open_pg_tde_migrate_smgr_keys_file, with the databases whose key files readdir lists and the
-- answers of GetPrincipalKey
unfoldable pub migrate_smgr_keys_file : Gcms → (ℕ → Option PrincipalKey) → List ℕ → Exec KeyDir Unit
unfolding migrate_file
migrate_smgr_keys_file gcm principal_key [] = pure tt
migrate_smgr_keys_file gcm principal_key (db_oid ∷ rest) = do
  f ← gets (λ s. s.file (keys db_oid))
  migrate_file gcm (principal_key db_oid) db_oid f
  migrate_smgr_keys_file gcm principal_key rest
