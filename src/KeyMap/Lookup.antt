-- ===== src/KeyMap/Lookup.antt =====
-- Reading the key file of a database.
use open_pg_tde.Base.{
  ℕ, suc, Bool, true, false, ◌&&◌, ◌||◌, Option, none, some, List, [], ◌∷◌, ◌==◌, if◌then◌else◌,
  Result, ok, err, principal_key_not_configured, wrong_file_version, Exec, pure, raise, lift, gets,
  ◌>>=◌, and_then,
}
use open_pg_tde.Block.{InternalKey}
use open_pg_tde.Keys.{Gcms, PrincipalKey, SignedPrincipalKeyInfo, is_some}
use open_pg_tde.KeyMap.Layout.{
  RelFileLocator, TdeFileHeader, TdeMapEntry, map_entry_type_key, keys, KeyDir, filemagic_type,
  smgr_file_magic,
}
use open_pg_tde.KeyMap.Entry.{decrypt_rel_key}
use open_pg_tde.KeyMap.File.{OpenFile, open_file_read, file_header_read}
use open_pg_tde.KeyMap.Save.{is_key_of}

-- the loop of open_pg_tde_find_map_entry
unfoldable pub first_key : RelFileLocator → List TdeMapEntry → Option TdeMapEntry
unfolding is_key_of
first_key rel [] = none
first_key rel (e ∷ es) = if is_key_of rel e then some e else first_key rel es

abbrev pub opened_entries : Option OpenFile → List TdeMapEntry
opened_entries none = []
opened_entries (some f) = f.entries

-- open_pg_tde_find_map_entry
unfoldable pub find_map_entry : RelFileLocator → Exec KeyDir (Option TdeMapEntry)
unfolding first_key open_file_read
find_map_entry rel = do
  f ← open_file_read (keys rel.db_oid) false
  pure (first_key rel (opened_entries f))

-- the loop of open_pg_tde_count_encryption_keys; the tablespace oid 0 stands for any
unfoldable pub count_keys : ℕ → List TdeMapEntry → ℕ
count_keys spc_oid [] = 0
count_keys spc_oid (e ∷ es) =
    let rest = count_keys spc_oid es in
    if e.type == map_entry_type_key && (spc_oid == 0 || e.spc_oid == spc_oid)
    then suc rest
    else rest

-- open_pg_tde_count_encryption_keys
unfoldable pub count_encryption_keys : ℕ → ℕ → Exec KeyDir ℕ
unfolding count_keys open_file_read
count_encryption_keys db_oid spc_oid = do
  f ← open_file_read (keys db_oid) true
  pure (count_keys spc_oid (opened_entries f))

-- open_pg_tde_has_smgr_key
unfoldable pub has_smgr_key : RelFileLocator → Exec KeyDir Bool
unfolding find_map_entry
has_smgr_key rel = do
  exists ← gets (λ s. is_some (s.file (keys rel.db_oid)))
  if exists then (do e ← find_map_entry rel; pure (is_some e)) else pure false

-- what open_pg_tde_get_smgr_key makes of the outcome of the search
abbrev pub key_of_entry :
    Gcms → Option PrincipalKey → Option TdeMapEntry → Result (Option InternalKey)
key_of_entry gcm pk none = ok none
key_of_entry gcm none (some e) = err principal_key_not_configured
key_of_entry gcm (some pk) (some e) = and_then (decrypt_rel_key gcm pk e) λ key. ok (some key)

-- open_pg_tde_get_smgr_key: none is NULL
unfoldable pub get_smgr_key :
    Gcms → Option PrincipalKey → RelFileLocator → Exec KeyDir (Option InternalKey)
unfolding find_map_entry
get_smgr_key gcm principal_key rel = do
  exists ← gets (λ s. is_some (s.file (keys rel.db_oid)))
  if exists
      then (do found ← find_map_entry rel; lift (key_of_entry gcm principal_key found))
      else pure none

-- the check of the file type in open_pg_tde_get_principal_key_info
abbrev pub right_type : Option TdeFileHeader → Bool
right_type none = true
right_type (some h) = filemagic_type h.file_version == filemagic_type smgr_file_magic

abbrev pub header_info : Option TdeFileHeader → Option SignedPrincipalKeyInfo
header_info none = none
header_info (some h) = some h.signed_key_info

-- open_pg_tde_get_principal_key_info: none is NULL
unfoldable pub get_principal_key_info : ℕ → Exec KeyDir (Option SignedPrincipalKeyInfo)
unfolding file_header_read
get_principal_key_info db_oid = do
  found ← gets (λ s. s.file (keys db_oid))
  elim found [
    | none ↦ pure none
    | some f ↦ do
      h ← lift (file_header_read f)
      if right_type h then pure (header_info h) else raise wrong_file_version
  ]
