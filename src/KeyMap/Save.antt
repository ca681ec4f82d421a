-- ===== src/KeyMap/Save.antt =====
-- Saving a relation's key and freeing its entry. The argument `principal_key` is what
-- GetPrincipalKey returns in the call.
use open_pg_tde.Base.{
  ℕ, ◌+◌, Bool, true, false, ◌&&◌, ◌||◌, Option, none, some, List, [], ◌∷◌, ◌==◌, if◌then◌else◌,
  principal_key_not_configured, not, Exec, pure, raise, ◌>>=◌,
}
use open_pg_tde.Block.{InternalKey}
use open_pg_tde.Keys.{Gcms, PrincipalKey, sign_principal_key_info}
use open_pg_tde.KeyMap.Layout.{
  RelFileLocator, TdeMapEntry, map_entry_type_empty, map_entry_type_key, empty_map_entry, FilePath,
  keys, KeyDir, entry_size,
}
use open_pg_tde.KeyMap.Entry.{initialize_map_entry}
use open_pg_tde.KeyMap.File.{with_random, OpenFile, open_file_write, write_one_map_entry}

-- entry.spcOid == rel.spcOid && entry.relNumber == rel.relNumber
unfoldable pub same_rel : RelFileLocator → TdeMapEntry → Bool
same_rel rel e = e.spc_oid == rel.spc_oid && e.rel_number == rel.rel_number

-- the same for an entry that is in use
unfoldable pub is_key_of : RelFileLocator → TdeMapEntry → Bool
unfolding same_rel
is_key_of rel e = e.type == map_entry_type_key && same_rel rel e

-- the first free entry found so far; the offset 0 stands for "none yet"
unfoldable pub next_free : TdeMapEntry → ℕ → ℕ → ℕ
next_free e entry_offset write_offset =
    if write_offset == 0 && e.type == map_entry_type_empty then entry_offset else write_offset

-- The loop of open_pg_tde_save_smgr_key: entry_already_exists and write_offset after it.
unfoldable pub scan : RelFileLocator → List TdeMapEntry → ℕ → ℕ → Bool × ℕ
unfolding next_free
scan rel [] entry_offset write_offset =
    (false, if write_offset == 0 then entry_offset else write_offset)
scan rel (e ∷ es) entry_offset write_offset =
    let rest = scan rel es (entry_offset + entry_size) (next_free e entry_offset write_offset) in
    if same_rel rel e then (true, entry_offset) else rest

-- open_pg_tde_save_smgr_key behind the call that opens the file
unfoldable pub store_key :
    Gcms → PrincipalKey → RelFileLocator → InternalKey → Bool → OpenFile → Exec KeyDir Unit
unfolding scan write_one_map_entry
store_key gcm pk rel key replace_existing f =
    let found = scan rel f.entries f.curr_pos 0 in
    if not found.0 || replace_existing
    then (do
      entry ← with_random (initialize_map_entry gcm pk rel key)
      written ← write_one_map_entry (keys rel.db_oid) entry found.1
      pure tt)
    else pure tt

-- open_pg_tde_save_smgr_key
unfoldable pub save_smgr_key :
    Gcms → Option PrincipalKey → RelFileLocator → InternalKey → Bool → Exec KeyDir Unit
unfolding open_file_write store_key
save_smgr_key gcm none rel key replace_existing = raise principal_key_not_configured
save_smgr_key gcm (some pk) rel key replace_existing = do
  signed ← with_random (sign_principal_key_info gcm pk)
  f ← open_file_write (keys rel.db_oid) (some signed) false
  store_key gcm pk rel key replace_existing f

-- The loop of open_pg_tde_free_key_map_entry: the offset of the first entry in use for the relation.
unfoldable pub key_offset : RelFileLocator → List TdeMapEntry → ℕ → Option ℕ
unfolding is_key_of
key_offset rel [] curr_pos = none
key_offset rel (e ∷ es) curr_pos =
    let rest = key_offset rel es (curr_pos + entry_size) in
    if is_key_of rel e then some curr_pos else rest

-- the write that clears the entry, if one was found
unfoldable pub free_at : FilePath → Option ℕ → Exec KeyDir Unit
unfolding write_one_map_entry
free_at path none = pure tt
free_at path (some prev_pos) = do
  written ← write_one_map_entry path empty_map_entry prev_pos
  pure tt

-- open_pg_tde_free_key_map_entry
unfoldable pub free_key_map_entry : RelFileLocator → Exec KeyDir Unit
unfolding key_offset open_file_write free_at
free_key_map_entry rel = do
  f ← open_file_write (keys rel.db_oid) none false
  free_at (keys rel.db_oid) (key_offset rel f.entries f.curr_pos)
