-- ===== src/KeyMap/File.antt =====
-- Opening the key file, its header, and reading and writing entries at file offsets.
use open_pg_tde.Base.{
  ℕ, zero, suc, ◌+◌, ◌-◌, ◌/◌, Bool, true, false, Option, none, some, List, [], ◌∷◌, ◌==◌,
  if◌then◌else◌, Result, ok, err, could_not_open, wrong_file_version, corrupted_file, and_then,
  Exec, pure, lift, gets, modify, ◌>>=◌, ◌>>◌,
}
use open_pg_tde.Keys.{SignedPrincipalKeyInfo, Random}
use open_pg_tde.KeyMap.Layout.{
  TdeFileHeader, TdeMapEntry, Body, current, v3, v4, v5, KeyFile, empty, torn, keyed, KeyDir,
  FilePath, put_file, smgr_file_magic, header_size, entry_size, empty_map_entry,
}

-- a function of the random source as a step of the server
abbrev pub with_random : {A : Type 0} → (Random → Result (A × Random)) → Exec KeyDir A
with_random f s = elim (f s.rand) [
  | err e ↦ (err e, s)
  | ok (a, rest) ↦ (ok a, record s { rand = rest })
]

-- The entries in the current format; a body of another layout has none.
abbrev pub current_entries : Body → List TdeMapEntry
current_entries (current es) = es
current_entries (v3 _) = []
current_entries (v4 _) = []
current_entries (v5 _) = []

-- open_pg_tde_file_header_read: none for an empty file
unfoldable pub file_header_read : KeyFile → Result (Option TdeFileHeader)
file_header_read empty = ok none
file_header_read torn = err corrupted_file
file_header_read (keyed h _) = ok (some h)

abbrev pub entries_of : KeyFile → List TdeMapEntry
entries_of empty = []
entries_of torn = []
entries_of (keyed h b) = current_entries b

-- the version check of both open functions; `bytes_read > 0` is a header that was read
abbrev pub right_version : Option TdeFileHeader → Bool
right_version none = true
right_version (some h) = h.file_version == smgr_file_magic

abbrev pub versioned : Option TdeFileHeader → Result (Option TdeFileHeader)
versioned h = if right_version h then ok h else err wrong_file_version

-- What an open file offers to its reader: the entries, and the offset of the first.
pub record OpenFile : Type 0 where
  pub entries : List TdeMapEntry
  pub curr_pos : ℕ

abbrev pub bytes_read : Option TdeFileHeader → ℕ
bytes_read none = 0
bytes_read (some _) = header_size

unfoldable pub read_found : Bool → Option KeyFile → Result (Option OpenFile)
unfolding file_header_read
read_found ignore_missing none = if ignore_missing then ok none else err could_not_open
read_found ignore_missing (some f) =
    and_then (and_then (file_header_read f) versioned)
      λ h. ok (some (record { entries = entries_of f; curr_pos = bytes_read h }))

-- open_pg_tde_open_file_read, with open_pg_tde_open_file_basic; none is the negative descriptor of a
-- missing file
unfoldable pub open_file_read : FilePath → Bool → Exec KeyDir (Option OpenFile)
unfolding read_found
open_file_read path ignore_missing = do
  found ← gets (λ s. s.file path)
  lift (read_found ignore_missing found)

-- O_CREAT, and O_TRUNC where `truncate` is set
abbrev pub opened : Bool → Option KeyFile → KeyFile
opened true f = empty
opened false none = empty
opened false (some f) = f

-- open_pg_tde_file_header_write: the file was empty, so the header is all of it
unfoldable pub file_header_write : FilePath → SignedPrincipalKeyInfo → Exec KeyDir Unit
file_header_write path signed = modify (
    put_file path (
      some
        (keyed (record { file_version = smgr_file_magic; signed_key_info = signed }) (current []))))

-- the header is written to a file that has none, where the caller gives one
unfoldable pub start_file :
    FilePath
    → Option SignedPrincipalKeyInfo
    → List TdeMapEntry
    → Option TdeFileHeader
    → Exec KeyDir OpenFile
unfolding file_header_write
start_file path signed es (some h) = pure (record { entries = es; curr_pos = header_size })
start_file path none es none = pure (record { entries = es; curr_pos = 0 })
start_file path (some info) es none = do
  file_header_write path info
  pure (record { entries = es; curr_pos = header_size })

-- open_pg_tde_open_file_write
unfoldable pub open_file_write :
    FilePath → Option SignedPrincipalKeyInfo → Bool → Exec KeyDir OpenFile
unfolding file_header_read start_file
open_file_write path signed truncate = do
  f ← gets (λ s. opened truncate (s.file path))
  modify (put_file path (some f))
  h ← lift (and_then (file_header_read f) versioned)
  start_file path signed (entries_of f) h

-- pwrite of one entry at slot `i`; a gap behind the end reads as zero bytes
unfoldable pub write_at : ℕ → TdeMapEntry → List TdeMapEntry → List TdeMapEntry
write_at zero e [] = e ∷ []
write_at zero e (x ∷ xs) = e ∷ xs
write_at (suc i) e [] = empty_map_entry ∷ write_at i e []
write_at (suc i) e (x ∷ xs) = x ∷ write_at i e xs

-- the slot of a file offset behind the header
abbrev pub slot : ℕ → ℕ
slot offset = (offset - header_size) / entry_size

abbrev pub update_entries : (List TdeMapEntry → List TdeMapEntry) → Option KeyFile → Option KeyFile
update_entries f (some (keyed h (current es))) = some (keyed h (current (f es)))
update_entries f x = x

-- open_pg_tde_write_one_map_entry: the offset behind the entry is returned
unfoldable pub write_one_map_entry : FilePath → TdeMapEntry → ℕ → Exec KeyDir ℕ
unfolding write_at
write_one_map_entry path e offset = do
  modify (λ s. put_file path (update_entries (write_at (slot offset) e) (s.file path)) s)
  pure (offset + entry_size)
