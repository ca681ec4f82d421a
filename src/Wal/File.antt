-- ===== src/Wal/File.antt =====
-- The WAL key file with its header, in the current format and the two older ones, and the functions
-- of src/access/open_pg_tde_xlog_keys.c that work on it as a whole.
pub mod Server
pub mod Rewrite
pub mod Rewritten
pub mod Rotated
pub mod Migrated
pub mod Safe
pub mod Blocked
use open_pg_tde.Base.{
  ℕ, zero, suc, Bool, true, false, Option, none, some, List, [], ◌∷◌, ◌++◌, ◌==◌, if◌then◌else◌,
  Bytes, zeros, le_bytes, Result, ok, err, could_not_open, wrong_file_version, corrupted_file,
  and_then, Exec, pure, lift, gets, modify, ◌>>=◌, ◌>>◌,
}
use open_pg_tde.Keys.{SignedPrincipalKeyInfo, Random, XlogRecord}
use open_pg_tde.Wal.Range.{
  WalEncryptionRangeType, invalid, type_number, WalLocation, no_location, WalKeyFileEntry,
}

-- OPEN_PG_TDE_WAL_KEY_FILE_MAGIC, "WEK" version 3
abbrev pub wal_key_file_magic : ℕ
wal_key_file_magic = 0x034B4557

-- WalKeyFileHeader
pub record WalKeyFileHeader : Type 0 where
  pub file_version : ℕ
  pub signed_key_info : SignedPrincipalKeyInfo

-- WalKeyFileEntryV1: always a 16-byte key; the range type is not authenticated
pub record WalKeyFileEntryV1 : Type 0 where
  pub unused1 : ℕ
  pub unused2 : ℕ
  pub encrypted_key_data : Bytes
  pub key_base_iv : Bytes
  pub range_type : WalEncryptionRangeType
  pub range_start : WalLocation
  pub entry_iv : Bytes
  pub aead_tag : Bytes

-- WalKeyFileEntryV2: the base IV is not authenticated
pub record WalKeyFileEntryV2 : Type 0 where
  pub cipher : ℕ
  pub range_type : WalEncryptionRangeType
  pub range_start : WalLocation
  pub entry_iv : Bytes
  pub aead_tag : Bytes
  pub key_base_iv : Bytes
  pub encrypted_key_data : Bytes

-- the bytes before encrypted_key_data, and before range_start
abbrev pub wal_entry_v1_aad : WalKeyFileEntryV1 → Bytes
wal_entry_v1_aad e = le_bytes 4 e.unused1 ++ le_bytes 4 e.unused2

abbrev pub wal_entry_v2_aad : WalKeyFileEntryV2 → Bytes
wal_entry_v2_aad e = le_bytes 4 e.cipher ++ le_bytes 4 (type_number e.range_type)

-- The bytes behind the header, by the layout in which they were written.
pub data WalBody : Type 0 where
  current : List WalKeyFileEntry → WalBody
  v1 : List WalKeyFileEntryV1 → WalBody
  v2 : List WalKeyFileEntryV2 → WalBody

-- A file is empty, has fewer bytes than a header, or has a header.
pub data WalFile : Type 0 where
  empty torn : WalFile
  keyed : WalKeyFileHeader → WalBody → WalFile

-- The WAL key file, the temporary one beside it, the coming random bytes, and the WAL records written.
pub record WalDir : Type 0 where
  pub keys : Option WalFile
  pub temporary : Option WalFile
  pub rand : Random
  pub xlog : List XlogRecord

abbrev pub wal_dir_random : {A : Type 0} → (Random → Result (A × Random)) → Exec WalDir A
wal_dir_random f s = elim (f s.rand) [
  | err e ↦ (err e, s)
  | ok (a, rest) ↦ (ok a, record s { rand = rest })
]

-- The entries in the current format; a body of another layout has none.
abbrev pub body_entries : WalBody → List WalKeyFileEntry
body_entries (current es) = es
body_entries (v1 es) = []
body_entries (v2 es) = []

abbrev pub file_entries : WalFile → List WalKeyFileEntry
file_entries empty = []
file_entries torn = []
file_entries (keyed h b) = body_entries b

-- open_pg_tde_wal_key_file_header_read: none for an empty file
unfoldable pub wal_key_file_header_read : WalFile → Result (Option WalKeyFileHeader)
wal_key_file_header_read empty = ok none
wal_key_file_header_read torn = err corrupted_file
wal_key_file_header_read (keyed h b) = ok (some h)

-- the version check of both open functions
abbrev pub check_version : Option WalKeyFileHeader → Result (Option WalKeyFileHeader)
check_version none = ok none
check_version (some h) =
    if h.file_version == wal_key_file_magic then ok (some h) else err wrong_file_version

-- open_pg_tde_open_wal_key_file_read, with open_pg_tde_open_wal_key_file_basic: the entries that can be
-- read, and none for a missing file
unfoldable pub open_wal_key_file_read :
    Bool → Option WalFile → Result (Option (List WalKeyFileEntry))
unfolding wal_key_file_header_read
open_wal_key_file_read ignore_missing none = if ignore_missing then ok none else err could_not_open
open_wal_key_file_read ignore_missing (some f) =
    and_then (and_then (wal_key_file_header_read f) check_version) λ h. ok (some (file_entries f))

-- O_CREAT, and O_TRUNC where `truncate` is set
abbrev pub opened_file : Bool → Option WalFile → WalFile
opened_file true f = empty
opened_file false none = empty
opened_file false (some f) = f

-- open_pg_tde_wal_key_file_header_write: the file was empty, so the header is all of it
abbrev pub header_only : SignedPrincipalKeyInfo → WalFile
header_only signed =
    keyed (record { file_version = wal_key_file_magic; signed_key_info = signed }) (current [])

-- the file once it is open for writing: a header is put into an empty file
unfoldable pub opened_for_write :
    SignedPrincipalKeyInfo → WalFile → Option WalKeyFileHeader → WalFile
opened_for_write signed f none = header_only signed
opened_for_write signed f (some h) = f

-- open_pg_tde_open_wal_key_file_write with a signed key: the contents that the file has then
unfoldable pub open_wal_key_file_write :
    SignedPrincipalKeyInfo → Bool → Option WalFile → Result WalFile
unfolding wal_key_file_header_read opened_for_write
open_wal_key_file_write signed truncate found =
    let f = opened_file truncate found in
    and_then (and_then (wal_key_file_header_read f) check_version)
      λ h. ok (opened_for_write signed f h)

-- an entry of zero bytes
abbrev pub zero_entry : WalKeyFileEntry
zero_entry = record {
  cipher = 0;
  range_type = invalid;
  key_base_iv = zeros 16;
  range_start = no_location;
  entry_iv = zeros 16;
  aead_tag = zeros 16;
  encrypted_key_data = zeros 32;
}

-- a write of one entry at an index; a gap behind the end reads as zero bytes
unfoldable pub write_entry_at : ℕ → WalKeyFileEntry → List WalKeyFileEntry → List WalKeyFileEntry
write_entry_at zero e [] = e ∷ []
write_entry_at zero e (x ∷ xs) = e ∷ xs
write_entry_at (suc i) e [] = zero_entry ∷ write_entry_at i e []
write_entry_at (suc i) e (x ∷ xs) = x ∷ write_entry_at i e xs

abbrev pub put_entry : ℕ → WalKeyFileEntry → Option WalFile → Option WalFile
put_entry i e (some (keyed h (current es))) = some (keyed h (current (write_entry_at i e es)))
put_entry i e x = x
