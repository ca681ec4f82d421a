-- ===== src/KeyMap/Layout.antt =====
-- The on-disk structures of the key file of a database, in the current format and the older ones.
use open_pg_tde.Base.{
  ℕ, ◌/◌, ◌%◌, ◌^◌, Bool, false, Option, List, ◌++◌, ◌==◌, if◌then◌else◌, Bytes, le_bytes, zeros,
}
use open_pg_tde.Keys.{SignedPrincipalKeyInfo, Random, XlogRecord}

-- RelFileLocator
pub record RelFileLocator : Type 0 where
  pub spc_oid : ℕ
  pub db_oid : ℕ
  pub rel_number : ℕ

-- OPEN_PG_TDE_SMGR_FILE_MAGIC, "TDE" version 6
abbrev pub smgr_file_magic : ℕ
smgr_file_magic = 0x06454454

-- FILEMAGIC_VERSION: (FM & 0xF000000) >> 24
abbrev pub filemagic_version : ℕ → ℕ
filemagic_version fm = fm / 2 ^ 24 % 16

-- FILEMAGIC_TYPE: FM & 0x0FFFFFF
abbrev pub filemagic_type : ℕ → ℕ
filemagic_type fm = fm % 2 ^ 24

abbrev pub map_entry_type_empty : ℕ
map_entry_type_empty = 0

abbrev pub map_entry_type_key : ℕ
map_entry_type_key = 1

-- TDEFileHeader
pub record TdeFileHeader : Type 0 where
  pub file_version : ℕ
  pub signed_key_info : SignedPrincipalKeyInfo

-- TDEMapEntry; encrypted_key_data is the part of the 64-byte buffer that is in use
pub record TdeMapEntry : Type 0 where
  pub cipher : ℕ
  pub spc_oid : ℕ
  pub rel_number : ℕ
  pub type : ℕ
  pub key_base_iv : Bytes
  pub entry_iv : Bytes
  pub aead_tag : Bytes
  pub encrypted_key_data : Bytes

-- sizeof(TDEFileHeader) and sizeof(TDEMapEntry)
abbrev pub header_size : ℕ
header_size = 320

abbrev pub entry_size : ℕ
entry_size = 128

-- an entry of zero bytes, as memset or a designated initialiser makes it
abbrev pub empty_map_entry : TdeMapEntry
empty_map_entry = record {
  cipher = 0;
  spc_oid = 0;
  rel_number = 0;
  type = map_entry_type_empty;
  key_base_iv = zeros 16;
  entry_iv = zeros 16;
  aead_tag = zeros 16;
  encrypted_key_data = zeros 64;
}

-- the bytes before entry_iv, which GCM authenticates
abbrev pub entry_aad : TdeMapEntry → Bytes
entry_aad e =
    le_bytes 4 e.cipher
    ++ (le_bytes 4 e.spc_oid ++ (le_bytes 4 e.rel_number ++ (le_bytes 4 e.type ++ e.key_base_iv)))

-- TDEMapEntryV3: always a 16-byte key
pub record TdeMapEntryV3 : Type 0 where
  pub spc_oid : ℕ
  pub rel_number : ℕ
  pub type : ℕ
  pub unused1 : ℕ
  pub encrypted_key_data : Bytes
  pub key_base_iv : Bytes
  pub entry_iv : Bytes
  pub aead_tag : Bytes

abbrev pub entry_v3_aad : TdeMapEntryV3 → Bytes
entry_v3_aad e =
    le_bytes 4 e.spc_oid ++ (le_bytes 4 e.rel_number ++ (le_bytes 4 e.type ++ le_bytes 4 e.unused1))

-- TDEMapEntryV4 and TDEMapEntryV5, which differ in the size of the key buffer (32 and 64 bytes):
-- the base IV is not authenticated
pub record TdeMapEntryV4 : Type 0 where
  pub cipher : ℕ
  pub spc_oid : ℕ
  pub rel_number : ℕ
  pub type : ℕ
  pub entry_iv : Bytes
  pub aead_tag : Bytes
  pub key_base_iv : Bytes
  pub encrypted_key_data : Bytes

abbrev pub entry_v4_aad : TdeMapEntryV4 → Bytes
entry_v4_aad e =
    le_bytes 4 e.cipher ++ (le_bytes 4 e.spc_oid ++ (le_bytes 4 e.rel_number ++ le_bytes 4 e.type))

-- The bytes behind the header, by the layout in which they were written.
pub data Body : Type 0 where
  current : List TdeMapEntry → Body
  v3 : List TdeMapEntryV3 → Body
  v4 v5 : List TdeMapEntryV4 → Body

-- A file is empty, has fewer bytes than a header, or has a header.
pub data KeyFile : Type 0 where
  empty torn : KeyFile
  keyed : TdeFileHeader → Body → KeyFile

-- "<oid>_keys", and "<oid>_keys.r" while a file is rewritten
pub data FilePath : Type 0 where
  keys temporary : ℕ → FilePath

unfoldable pub path_eq : FilePath → FilePath → Bool
path_eq (keys a) (keys b) = a == b
path_eq (temporary a) (temporary b) = a == b
path_eq _ _ = false

-- The directory of key files, the WAL that was emitted, and the random source.
pub record KeyDir : Type 0 where
  pub file : FilePath → Option KeyFile
  pub xlog : List XlogRecord
  pub rand : Random

abbrev pub put_file : FilePath → Option KeyFile → KeyDir → KeyDir
put_file p f s = record s { file = λ q. if path_eq p q then f else s.file q }
