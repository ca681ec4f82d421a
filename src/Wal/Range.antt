-- ===== src/Wal/Range.antt =====
-- Ranges of the WAL and the entries of the WAL key file that hold their keys.
use open_pg_tde.Base.{
  ℕ, ◌-◌, ◌^◌, Bool, true, false, ◌&&◌, not, Option, none, some, [], ◌++◌, ◌==◌, ltb, if◌then◌else◌,
  Bytes, le_bytes, take, Result, ok, err, decryption_failed, wal_key_too_long, and_then,
}
use open_pg_tde.Block.{InternalKey}
use open_pg_tde.Cipher.{cipher_key_length}
use open_pg_tde.Keys.{Gcms, PrincipalKey, Random, rand_bytes, aes_gcm_encrypt, aes_gcm_decrypt}

-- WalEncryptionRangeType
pub data WalEncryptionRangeType : Type 0 where
  invalid unencrypted encrypted : WalEncryptionRangeType

abbrev pub type_number : WalEncryptionRangeType → ℕ
type_number invalid = 0
type_number unencrypted = 1
type_number encrypted = 2

abbrev pub is_invalid : WalEncryptionRangeType → Bool
is_invalid invalid = true
is_invalid unencrypted = false
is_invalid encrypted = false

-- WalLocation
pub record WalLocation : Type 0 where
  pub lsn : ℕ
  pub tli : ℕ

-- the results -1, 0 and 1 of wal_location_cmp
pub data Comparison : Type 0 where
  before same after : Comparison

-- wal_location_cmp
unfoldable pub wal_location_cmp : WalLocation → WalLocation → Comparison
wal_location_cmp a b =
    if ltb a.tli b.tli
    then before
    else if ltb b.tli a.tli
    then after
    else if ltb a.lsn b.lsn
    then before
    else if ltb b.lsn a.lsn
    then after
    else same

abbrev pub is_before : Comparison → Bool
is_before before = true
is_before same = false
is_before after = false

-- wal_location_valid
unfoldable pub wal_location_valid : WalLocation → Bool
wal_location_valid loc = not (loc.tli == 0) && not (loc.lsn == 0)

-- { InvalidXLogRecPtr, 0 } and { MaxXLogRecPtr, MaxTimeLineID }
abbrev pub no_location : WalLocation
no_location = record { lsn = 0; tli = 0 }

abbrev pub max_location : WalLocation
max_location = record { lsn = 2 ^ 64 - 1; tli = 2 ^ 32 - 1 }

-- WalEncryptionRange
pub record WalEncryptionRange : Type 0 where
  pub type : WalEncryptionRangeType
  pub key : InternalKey
  pub start : WalLocation
  pub end_loc : WalLocation

-- WalKeyFileEntry
pub record WalKeyFileEntry : Type 0 where
  pub cipher : ℕ
  pub range_type : WalEncryptionRangeType
  pub key_base_iv : Bytes
  pub range_start : WalLocation
  pub entry_iv : Bytes
  pub aead_tag : Bytes
  pub encrypted_key_data : Bytes

-- the bytes before range_start, which GCM authenticates
abbrev pub wal_entry_aad : WalKeyFileEntry → Bytes
wal_entry_aad e = le_bytes 4 e.cipher ++ (le_bytes 4 (type_number e.range_type) ++ e.key_base_iv)

-- open_pg_tde_initialize_wal_key_file_entry, once RAND_bytes has given the IV
unfoldable pub seal_wal_entry : Gcms → PrincipalKey → WalEncryptionRange → Bytes → WalKeyFileEntry
seal_wal_entry gcm pk range iv =
    let blank : WalKeyFileEntry = record {
      cipher = range.key.cipher;
      range_type = range.type;
      key_base_iv = range.key.base_iv;
      range_start = range.start;
      entry_iv = iv;
      aead_tag = [];
      encrypted_key_data = [];
    } in
    let sealed =
      aes_gcm_encrypt gcm pk.key_data pk.key_length iv (wal_entry_aad blank)
        (take range.key.key_len range.key.key) in
    record blank { aead_tag = sealed.1; encrypted_key_data = sealed.0 }

-- open_pg_tde_initialize_wal_key_file_entry
unfoldable pub initialize_wal_key_file_entry :
    Gcms → PrincipalKey → WalEncryptionRange → Random → Result (WalKeyFileEntry × Random)
unfolding rand_bytes seal_wal_entry
initialize_wal_key_file_entry gcm pk range rand =
    if ltb 32 range.key.key_len
    then err wal_key_too_long
    else and_then (rand_bytes rand) λ p. ok (seal_wal_entry gcm pk range p.0, p.1)

-- the range of an entry, if its key could be decrypted
unfoldable pub opened_range : ℕ → WalKeyFileEntry → Option Bytes → Result WalEncryptionRange
opened_range key_len e none = err decryption_failed
opened_range key_len e (some key) = ok (record {
  type = e.range_type;
  key = record { key_len = key_len; cipher = e.cipher; base_iv = e.key_base_iv; key = key };
  start = e.range_start;
  end_loc = max_location;
})

-- open_pg_tde_wal_range_from_entry
unfoldable pub wal_range_from_entry :
    Gcms → PrincipalKey → WalKeyFileEntry → Result WalEncryptionRange
unfolding opened_range
wal_range_from_entry gcm pk e = and_then (cipher_key_length e.cipher) λ key_len.
    opened_range key_len e (
      aes_gcm_decrypt gcm pk.key_data pk.key_length e.entry_iv (wal_entry_aad e)
        (take key_len e.encrypted_key_data) e.aead_tag)
