-- ===== src/Cipher.antt =====
-- src/encryption/cipher_provider.c and the key sizes of src/encryption/enc_tde.c: the registry of
-- cipher suites and its three lookups. Function pointers are names of the functions they point at.
pub mod Lookup
use Prim.Native.String.{String}
use text.Mathlib.Text.{◌==◌ as str_eq}
use open_pg_tde.Base.{
  ℕ, ◌*◌, Bool, true, false, ◌&&◌, Option, none, some, List, [], ◌∷◌, ◌++◌, ◌==◌, if◌then◌else◌,
  Result, ok, err, unknown_cipher, no_keystream_cipher,
}

-- enum CipherType; the numbers are what the key files record
abbrev pub cipher_aes_128 : ℕ
cipher_aes_128 = 0

abbrev pub cipher_aes_256 : ℕ
cipher_aes_256 = 1

abbrev pub cipher_aes_128_xts : ℕ
cipher_aes_128_xts = 2

abbrev pub cipher_aes_256_xts : ℕ
cipher_aes_256_xts = 3

abbrev pub key_data_size_128 : ℕ
key_data_size_128 = 16

abbrev pub key_data_size_256 : ℕ
key_data_size_256 = 32

-- open_pg_tde_cipher_key_length
unfoldable pub cipher_key_length : ℕ → Result ℕ
cipher_key_length cipher =
    if cipher == cipher_aes_128
    then ok key_data_size_128
    else if cipher == cipher_aes_256
    then ok key_data_size_256
    else if cipher == cipher_aes_128_xts
    then ok key_data_size_256
    else if cipher == cipher_aes_256_xts
    then ok (2 * key_data_size_256)
    else err unknown_cipher

-- TdeBlockCryptFn: the pair AesEncrypt/AesDecrypt, or AesXtsEncrypt/AesXtsDecrypt
pub data BlockCrypt : Type 0 where
  aes_cbc aes_xts : BlockCrypt

-- TdeKeystreamFn: AesCtrEncryptedZeroBlocks
pub data Keystream : Type 0 where
  aes_ctr_encrypted_zero_blocks : Keystream

pub record TdeCipher : Type 0 where
  pub id : ℕ
  pub name : String
  pub key_len : ℕ
  pub block : BlockCrypt
  pub keystream : Option Keystream

-- the static variables of cipher_provider.c; `tde_cipher_count` is the length of the list
pub record Registry : Type 0 where
  pub ciphers : List TdeCipher
  pub initialized : Bool

abbrev pub empty_registry : Registry
empty_registry = record { ciphers = []; initialized = false }

unfoldable pub register_cipher :
    ℕ → String → ℕ → BlockCrypt → Option Keystream → Registry → Registry
register_cipher id name key_len block keystream r = record r {
  ciphers =
      r.ciphers
      ++ record { id = id; name = name; key_len = key_len; block = block; keystream = keystream }
        ∷ [];
}

unfoldable pub registry_init : Registry → Registry
unfolding register_cipher
registry_init r =
    if r.initialized
    then r
    else let r1 =
        register_cipher cipher_aes_128 "aes-128" 16 aes_cbc (some aes_ctr_encrypted_zero_blocks)
          r in
      let r2 =
        register_cipher cipher_aes_256 "aes-256" 32 aes_cbc (some aes_ctr_encrypted_zero_blocks)
          r1 in
      let r3 = register_cipher cipher_aes_128_xts "aes-128-xts" 32 aes_xts none r2 in
      let r4 = register_cipher cipher_aes_256_xts "aes-256-xts" 64 aes_xts none r3 in
      record r4 { initialized = true }

-- TdeCipherByName
unfoldable pub by_name : List TdeCipher → String → Option TdeCipher
by_name [] name = none
by_name (c ∷ cs) name = if str_eq c.name name then some c else by_name cs name

abbrev pub has_keystream : TdeCipher → Bool
has_keystream c = elim c.keystream [ none ↦ false | some _ ↦ true ]

-- TdeCipherByKeyLen: suites with no keystream are skipped
unfoldable pub by_key_len : List TdeCipher → ℕ → Result TdeCipher
by_key_len [] key_len = err no_keystream_cipher
by_key_len (c ∷ cs) key_len =
    if c.key_len == key_len && has_keystream c then ok c else by_key_len cs key_len

-- TdeCipherById
unfoldable pub by_id : List TdeCipher → ℕ → Result TdeCipher
by_id [] id = err unknown_cipher
by_id (c ∷ cs) id = if c.id == id then ok c else by_id cs id

-- what AesInit leaves registered
unfoldable pub builtin : List TdeCipher
unfolding registry_init
builtin = (registry_init empty_registry).ciphers
