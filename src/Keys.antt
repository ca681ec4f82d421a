-- ===== src/Keys.antt =====
-- What the two kinds of key file share: principal keys and their signed form
-- (src/include/catalog/tde_principal_key.h, src/include/access/open_pg_tde_keys_common.h), AES-GCM
-- (AesGcmEncrypt and AesGcmDecrypt of src/encryption/enc_aes.c), random bytes and WAL records.
pub mod Signed
use open_pg_tde.Base.{
  ℕ, ◌+◌, ◌/◌, ◌%◌, ◌^◌, ◌≡◌, refl, Bool, true, false, Option, none, some, List, [], ◌∷◌, ◌++◌,
  ◌==◌, Bytes, length, take, le_bytes, Result, ok, err, and_then, no_random_bytes,
}
use open_pg_tde.Block.{InternalKey}
use open_pg_tde.Cipher.{cipher_key_length, by_key_len, TdeCipher}

-- GLOBAL_DATA_TDE_OID, the oid of the tablespace pg_global
abbrev pub global_data_tde_oid : ℕ
global_data_tde_oid = 1664

-- AES-GCM of OpenSSL at one key size: key, IV, additional data and text. Decryption checks the tag,
-- and gives back what was encrypted with the same key, IV and additional data.
pub record Gcm : Type 0 where
  pub seal : Bytes → Bytes → Bytes → Bytes → Bytes × Bytes
  pub unseal : Bytes → Bytes → Bytes → Bytes → Bytes → Option Bytes
  pub seal_length : (k iv aad x : Bytes) → length (seal k iv aad x).0 ≡ length x
  pub unseal-seal :
      (k iv aad x : Bytes) → unseal k iv aad (seal k iv aad x).0 (seal k iv aad x).1 ≡ some x

-- the two key sizes: true is AES-256-GCM
abbrev pub Gcms : Type 0
Gcms = Bool → Gcm

-- AesGcmEncrypt: the cipher text and the tag
unfoldable pub aes_gcm_encrypt : Gcms → Bytes → ℕ → Bytes → Bytes → Bytes → Bytes × Bytes
aes_gcm_encrypt gcm key key_len iv aad x = (gcm (key_len == 32)).seal (take key_len key) iv aad x

-- AesGcmDecrypt: none is the result false
unfoldable pub aes_gcm_decrypt : Gcms → Bytes → ℕ → Bytes → Bytes → Bytes → Bytes → Option Bytes
aes_gcm_decrypt gcm key key_len iv aad x tag =
    (gcm (key_len == 32)).unseal (take key_len key) iv aad x tag

-- TDEPrincipalKeyInfo; `creation_time` is a struct timeval, `name` has 256 bytes
pub record PrincipalKeyInfo : Type 0 where
  pub database_id : ℕ
  pub keyring_id : ℕ
  pub creation_time : ℕ × ℕ
  pub name : Bytes

-- the structure as the bytes that GCM authenticates
abbrev pub info_bytes : PrincipalKeyInfo → Bytes
info_bytes i =
    le_bytes 4 i.database_id
    ++ (le_bytes 4 i.keyring_id
        ++ (le_bytes 8 i.creation_time.0 ++ (le_bytes 8 i.creation_time.1 ++ i.name)))

-- TDEPrincipalKey
pub record PrincipalKey : Type 0 where
  pub key_info : PrincipalKeyInfo
  pub key_data : Bytes
  pub key_length : ℕ

-- TDESignedPrincipalKeyInfo
pub record SignedPrincipalKeyInfo : Type 0 where
  pub info : PrincipalKeyInfo
  pub sign_iv : Bytes
  pub aead_tag : Bytes

-- The outcomes of the coming calls of RAND_bytes, each one buffer; at the end of the list a call
-- fails.
abbrev pub Random : Type 0
Random = List Bytes

unfoldable pub rand_bytes : Random → Result (Bytes × Random)
rand_bytes [] = err no_random_bytes
rand_bytes (r ∷ rs) = ok (r, rs)

-- open_pg_tde_sign_principal_key_info, once RAND_bytes has given the IV
unfoldable pub signed_with : Gcms → PrincipalKey → Bytes → SignedPrincipalKeyInfo
signed_with gcm k iv = record {
  info = k.key_info;
  sign_iv = iv;
  aead_tag = (aes_gcm_encrypt gcm k.key_data k.key_length iv (info_bytes k.key_info) []).1;
}

-- open_pg_tde_sign_principal_key_info
unfoldable pub sign_principal_key_info :
    Gcms → PrincipalKey → Random → Result (SignedPrincipalKeyInfo × Random)
unfolding rand_bytes signed_with
sign_principal_key_info gcm k rand = and_then (rand_bytes rand) λ p. ok (signed_with gcm k p.0, p.1)

abbrev pub is_some {ℓ} : {A : Type ℓ} → Option A → Bool
is_some none = false
is_some (some a) = true

-- open_pg_tde_verify_principal_key_info, with the data and the length of a key of a keyring
unfoldable pub verify_principal_key_info : Gcms → SignedPrincipalKeyInfo → Bytes → ℕ → Bool
verify_principal_key_info gcm signed key_data len =
    is_some
      (aes_gcm_decrypt gcm key_data len signed.sign_iv (info_bytes signed.info) [] signed.aead_tag)

-- open_pg_tde_generate_internal_key: a key and a base IV from the random source
unfoldable pub generate_internal_key : ℕ → Random → Result (InternalKey × Random)
unfolding rand_bytes
generate_internal_key cipher rand = and_then (cipher_key_length cipher) λ key_len.
    and_then (rand_bytes rand) λ key.
      and_then (rand_bytes key.1)
        λ iv. ok (record { key_len = key_len; cipher = cipher; base_iv = iv.0; key = key.0 }, iv.1)

-- The WAL records of the resource manager that the key files' code emits.
pub data XlogRecord : Type 0 where
  add_principal_key : SignedPrincipalKeyInfo → XlogRecord
  rotate_principal_key : PrincipalKeyInfo → XlogRecord
  delete_principal_key : ℕ → XlogRecord
  create_relation_key delete_relation_key : ℕ → ℕ → ℕ → XlogRecord
