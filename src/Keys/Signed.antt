-- ===== src/Keys/Signed.antt =====
-- Signing a principal key's description and verifying it.
use open_pg_tde.Base.{ℕ, ◌≡◌, refl, ap, true, some, [], ◌∷◌, arith, Bytes, ok, length}
use open_pg_tde.Keys.{
  Gcms, PrincipalKey, SignedPrincipalKeyInfo, Random, info_bytes, is_some, aes_gcm_encrypt,
  aes_gcm_decrypt, sign_principal_key_info, signed_with, verify_principal_key_info,
}

pub length-aes_gcm_encrypt :
    (gcm : Gcms) (key : Bytes) (key_len : ℕ) (iv aad x : Bytes)
    → length (aes_gcm_encrypt gcm key key_len iv aad x).0 ≡ length x
unfolding aes_gcm_encrypt
length-aes_gcm_encrypt gcm key key_len iv aad x = (gcm _).seal_length _ iv aad x

nil_of_length : (xs : Bytes) → length xs ≡ 0 → xs ≡ []
nil_of_length [] h = refl
nil_of_length (x ∷ xs) h = absurd (omega arith)

pub aes_gcm_undo :
    (gcm : Gcms) (key : Bytes) (key_len : ℕ) (iv aad x : Bytes)
    → let sealed = aes_gcm_encrypt gcm key key_len iv aad x in
      aes_gcm_decrypt gcm key key_len iv aad sealed.0 sealed.1 ≡ some x
unfolding aes_gcm_encrypt aes_gcm_decrypt
aes_gcm_undo gcm key key_len iv aad x = (gcm _).unseal-seal _ iv aad x

-- With random bytes at hand, signing succeeds, uses one buffer, keeps the description as it is, and
-- the signature is accepted when it is verified with the same key.
pub verify-sign_principal_key_info :
    (gcm : Gcms) (k : PrincipalKey) (iv : Bytes) (rand : Random)
    → (signed : SignedPrincipalKeyInfo) × (sign_principal_key_info gcm k (iv ∷ rand)
        ≡ ok (signed, rand))
      × (signed.info ≡ k.key_info)
      × (verify_principal_key_info gcm signed k.key_data k.key_length ≡ true)
unfolding sign_principal_key_info signed_with verify_principal_key_info
verify-sign_principal_key_info gcm k iv rand =
    let sealed = aes_gcm_encrypt gcm k.key_data k.key_length iv (info_bytes k.key_info) [] in
    let nothing : sealed.0 ≡ [] =
      nil_of_length sealed.0 (unfold aes_gcm_encrypt in (gcm _).seal_length _ iv _ []) in
    let undo = aes_gcm_undo gcm k.key_data k.key_length iv (info_bytes k.key_info) [] in
    (
      record { info = k.key_info; sign_iv = iv; aead_tag = sealed.1 },
      refl,
      refl,
      ap is_some (rw nothing at undo),
    )
