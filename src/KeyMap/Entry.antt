-- ===== src/KeyMap/Entry.antt =====
-- One entry of the key file: sealing a relation's key under the principal key and opening it.
use open_pg_tde.Base.{
  ℕ, ◌≡◌, ap, ◌∙◌, Option, none, some, [], arith, Bytes, length, take, take_all, Result, ok, err,
  and_then, decryption_failed,
}
use open_pg_tde.Block.{InternalKey}
use open_pg_tde.Cipher.{cipher_key_length}
use open_pg_tde.Keys.{Gcms, PrincipalKey, Random, rand_bytes, aes_gcm_encrypt, aes_gcm_decrypt}
use open_pg_tde.Keys.Signed.{aes_gcm_undo, length-aes_gcm_encrypt}
use open_pg_tde.KeyMap.Layout.{RelFileLocator, TdeMapEntry, map_entry_type_key, entry_aad}

-- the entry before its key is encrypted
abbrev pub blank_entry : RelFileLocator → InternalKey → Bytes → TdeMapEntry
blank_entry rel key iv = record {
  cipher = key.cipher;
  spc_oid = rel.spc_oid;
  rel_number = rel.rel_number;
  type = map_entry_type_key;
  key_base_iv = key.base_iv;
  entry_iv = iv;
  aead_tag = [];
  encrypted_key_data = [];
}

-- open_pg_tde_initialize_map_entry, once RAND_bytes has given the IV
unfoldable pub seal_entry : Gcms → PrincipalKey → RelFileLocator → InternalKey → Bytes → TdeMapEntry
seal_entry gcm pk rel key iv =
    let blank = blank_entry rel key iv in
    let sealed =
      aes_gcm_encrypt gcm pk.key_data pk.key_length iv (entry_aad blank)
        (take key.key_len key.key) in
    record blank { aead_tag = sealed.1; encrypted_key_data = sealed.0 }

-- open_pg_tde_initialize_map_entry
unfoldable pub initialize_map_entry :
    Gcms → PrincipalKey → RelFileLocator → InternalKey → Random → Result (TdeMapEntry × Random)
unfolding rand_bytes seal_entry
initialize_map_entry gcm pk rel key rand =
    and_then (rand_bytes rand) λ p. ok (seal_entry gcm pk rel key p.0, p.1)

-- the key in memory, if its entry could be decrypted
unfoldable pub opened_key : ℕ → TdeMapEntry → Option Bytes → Result InternalKey
opened_key key_len e none = err decryption_failed
opened_key key_len e (some key) =
    ok (record { key_len = key_len; cipher = e.cipher; base_iv = e.key_base_iv; key = key })

-- tde_decrypt_rel_key
unfoldable pub decrypt_rel_key : Gcms → PrincipalKey → TdeMapEntry → Result InternalKey
unfolding opened_key
decrypt_rel_key gcm pk e = and_then (cipher_key_length e.cipher) λ key_len. opened_key key_len e (
    aes_gcm_decrypt gcm pk.key_data pk.key_length e.entry_iv (entry_aad e)
      (take key_len e.encrypted_key_data) e.aead_tag)

-- A relation key as open_pg_tde_generate_internal_key makes it: a known cipher, its key length, and
-- that many bytes.
pub record IsKey (key : InternalKey) : Type 0 where
  pub known : cipher_key_length key.cipher ≡ ok key.key_len
  pub sized : length key.key ≡ key.key_len

pub decrypt_rel_key_lem :
    (gcm : Gcms) (pk : PrincipalKey) (e : TdeMapEntry) (key_len : ℕ) (key : Bytes)
    → cipher_key_length e.cipher ≡ ok key_len
    → aes_gcm_decrypt gcm pk.key_data pk.key_length e.entry_iv
        (entry_aad e)
        (take key_len e.encrypted_key_data)
        e.aead_tag
      ≡ some key
    → decrypt_rel_key gcm pk e
      ≡ ok (record { key_len = key_len; cipher = e.cipher; base_iv = e.key_base_iv; key = key })
unfolding decrypt_rel_key opened_key
decrypt_rel_key_lem gcm pk e key_len key p q =
    ap
      (λ c. and_then c λ n. opened_key n e (
        aes_gcm_decrypt gcm pk.key_data pk.key_length e.entry_iv (entry_aad e)
          (take n e.encrypted_key_data) e.aead_tag))
      p
    ∙ ap (opened_key key_len e) q

-- What is sealed under a principal key is opened with it: key, base IV and cipher come back.
pub decrypt_rel_key-seal_entry :
    (gcm : Gcms) (pk : PrincipalKey) (rel : RelFileLocator) (key : InternalKey) (iv : Bytes)
    → IsKey key
    → decrypt_rel_key gcm pk (seal_entry gcm pk rel key iv) ≡ ok key
unfolding seal_entry
decrypt_rel_key-seal_entry gcm pk rel key iv h =
    let x = take key.key_len key.key in
    let aad = entry_aad (blank_entry rel key iv) in
    let sealed = aes_gcm_encrypt gcm pk.key_data pk.key_length iv aad x in
    let whole : x ≡ key.key = take_all key.key_len key.key (omega arith) in
    let short : take key.key_len sealed.0 ≡ sealed.0 = take_all key.key_len sealed.0 (
      omega
        (arith, ap length whole, length-aes_gcm_encrypt gcm pk.key_data pk.key_length iv aad x)) in
    decrypt_rel_key_lem gcm pk (seal_entry gcm pk rel key iv) key.key_len key.key h.known (
      ap (λ c. aes_gcm_decrypt gcm pk.key_data pk.key_length iv aad c sealed.1) short
      ∙ aes_gcm_undo gcm pk.key_data pk.key_length iv aad x
      ∙ ap some whole)
