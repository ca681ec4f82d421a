-- ===== src/Stream/Laws.antt =====
-- What callers of the stream cipher rely on.
use open_pg_tde.Base.{ℕ, ◌+◌, ◌^◌, ◌<◌, ◌≡◌, ap, ◌∙◌, ◌⊎◌, arith, Bytes, length, ok}
use open_pg_tde.Cipher.{by_key_len, builtin, registry_init}
use open_pg_tde.Stream.{AesBlock, crypt_blocks, stream_crypt}
use open_pg_tde.Stream.Keystream.{crypt_at}
use open_pg_tde.Stream.Batches.{crypt_blocks-eq-crypt_at}

-- the key lengths of the WAL: 16 and 32 bytes
pub stream_crypt-builtin :
    (aes : AesBlock) (iv_prefix : Bytes) (start : ℕ) (plain key : Bytes) (key_len : ℕ)
    → (key_len ≡ 16) ⊎ (key_len ≡ 32)
    → stream_crypt aes builtin iv_prefix start plain key key_len
      ≡ ok (crypt_blocks aes key iv_prefix start plain)
unfolding stream_crypt by_key_len builtin registry_init
stream_crypt-builtin aes iv_prefix start plain key key_len h = ground arith

module _ (aes : AesBlock) (iv_prefix : Bytes) (key : Bytes) (key_len : ℕ)
    (aes_key : (key_len ≡ 16) ⊎ (key_len ≡ 32)) where
  -- For a key of 16 or 32 bytes and a buffer that ends at least 16 bytes before offset 2^32, the loop
  -- over batches of 200 AES blocks computes, byte for byte, the data xor the keystream byte of each
  -- byte's own file position.
  pub stream_crypt-eq-crypt_at :
      (start : ℕ) (plain : Bytes)
      → start + length plain + 15 < 2 ^ 32
      → stream_crypt aes builtin iv_prefix start plain key key_len
        ≡ ok (crypt_at aes key iv_prefix start plain)
  stream_crypt-eq-crypt_at start plain h =
      stream_crypt-builtin aes iv_prefix start plain key key_len aes_key
      ∙ ap ok (crypt_blocks-eq-crypt_at aes key iv_prefix start plain h)
