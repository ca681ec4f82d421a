-- ===== src/Stream.antt =====
-- The WAL stream cipher: AesCtrEncryptedZeroBlocks of src/encryption/enc_aes.c and
-- open_pg_tde_stream_crypt of src/encryption/enc_tde.c. AES itself (OpenSSL) is a parameter.
-- The OpenSSL context that AesEcbEncrypt keeps from call to call, with the key it was made with, is left
-- out: a context serves one key, that of the range which it is kept with.
-- `data` holds exactly the `data_len` bytes that the C function is given.
pub mod Keystream
pub mod Batches
pub mod Laws
use Prim.Native.Nat.{min}
use open_pg_tde.Base.{
  ℕ, zero, suc, ◌+◌, ◌-◌, ◌*◌, ◌/◌, ◌%◌, ◌≡◌, bit_xor, List, [], ◌∷◌, ◌++◌, ltb, if◌then◌else◌,
  Bytes, u32, le_bytes, length, take, drop, Result, ok, err, no_keystream_cipher, none, some,
  and_then,
}
use open_pg_tde.Cipher.{TdeCipher, aes_ctr_encrypted_zero_blocks, by_key_len}

abbrev pub aes_block_size : ℕ
aes_block_size = 16

abbrev pub num_aes_blocks_in_batch : ℕ
num_aes_blocks_in_batch = 200

-- AES of OpenSSL on one 16-byte block: key, then block. EVP_CipherUpdate in ECB mode without
-- padding encrypts each block of its input by itself, and a block becomes 16 bytes.
pub record AesBlock : Type 0 where
  pub encrypt : Bytes → Bytes → Bytes
  pub encrypt_length : (key block : Bytes) → length (encrypt key block) ≡ 16

-- tde_xor_stream and tde_xor_stream_distinct, which differ in what the compiler may assume
unfoldable pub xor_stream : Bytes → Bytes → Bytes
xor_stream [] keystream = []
xor_stream (x ∷ xs) [] = []
xor_stream (x ∷ xs) (k ∷ ks) = bit_xor x k ∷ xor_stream xs ks

-- current_batch_bytes: the first batch skips `key_offset` bytes of its first block, and the last one
-- stops where the data does
unfoldable pub batch_bytes : ℕ → ℕ → ℕ → ℕ → ℕ
batch_bytes data_len blocks key_offset data_index =
    let whole = u32 (blocks * aes_block_size - key_offset) in
    if ltb data_len (u32 (data_index + whole)) then data_len - data_index else whole

module _ (aes : AesBlock) (key iv_prefix : Bytes) where
  -- 12 bytes of the prefix and the block number, as the CPU (little-endian) stores an int32
  abbrev pub counter_block : ℕ → Bytes
  counter_block j = take 12 iv_prefix ++ le_bytes 4 j

  -- AesCtrEncryptedZeroBlocks for `count` blocks from block `j` on
  unfoldable pub zero_blocks : ℕ → ℕ → Bytes
  zero_blocks zero j = []
  zero_blocks (suc count) j = aes.encrypt key (counter_block j) ++ zero_blocks count (j + 1)

  -- The loop over the batches, from the batch that starts at `batch_start_block`. It returns the
  -- bytes that are written to `out` from `data_index` on.
  unfoldable pub batches : Bytes → ℕ → ℕ → ℕ → ℕ → ℕ → ℕ → Bytes
  batches plain block_no end_block zero batch_start_block batch_no data_index = []
  batches plain block_no end_block (suc rounds) batch_start_block batch_no data_index =
      let batch_end_block = min (batch_start_block + num_aes_blocks_in_batch) end_block in
      let blocks = batch_end_block - batch_start_block in
      let key_offset = if ltb 0 batch_no then 0 else block_no in
      let enc_key = zero_blocks blocks batch_start_block in
      let bytes = batch_bytes (length plain) blocks key_offset data_index in
      let rest =
        batches plain block_no end_block rounds (batch_start_block + num_aes_blocks_in_batch)
          (batch_no + 1) (data_index + bytes) in
      if ltb batch_start_block end_block
      then xor_stream (take bytes (drop data_index plain)) (drop key_offset enc_key) ++ rest
      else []

  -- The loop runs at most once for each block.
  unfoldable pub crypt_blocks : ℕ → Bytes → Bytes
  crypt_blocks start_offset plain =
      let start_block = start_offset / aes_block_size in
      let end_block = u32 (start_offset + length plain + (aes_block_size - 1)) / aes_block_size in
      batches plain (start_offset % aes_block_size) end_block (end_block - start_block) start_block
        0 0

-- open_pg_tde_stream_crypt, over the registered suites. The lookup never returns a suite without a
-- keystream, so the first case, a call through NULL, does not occur.
unfoldable pub stream_crypt :
    AesBlock → List TdeCipher → Bytes → ℕ → Bytes → Bytes → ℕ → Result Bytes
stream_crypt aes ciphers iv_prefix start_offset plain key key_len =
    and_then (by_key_len ciphers key_len) λ cipher. elim cipher.keystream [
      | none ↦ err no_keystream_cipher
      | some aes_ctr_encrypted_zero_blocks ↦ ok (crypt_blocks aes key iv_prefix start_offset plain)
    ]
