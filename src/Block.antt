-- ===== src/Block.antt =====
-- Encryption of data pages, src/encryption/enc_tde.c: the tweak of a block (CalcBlockIv),
-- tde_encrypt_smgr_block and tde_decrypt_smgr_block.
pub mod Iv
pub mod RoundTrip
use open_pg_tde.Base.{
  ℕ, ◌+◌, ◌/◌, ◌^◌, bit_xor, Bool, true, false, ◌&&◌, List, [], ◌∷◌, ◌++◌, ◌==◌, if◌then◌else◌,
  Bytes, u8, shr, zeros, take, Exec, lift, pure, ◌>>=◌,
}
use open_pg_tde.Cipher.{TdeCipher, by_id}
use open_pg_tde.Aes.{Evp, CtxId, Contexts, run_block}

-- InternalKey; `key` is the first `key_len` bytes of the buffer, or more
pub record InternalKey : Type 0 where
  pub key_len : ℕ
  pub cipher : ℕ
  pub base_iv : Bytes
  pub key : Bytes

abbrev pub main_forknum : ℕ
main_forknum = 0

abbrev pub init_forknum : ℕ
init_forknum = 3

-- the init fork is encrypted with the main fork's tweak
unfoldable pub iv_fork : ℕ → ℕ
iv_fork forknum = if forknum == init_forknum then main_forknum else forknum

-- for (i = 0; i < 16; i++) iv[i] ^= base_iv[i]
unfoldable pub xor_bytes : Bytes → Bytes → Bytes
xor_bytes [] base = []
xor_bytes (x ∷ xs) [] = x ∷ xs
xor_bytes (x ∷ xs) (b ∷ bs) = bit_xor x b ∷ xor_bytes xs bs

-- iv[7] holds the fork and iv[12..15] the block number, big-endian
unfoldable pub block_position : ℕ → ℕ → Bytes
block_position forknum bn =
    zeros 7
    ++ u8 (iv_fork forknum)
      ∷ 0
      ∷ 0
      ∷ 0
      ∷ 0
      ∷ u8 (shr bn 24)
      ∷ u8 (shr bn 16)
      ∷ u8 (shr bn 8)
      ∷ u8 bn
      ∷ []

-- CalcBlockIv
unfoldable pub calc_block_iv : ℕ → ℕ → Bytes → Bytes
calc_block_iv forknum bn base_iv = xor_bytes (block_position forknum bn) base_iv

unfoldable pub is_zero : Bytes → Bool
is_zero [] = true
is_zero (x ∷ xs) = x == 0 && is_zero xs

-- the check for an all-zero page, on its first 32 bytes
abbrev pub all_zero : Bytes → Bool
all_zero page = is_zero (take 32 page)

module _ {Ctx : Type 0} (evp : CtxId → Evp Ctx) (ciphers : List TdeCipher) where
  -- tde_encrypt_smgr_block
  unfoldable pub encrypt_smgr_block : InternalKey → ℕ → ℕ → Bytes → Exec (Contexts Ctx) Bytes
  encrypt_smgr_block k forknum blocknum page = do
    cipher ← lift (by_id ciphers k.cipher)
    run_block evp cipher.block true k.key k.key_len (calc_block_iv forknum blocknum k.base_iv) page

  -- tde_decrypt_smgr_block; the last argument is what `out` held before the call, which is returned
  -- for an all-zero page
  unfoldable pub decrypt_smgr_block :
      InternalKey → ℕ → ℕ → Bytes → Bytes → Exec (Contexts Ctx) Bytes
  decrypt_smgr_block k forknum blocknum page out = if all_zero page then pure out else do
    cipher ← lift (by_id ciphers k.cipher)
    run_block evp cipher.block false k.key k.key_len (calc_block_iv forknum blocknum k.base_iv) page
