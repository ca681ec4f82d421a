-- ===== src/Examples/Blocks.antt =====
-- Blocks, contexts and streams on toy ciphers.
use open_pg_tde.Base.{
  ℕ, ◌≡◌, ◌↔◌, refl, inl, Bool, true, false, some, [], ◌∷◌, ◌++◌, if◌then◌else◌, arith, Bytes,
  zeros, take, ok,
}
use open_pg_tde.Aes.{
  get_context, AesCtxCache, CtxId, run_cached, context_of, run_block, prepare, rekey, update_final,
}
use open_pg_tde.Aes.Cache.{IsCached, stateless, run_cached-eq-stateless}
use open_pg_tde.Block.{
  InternalKey, iv_fork, calc_block_iv, all_zero, encrypt_smgr_block, decrypt_smgr_block,
}
use open_pg_tde.Block.Iv.{calc_block_iv-injective}
use open_pg_tde.Block.RoundTrip.{
  decrypt-encrypt_smgr_block, encrypt_smgr_block_lem, smgr_block-AllCached,
}
use open_pg_tde.Cipher.{
  builtin, registry_init, register_cipher, by_id, by_key_len, has_keystream, cipher_key_length,
  TdeCipher,
}
use open_pg_tde.Stream.{stream_crypt}
use open_pg_tde.Stream.Keystream.{crypt_at}
use open_pg_tde.Stream.Laws.{stream_crypt-eq-crypt_at}
use open_pg_tde.Examples.Toy.{ToyCtx, toy_evp, toy_cache, toy_contexts, toy_aes, mask}

abbrev key : Bytes
key = 5 ∷ 6 ∷ zeros 14

abbrev cached : AesCtxCache ToyCtx
cached = record {
  ctx = record { key = key; enc = true; iv = zeros 16 };
  key = key;
  key_len = 16;
  enc = some true;
}

direction : (e : Bool) → some true ≡ some e → true ≡ e
direction e h = cc h

cached-IsCached : IsCached (toy_evp CtxId.cbc_128) cached
cached-IsCached = record { recorded = λ e h. (direction e h, refl, refl) }

fresh-IsCached : (i : CtxId) → IsCached (toy_evp i) toy_cache
fresh-IsCached i = record { recorded = λ e h. absurd (cc h) }

all_fresh : (i : CtxId) → IsCached (toy_evp i) (get_context i toy_contexts)
all_fresh CtxId.cbc_128 = fresh-IsCached CtxId.cbc_128
all_fresh CtxId.cbc_256 = fresh-IsCached CtxId.cbc_256
all_fresh CtxId.xts_128 = fresh-IsCached CtxId.xts_128
all_fresh CtxId.xts_256 = fresh-IsCached CtxId.xts_256

run_cached-eq-stateless_example :
    (run_cached (toy_evp CtxId.cbc_128) false key 16 (zeros 16) (1 ∷ 2 ∷ []) cached).0
    ≡ stateless (toy_evp CtxId.cbc_128) false key 16 (zeros 16) (1 ∷ 2 ∷ [])
run_cached-eq-stateless_example =
    run_cached-eq-stateless (toy_evp CtxId.cbc_128) false key 16 (zeros 16) (1 ∷ 2 ∷ []) cached
      cached-IsCached

abbrev rel_key : InternalKey
rel_key = record { key_len = 16; cipher = 0; base_iv = zeros 16; key = key }

abbrev page : Bytes
page = 1 ∷ 2 ∷ 3 ∷ zeros 29

abbrev cipher_text : Bytes
cipher_text =
    (take 32 (4 ∷ 7 ∷ 6 ∷ 5 ∷ 5 ∷ 5 ∷ 5 ∷ 5 ∷ 5 ∷ 5 ∷ 5 ∷ 5 ∷ 5 ∷ 5 ∷ 5 ∷ 5 ∷ [])
      ++ (5 ∷ 5 ∷ 5 ∷ 5 ∷ 5 ∷ 5 ∷ 5 ∷ 5 ∷ 5 ∷ 5 ∷ 5 ∷ 5 ∷ 5 ∷ 5 ∷ 5 ∷ 5 ∷ []))

encrypted : (encrypt_smgr_block toy_evp builtin rel_key 3 9 page toy_contexts).0 ≡ ok cipher_text
unfolding encrypt_smgr_block run_block context_of run_cached prepare rekey update_final by_id
    builtin registry_init register_cipher calc_block_iv
encrypted = refl

abbrev cbc_suite : TdeCipher
cbc_suite = record {
  id = 0;
  name = "aes-128";
  key_len = 16;
  block = open_pg_tde.Cipher.BlockCrypt.aes_cbc;
  keystream = some open_pg_tde.Cipher.Keystream.aes_ctr_encrypted_zero_blocks;
}

known_suite : by_id builtin 0 ≡ ok cbc_suite
unfolding by_id builtin registry_init register_cipher
known_suite = refl

encrypt_smgr_block_lem_example :
    (encrypt_smgr_block toy_evp builtin rel_key 3 9 page toy_contexts).0 ≡ ok (mask key page)
encrypt_smgr_block_lem_example =
    encrypt_smgr_block_lem toy_evp builtin rel_key 3 9 page (mask key page) cbc_suite toy_contexts
      all_fresh known_suite (omega arith) refl refl

forks : iv_fork 3 ≡ iv_fork 0
unfolding iv_fork
forks = refl

decrypt-encrypt_smgr_block_example :
    (decrypt_smgr_block toy_evp builtin rel_key 0 9 cipher_text cipher_text toy_contexts).0
    ≡ ok (if all_zero cipher_text then cipher_text else page)
decrypt-encrypt_smgr_block_example =
    decrypt-encrypt_smgr_block toy_evp builtin rel_key 3 0 9 page cipher_text toy_contexts
      toy_contexts all_fresh all_fresh forks encrypted

smgr_block-AllCached_example :
    ((i : CtxId)
      → IsCached
          (toy_evp i)
          (get_context i (encrypt_smgr_block toy_evp builtin rel_key 0 9 page toy_contexts).1))
    × ((i : CtxId)
        → IsCached (toy_evp i) (
            get_context i
              (decrypt_smgr_block toy_evp builtin rel_key 1 8 page page toy_contexts).1))
smgr_block-AllCached_example =
    smgr_block-AllCached toy_evp builtin rel_key 0 1 9 8 page page page toy_contexts (λ c h. refl)
      all_fresh

calc_block_iv-injective_example :
    (calc_block_iv 0 7 (zeros 16) ≡ calc_block_iv 2 7 (zeros 16))
    ↔ ((iv_fork 0 ≡ iv_fork 2) × ◌≡◌ {A = ℕ} 7 7)
calc_block_iv-injective_example =
    calc_block_iv-injective (zeros 16) 0 2 7 7 (omega arith) (omega arith) (omega arith)
      (omega arith)

abbrev data_bytes : Bytes
data_bytes = 10 ∷ 20 ∷ 30 ∷ []

stream_crypt-eq-crypt_at_example :
    stream_crypt toy_aes builtin (zeros 16) 30 data_bytes key 16
    ≡ ok (crypt_at toy_aes key (zeros 16) 30 data_bytes)
stream_crypt-eq-crypt_at_example =
    stream_crypt-eq-crypt_at toy_aes (zeros 16) key 16 (inl refl) 30 data_bytes (omega arith)
