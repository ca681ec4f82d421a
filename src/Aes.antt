-- ===== src/Aes.antt =====
-- src/encryption/enc_aes.c: the cached cipher contexts of the data-page path, AesRunCbc and
-- AesRunXts. OpenSSL's EVP interface is a parameter. Assertions (Assert) are not compiled into a
-- production server and are left out.
pub mod Cache
use open_pg_tde.Base.{
  ℕ, ◌≡◌, Bool, true, false, ◌&&◌, Option, none, some, [], ◌∷◌, ltb, ◌==◌, if◌then◌else◌, Bytes,
  take, Exec, ◌>>=◌, ◌>>◌, cipher_init_failed, bad_key_length, ok, err,
}
use open_pg_tde.Cipher.{BlockCrypt, aes_cbc, aes_xts}

-- One cipher of OpenSSL, CBC or XTS at one key size, with padding off. The documentation of
-- EVP_CipherInit_ex, EVP_CipherUpdate and EVP_CipherFinal_ex is what the fields state:
-- a context holds a key, a direction and an IV; an initialisation with a key sets all three, if the
-- cipher accepts the key (XTS refuses equal halves); one without a key and with direction -1 sets
-- only the IV; a run depends on these three, leaves key and direction, and decryption undoes
-- encryption.
pub record Evp (Ctx : Type 0) : Type 0 where
  pub key_of : Ctx → Bytes
  pub enc_of : Ctx → Bool
  pub iv_of : Ctx → Bytes
  pub accepts : Bytes → Bool
  pub init : Ctx → Option Bytes → Bytes → Option Bool → Ctx × Bool
  pub crypt : Bool → Bytes → Bytes → Bytes → Option Bytes
  pub run : Ctx → Bytes → Ctx × Option Bytes
  pub init_rekey_result :
      (c : Ctx) (k iv : Bytes) (e : Bool) → (init c (some k) iv (some e)).1 ≡ accepts k
  pub init_rekey :
      (c : Ctx) (k iv : Bytes) (e : Bool)
      → accepts k ≡ true
      → (key_of (init c (some k) iv (some e)).0 ≡ k)
        × (enc_of (init c (some k) iv (some e)).0 ≡ e)
        × (iv_of (init c (some k) iv (some e)).0 ≡ iv)
  pub init_iv_result : (c : Ctx) (iv : Bytes) → (init c none iv none).1 ≡ true
  pub init_iv :
      (c : Ctx) (iv : Bytes)
      → (key_of (init c none iv none).0 ≡ key_of c)
        × (enc_of (init c none iv none).0 ≡ enc_of c)
        × (iv_of (init c none iv none).0 ≡ iv)
  pub run_result : (c : Ctx) (x : Bytes) → (run c x).1 ≡ crypt (enc_of c) (key_of c) (iv_of c) x
  pub run_keeps :
      (c : Ctx) (x : Bytes) → (key_of (run c x).0 ≡ key_of c) × (enc_of (run c x).0 ≡ enc_of c)
  pub crypt_undo : (k iv x y : Bytes) → crypt true k iv x ≡ some y → crypt false k iv y ≡ some x

-- sizeof(cc->key), EVP_MAX_KEY_LENGTH
abbrev pub evp_max_key_length : ℕ
evp_max_key_length = 64

-- memcmp(a, b, n) == 0, on the n bytes of both
unfoldable pub same_bytes : Bytes → Bytes → Bool
same_bytes [] [] = true
same_bytes (a ∷ as') (b ∷ bs) = a == b && same_bytes as' bs
same_bytes _ _ = false

-- `enc` is none where the C field is -1
pub record AesCtxCache (Ctx : Type 0) : Type 0 where
  pub ctx : Ctx
  pub key : Bytes
  pub key_len : ℕ
  pub enc : Option Bool

abbrev same_direction : Option Bool → Bool → Bool
same_direction none e = false
same_direction (some true) e = e
same_direction (some false) true = false
same_direction (some false) false = true

module _ {Ctx : Type 0} (evp : Evp Ctx) where
  open evp use {init, run}

  -- same key and direction: keep the key schedule, set only the IV
  unfoldable pub set_iv : Bytes → Exec (AesCtxCache Ctx) Unit
  set_iv iv cache =
      let (ctx', done) = init cache.ctx none iv none in
      (if done then ok tt else err cipher_init_failed, record cache { ctx = ctx' })

  unfoldable pub rekey : Bool → Bytes → ℕ → Bytes → Exec (AesCtxCache Ctx) Unit
  rekey enc key key_len iv cache =
      let (ctx', done) = init cache.ctx (some key) iv (some enc) in
      if done
      then (ok tt, record { ctx = ctx'; key = key; key_len = key_len; enc = some enc })
      else (err cipher_init_failed, record cache { ctx = ctx' })

  -- aes_ctx_prepare; the caller's key is its first `key_len` bytes
  unfoldable pub prepare : Bool → Bytes → ℕ → Bytes → Exec (AesCtxCache Ctx) Unit
  prepare enc key key_len iv cache =
      if ltb evp_max_key_length key_len
      then (err bad_key_length, cache)
      else if (cache.key_len == key_len && same_direction cache.enc enc)
          && same_bytes (take key_len cache.key) (take key_len key)
      then set_iv iv cache
      else rekey enc (take key_len key) key_len iv cache

  -- EVP_CipherUpdate and EVP_CipherFinal_ex on the prepared context
  unfoldable pub update_final : Bytes → Exec (AesCtxCache Ctx) Bytes
  update_final x cache =
      let (ctx', out) = run cache.ctx x in
      (elim out [ none ↦ err cipher_init_failed | some y ↦ ok y ], record cache { ctx = ctx' })

  unfoldable pub run_cached : Bool → Bytes → ℕ → Bytes → Bytes → Exec (AesCtxCache Ctx) Bytes
  unfolding prepare update_final set_iv rekey
  run_cached enc key key_len iv x = do prepare enc key key_len iv; update_final x

-- the four static contexts
pub record Contexts (Ctx : Type 0) : Type 0 where
  pub cbc_128 : AesCtxCache Ctx
  pub cbc_256 : AesCtxCache Ctx
  pub xts_128 : AesCtxCache Ctx
  pub xts_256 : AesCtxCache Ctx

pub data CtxId : Type 0 where
  cbc_128 cbc_256 xts_128 xts_256 : CtxId

-- AesRunCbc: `key_len == 32 ? &ctx_cbc_256 : &ctx_cbc_128`; AesRunXts: `key_len == 64`
unfoldable pub context_of : BlockCrypt → ℕ → CtxId
context_of aes_cbc key_len = if key_len == 32 then CtxId.cbc_256 else CtxId.cbc_128
context_of aes_xts key_len = if key_len == 64 then CtxId.xts_256 else CtxId.xts_128

module _ {Ctx : Type 0} where
  abbrev pub get_context : CtxId → Contexts Ctx → AesCtxCache Ctx
  get_context CtxId.cbc_128 s = s.cbc_128
  get_context CtxId.cbc_256 s = s.cbc_256
  get_context CtxId.xts_128 s = s.xts_128
  get_context CtxId.xts_256 s = s.xts_256

  abbrev pub set_context : CtxId → AesCtxCache Ctx → Contexts Ctx → Contexts Ctx
  set_context CtxId.cbc_128 c s = record s { cbc_128 = c }
  set_context CtxId.cbc_256 c s = record s { cbc_256 = c }
  set_context CtxId.xts_128 c s = record s { xts_128 = c }
  set_context CtxId.xts_256 c s = record s { xts_256 = c }

  -- AesEncrypt, AesDecrypt, AesXtsEncrypt and AesXtsDecrypt, chosen by the function pointer of the
  -- suite and the direction
  unfoldable pub run_block :
      (CtxId → Evp Ctx) → BlockCrypt → Bool → Bytes → ℕ → Bytes → Bytes → Exec (Contexts Ctx) Bytes
  unfolding run_cached
  run_block evp f enc key key_len iv x s =
      let i = context_of f key_len in
      let (r, c) = run_cached (evp i) enc key key_len iv x (get_context i s) in
      (r, set_context i c s)
