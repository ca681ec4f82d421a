-- ===== src/Examples/Toy.antt =====
-- Ciphers that mask each byte with the first byte of the key: they satisfy what is required of
-- OpenSSL, and their results can be computed.
use open_pg_tde.Base.{
  ℕ, zero, suc, ◌≡◌, refl, sym, ap, ap₂, ◌∙◌, Bool, true, false, Option, none, some, [], ◌∷◌,
  if◌then◌else◌, arith, Bytes, length, get_or, bit_xor, xor_undo,
}
use open_pg_tde.Aes.{Evp, AesCtxCache, Contexts, CtxId, same_bytes}
use open_pg_tde.Stream.{AesBlock}
use open_pg_tde.Keys.{Gcms}

abbrev pub mask : Bytes → Bytes → Bytes
mask k [] = []
mask k (x ∷ xs) = bit_xor x (get_or k 0 0) ∷ mask k xs

pub mask_undo : (k xs : Bytes) → mask k (mask k xs) ≡ xs
mask_undo k [] = refl
mask_undo k (x ∷ xs) = ap₂ ◌∷◌ (xor_undo x (get_or k 0 0)) (mask_undo k xs)

pub length-mask : (k xs : Bytes) → length (mask k xs) ≡ length xs
length-mask k [] = refl
length-mask k (x ∷ xs) = ap suc (length-mask k xs)

pub record ToyCtx : Type 0 where
  pub key : Bytes
  pub enc : Bool
  pub iv : Bytes

abbrev pub toy_init : ToyCtx → Option Bytes → Bytes → Option Bool → ToyCtx × Bool
toy_init c (some k) iv (some e) = (record { key = k; enc = e; iv = iv }, true)
toy_init c none iv none = (record c { iv = iv }, true)
toy_init c (some k) iv none = (c, false)
toy_init c none iv (some e) = (c, false)

pub toy_undo : (k x y : Bytes) → some (mask k x) ≡ some y → some (mask k y) ≡ some x
toy_undo k x y h =
    let e : mask k x ≡ y = cc h in sym (ap (λ z. some (mask k z)) e) ∙ ap some (mask_undo k x)

abbrev pub toy_evp : CtxId → Evp ToyCtx
toy_evp i = record {
  key_of = λ c. c.key;
  enc_of = λ c. c.enc;
  iv_of = λ c. c.iv;
  accepts = λ k. true;
  init = toy_init;
  crypt = λ e k iv x. some (mask k x);
  run = λ c x. (c, some (mask c.key x));
  init_rekey_result = λ c k iv e. refl;
  init_rekey = λ c k iv e h. (refl, refl, refl);
  init_iv_result = λ c iv. refl;
  init_iv = λ c iv. (refl, refl, refl);
  run_result = λ c x. refl;
  run_keeps = λ c x. (refl, refl);
  crypt_undo = λ k iv x y h. toy_undo k x y h;
}

abbrev pub toy_cache : AesCtxCache ToyCtx
toy_cache = record {
  ctx = record { key = []; enc = false; iv = [] };
  key = [];
  key_len = 0;
  enc = none;
}

abbrev pub toy_contexts : Contexts ToyCtx
toy_contexts = record {
  cbc_128 = toy_cache;
  cbc_256 = toy_cache;
  xts_128 = toy_cache;
  xts_256 = toy_cache;
}

abbrev pub first_bytes : ℕ → Bytes → Bytes
first_bytes zero xs = []
first_bytes (suc n) [] = 0 ∷ first_bytes n []
first_bytes (suc n) (x ∷ xs) = x ∷ first_bytes n xs

pub length-first_bytes : (n : ℕ) (xs : Bytes) → length (first_bytes n xs) ≡ n
length-first_bytes zero xs = refl
length-first_bytes (suc n) [] = ap suc (length-first_bytes n [])
length-first_bytes (suc n) (x ∷ xs) = ap suc (length-first_bytes n xs)

abbrev pub toy_aes : AesBlock
toy_aes = record {
  encrypt = λ key block. first_bytes 16 (mask key block);
  encrypt_length = λ key block. length-first_bytes 16 (mask key block);
}

pub same_bytes_refl : (xs : Bytes) → same_bytes xs xs ≡ true
unfolding same_bytes
same_bytes_refl [] = refl
same_bytes_refl (x ∷ xs) = ground (arith, same_bytes_refl xs)

abbrev pub toy_unseal : Bytes → Bytes → Bytes → Bytes → Option Bytes
toy_unseal k aad x tag = if same_bytes aad tag then some (mask k x) else none

pub toy_unseal_lem : (k aad x : Bytes) → toy_unseal k aad (mask k x) aad ≡ some x
toy_unseal_lem k aad x =
    ap (λ b. if b then some (mask k (mask k x)) else none) (same_bytes_refl aad)
    ∙ ap some (mask_undo k x)

abbrev pub toy_gcm : Gcms
toy_gcm b = record {
  seal = λ k iv aad x. (mask k x, aad);
  unseal = λ k iv aad x tag. toy_unseal k aad x tag;
  seal_length = λ k iv aad x. length-mask k x;
  unseal-seal = λ k iv aad x. toy_unseal_lem k aad x;
}
