-- ===== src/Aes/Cache.antt =====
-- The cached contexts behave as if each call made a context of its own.
use native.Mathlib.Decide.{dec_lt}
use open_pg_tde.Base.{
  take-take, lt→ltb, ◌<◌, ℕ, ◌≤◌, ◌≡◌, refl, ap, ◌∙◌, ◌⊎◌, inl, inr, Bool, true, false, ◌&&◌,
  Option, none, some, [], ◌∷◌, arith, ltb, ◌==◌, if◌then◌else◌, Bool-cases, Bytes, take, Result, ok,
  err, cipher_init_failed, bad_key_length,
}
use open_pg_tde.Aes.{Evp, AesCtxCache, evp_max_key_length, same_bytes, same_direction, run_cached}

pub same_bytes→eq : (xs ys : Bytes) → same_bytes xs ys ≡ true → xs ≡ ys
unfolding same_bytes
same_bytes→eq [] [] h = refl
same_bytes→eq [] (y ∷ ys) h = cc
same_bytes→eq (x ∷ xs) [] h = cc
same_bytes→eq (x ∷ xs) (y ∷ ys) h = ground (arith, same_bytes→eq xs ys)

same_direction→eq : (o : Option Bool) (e : Bool) → same_direction o e ≡ true → o ≡ some e
same_direction→eq o e h = ground arith

abbrev pub outcome : Option Bytes → Result Bytes
outcome none = err cipher_init_failed
outcome (some y) = ok y

module _ {Ctx : Type 0} (evp : Evp Ctx) where
  open evp use {key_of, enc_of, iv_of, accepts, init, crypt, run}

  -- Where a direction is recorded, the context holds that direction and the recorded key, which the
  -- cipher has accepted.
  pub record IsCached (c : AesCtxCache Ctx) : Type 0 where
    pub recorded :
        (e : Bool)
        → c.enc ≡ some e
        → (enc_of c.ctx ≡ e)
          × (key_of c.ctx ≡ take c.key_len c.key)
          × (accepts (take c.key_len c.key) ≡ true)

  -- what a call returns without a cache
  abbrev pub stateless : Bool → Bytes → ℕ → Bytes → Bytes → Result Bytes
  stateless enc key key_len iv x =
      if ltb evp_max_key_length key_len
      then err bad_key_length
      else if accepts (take key_len key)
      then outcome (crypt enc (take key_len key) iv x)
      else err cipher_init_failed

  hit :
      (enc : Bool) (key : Bytes) (key_len : ℕ) (iv x : Bytes) (c : AesCtxCache Ctx)
      → key_len ≤ evp_max_key_length
      → ((c.key_len == key_len && same_direction c.enc enc)
          && same_bytes (take key_len c.key) (take key_len key))
        ≡ true
      → IsCached c
      → ((run_cached evp enc key key_len iv x c).0 ≡ stateless enc key key_len iv x)
        × IsCached (run_cached evp enc key key_len iv x c).1
  unfolding run_cached
  hit enc key key_len iv x c small test valid =
      let same_len : c.key_len ≡ key_len = ground arith in
      let same_key : take key_len c.key ≡ take key_len key =
        same_bytes→eq (take key_len c.key) (take key_len key) (ground arith) in
      let same_dir : c.enc ≡ some enc = same_direction→eq c.enc enc (ground arith) in
      let held = valid.recorded enc same_dir in
      let key_eq : take c.key_len c.key ≡ take key_len key =
        ap (λ n. take n c.key) same_len ∙ same_key in
      let c' = (init c.ctx none iv none).0 in
      ground (
        arith,
        test,
        evp.init_iv_result c.ctx iv,
        evp.init_iv c.ctx iv,
        evp.run_result c' x,
        evp.run_keeps c' x,
      )

  miss :
      (enc : Bool) (key : Bytes) (key_len : ℕ) (iv x : Bytes) (c : AesCtxCache Ctx)
      → key_len ≤ evp_max_key_length
      → ((c.key_len == key_len && same_direction c.enc enc)
          && same_bytes (take key_len c.key) (take key_len key))
        ≡ false
      → (run_cached evp enc key key_len iv x c).0 ≡ stateless enc key key_len iv x
  unfolding run_cached
  miss enc key key_len iv x c small test =
      let k = take key_len key in
      let c' = (init c.ctx (some k) iv (some enc)).0 in
      ground (
        arith,
        evp.init_rekey_result c.ctx k iv enc,
        evp.init_rekey c.ctx k iv enc,
        evp.run_result c' x,
      )

  miss-IsCached :
      (enc : Bool) (key : Bytes) (key_len : ℕ) (iv x : Bytes) (c : AesCtxCache Ctx)
      → key_len ≤ evp_max_key_length
      → ((c.key_len == key_len && same_direction c.enc enc)
          && same_bytes (take key_len c.key) (take key_len key))
        ≡ false
      → accepts (take key_len key) ≡ true
      → IsCached (run_cached evp enc key key_len iv x c).1
  unfolding run_cached
  miss-IsCached enc key key_len iv x c small test good =
      let k = take key_len key in
      let c' = (init c.ctx (some k) iv (some enc)).0 in
      let twice = take-take key_len key in
      record {
        recorded = λ e h. ground (
          arith,
          test,
          twice,
          ap accepts twice,
          evp.init_rekey_result c.ctx k iv enc,
          evp.init_rekey c.ctx k iv enc,
          evp.run_keeps c' x,
        );
      }

  -- From a consistent cache, a call returns exactly what a context made for this call alone would
  -- return, on every branch: a key longer than the buffer is refused, a key that the cipher does not
  -- accept is refused, and otherwise the result is the cipher's own with this key, direction and IV.
  pub run_cached-eq-stateless :
      (enc : Bool) (key : Bytes) (key_len : ℕ) (iv x : Bytes) (c : AesCtxCache Ctx)
      → IsCached c
      → (run_cached evp enc key key_len iv x c).0 ≡ stateless enc key key_len iv x
  run_cached-eq-stateless enc key key_len iv x c valid = elim (dec_lt evp_max_key_length key_len) [
    | yes long ↦ unfold run_cached in rw (lt→ltb evp_max_key_length key_len long) refl
    | no short ↦
        elim (Bool-cases (
          (c.key_len == key_len && same_direction c.enc enc)
          && same_bytes (take key_len c.key) (take key_len key))) [
            | inl t ↦ (hit enc key key_len iv x c (omega arith) t valid).0
            | inr f ↦ miss enc key key_len iv x c (omega arith) f
          ]
  ]

  -- A call with a key that the cipher accepts, or that is too long, leaves the cache consistent.
  pub run_cached-IsCached :
      (enc : Bool) (key : Bytes) (key_len : ℕ) (iv x : Bytes) (c : AesCtxCache Ctx)
      → IsCached c
      → (accepts (take key_len key) ≡ true) ⊎ (evp_max_key_length < key_len)
      → IsCached (run_cached evp enc key key_len iv x c).1
  run_cached-IsCached enc key key_len iv x c valid good = elim (dec_lt evp_max_key_length key_len) [
    | yes long ↦ unfold run_cached in rw (lt→ltb evp_max_key_length key_len long) valid
    | no short ↦
        elim (Bool-cases (
          (c.key_len == key_len && same_direction c.enc enc)
          && same_bytes (take key_len c.key) (take key_len key))) [
            | inl t ↦ (hit enc key key_len iv x c (omega arith) t valid).1
            | inr f ↦ miss-IsCached enc key key_len iv x c (omega arith) f (ground arith)
          ]
  ]
