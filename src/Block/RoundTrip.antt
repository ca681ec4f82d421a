-- ===== src/Block/RoundTrip.antt =====
-- Pages that were written are read back.
use open_pg_tde.Base.{
  some, ◌≤◌, ℕ, ◌≡◌, refl, sym, ap, ◌∙◌, Bool, true, false, List, arith, Bytes, if◌then◌else◌,
  Result, ok, and_then, Result-cases, take, Bool-cases, inl, inr,
}
use open_pg_tde.Cipher.{TdeCipher, BlockCrypt, by_id}
use open_pg_tde.Aes.{
  evp_max_key_length, Evp, AesCtxCache, CtxId, Contexts, context_of, get_context, set_context,
  run_block, run_cached,
}
use open_pg_tde.Aes.Cache.{IsCached, stateless, run_cached-eq-stateless, run_cached-IsCached}
use open_pg_tde.Block.{
  InternalKey, iv_fork, block_position, calc_block_iv, all_zero, encrypt_smgr_block,
  decrypt_smgr_block,
}

module _ {Ctx : Type 0} (evp : CtxId → Evp Ctx) where
  -- all four contexts of AesInit are consistent
  abbrev pub AllCached : Contexts Ctx → Type 0
  AllCached s = (i : CtxId) → IsCached (evp i) (get_context i s)

  run_block-eq-stateless :
      (f : BlockCrypt) (enc : Bool) (key : Bytes) (key_len : ℕ) (iv x : Bytes) (s : Contexts Ctx)
      → AllCached s
      → (run_block evp f enc key key_len iv x s).0
        ≡ stateless (evp (context_of f key_len)) enc key key_len iv x
  unfolding run_block
  run_block-eq-stateless f enc key key_len iv x s h =
      let i = context_of f key_len in
      run_cached-eq-stateless (evp i) enc key key_len iv x (get_context i s) (h i)

  get_context-set_context :
      (i j : CtxId) (c : AesCtxCache Ctx) (s : Contexts Ctx)
      → IsCached (evp i) c
      → AllCached s
      → IsCached (evp j) (get_context j (set_context i c s))
  get_context-set_context CtxId.cbc_128 CtxId.cbc_128 c s h all = h
  get_context-set_context CtxId.cbc_256 CtxId.cbc_256 c s h all = h
  get_context-set_context CtxId.xts_128 CtxId.xts_128 c s h all = h
  get_context-set_context CtxId.xts_256 CtxId.xts_256 c s h all = h
  get_context-set_context CtxId.cbc_128 j c s h all = all j
  get_context-set_context CtxId.cbc_256 j c s h all = all j
  get_context-set_context CtxId.xts_128 j c s h all = all j
  get_context-set_context CtxId.xts_256 j c s h all = all j

  run_block-AllCached :
      (f : BlockCrypt) (enc : Bool) (key : Bytes) (key_len : ℕ) (iv x : Bytes) (s : Contexts Ctx)
      → AllCached s
      → (evp (context_of f key_len)).accepts (take key_len key) ≡ true
      → AllCached (run_block evp f enc key key_len iv x s).1
  unfolding run_block
  run_block-AllCached f enc key key_len iv x s h good j =
      let i = context_of f key_len in
      get_context-set_context i j (run_cached (evp i) enc key key_len iv x (get_context i s)).1 s
        (run_cached-IsCached (evp i) enc key key_len iv x (get_context i s) (h i) (inl good)) h

  -- What one call encrypts, a later call decrypts.
  stateless_undo :
      (i : CtxId) (key : Bytes) (key_len : ℕ) (iv x y : Bytes)
      → stateless (evp i) true key key_len iv x ≡ ok y
      → stateless (evp i) false key key_len iv y ≡ ok x
  stateless_undo i key key_len iv x y h =
      let back = (evp i).crypt_undo (take key_len key) iv x y in ground (arith, back)

  if_ok : (b : Bool) (x y : Bytes) → (if b then ok x else ok y) ≡ ok (if b then x else y)
  if_ok b x y = ground arith

  module _ (ciphers : List TdeCipher) (k : InternalKey) where
    -- what the two functions compute, without contexts
    abbrev crypt_block : Bool → ℕ → ℕ → Bytes → Result Bytes
    crypt_block enc forknum bn x = and_then (by_id ciphers k.cipher) λ c.
        stateless (evp (context_of c.block k.key_len)) enc k.key k.key_len
          (calc_block_iv forknum bn k.base_iv) x

    pub encrypt_smgr_block-eq-crypt_block :
        (f bn : ℕ) (page : Bytes) (s : Contexts Ctx)
        → AllCached s
        → (encrypt_smgr_block evp ciphers k f bn page s).0 ≡ crypt_block true f bn page
    unfolding encrypt_smgr_block
    encrypt_smgr_block-eq-crypt_block f bn page s h = elim (Result-cases (by_id ciphers k.cipher)) [
      | inl (c, e) ↦ rw e (
          run_block-eq-stateless c.block true k.key k.key_len (calc_block_iv f bn k.base_iv) page s
            h)
      | inr (x, e) ↦ rw e refl
    ]

    pub decrypt_smgr_block-eq-crypt_block :
        (f bn : ℕ) (page out : Bytes) (s : Contexts Ctx)
        → AllCached s
        → (decrypt_smgr_block evp ciphers k f bn page out s).0
          ≡ (if all_zero page then ok out else crypt_block false f bn page)
    unfolding decrypt_smgr_block
    decrypt_smgr_block-eq-crypt_block f bn page out s h = elim (Bool-cases (all_zero page)) [
      | inl z ↦ rw z refl
      | inr n ↦ elim (Result-cases (by_id ciphers k.cipher)) [
        | inl (c, e) ↦
            rw (n, e)
              (run_block-eq-stateless c.block false k.key k.key_len (calc_block_iv f bn k.base_iv)
                page s h)
        | inr (x, e) ↦ rw (n, e) refl
      ]
    ]

    crypt_block_undo :
        (f bn : ℕ) (x y : Bytes) → crypt_block true f bn x ≡ ok y → crypt_block false f bn y ≡ ok x
    crypt_block_undo f bn x y h = elim (Result-cases (by_id ciphers k.cipher)) [
      | inl (c, e) ↦ rw e (
          stateless_undo (context_of c.block k.key_len) k.key k.key_len
            (calc_block_iv f bn k.base_iv) x y (rw e at h))
      | inr (z, e) ↦ cc (rw e at h)
    ]

    crypt_block_fork :
        (f g bn : ℕ) (x : Bytes)
        → iv_fork f ≡ iv_fork g
        → crypt_block false f bn x ≡ crypt_block false g bn x
    crypt_block_fork f g bn x e =
        let same : calc_block_iv f bn k.base_iv ≡ calc_block_iv g bn k.base_iv =
          unfold calc_block_iv block_position in cc e in
        rw same refl

    -- A page that was encrypted as a block of some fork is decrypted in place as the same block of
    -- that fork, or of the main fork if it was the init fork and the other way round, also when the
    -- two calls are made by different processes, with any consistent contexts. The one exception is
    -- written out: a cipher text that begins with 32 zero bytes is taken for an unencrypted page.
    pub decrypt-encrypt_smgr_block :
        (f g bn : ℕ) (page c : Bytes) (s s' : Contexts Ctx)
        → AllCached s
        → AllCached s'
        → iv_fork f ≡ iv_fork g
        → (encrypt_smgr_block evp ciphers k f bn page s).0 ≡ ok c
        → (decrypt_smgr_block evp ciphers k g bn c c s').0 ≡ ok (if all_zero c then c else page)
    decrypt-encrypt_smgr_block f g bn page c s s' hs hs' same e =
        let written = sym (encrypt_smgr_block-eq-crypt_block f bn page s hs) ∙ e in
        decrypt_smgr_block-eq-crypt_block g bn c c s' hs'
        ∙ ap (λ r. if all_zero c then ok c else r)
            (sym (crypt_block_fork f g bn c same) ∙ crypt_block_undo f bn page c written)
        ∙ if_ok (all_zero c) c page

    stateless_ok :
        (i : CtxId) (key_len : ℕ) (iv page y : Bytes)
        → key_len ≤ evp_max_key_length
        → (evp i).accepts (take key_len k.key) ≡ true
        → (evp i).crypt true (take key_len k.key) iv page ≡ some y
        → stateless (evp i) true k.key key_len iv page ≡ ok y
    stateless_ok i key_len iv page y short good e = ground (arith, short, good, e)

    -- With a key of at most 64 bytes that a known suite accepts, a page that the cipher encrypts, and
    -- contexts that are set up as their caches record, encrypting a block succeeds with the cipher's text
    -- for the page, under the tweak of the block, whichever keys the contexts were set up with.
    pub encrypt_smgr_block_lem :
        (f bn : ℕ) (page y : Bytes) (c : TdeCipher) (s : Contexts Ctx)
        → AllCached s
        → by_id ciphers k.cipher ≡ ok c
        → k.key_len ≤ evp_max_key_length
        → (evp (context_of c.block k.key_len)).accepts (take k.key_len k.key) ≡ true
        → (evp (context_of c.block k.key_len)).crypt true
            (take k.key_len k.key)
            (calc_block_iv f bn k.base_iv)
            page
          ≡ some y
        → (encrypt_smgr_block evp ciphers k f bn page s).0 ≡ ok y
    encrypt_smgr_block_lem f bn page y c s h known short good e =
        encrypt_smgr_block-eq-crypt_block f bn page s h
        ∙ ap
            (λ r. and_then r λ c.
              stateless (evp (context_of c.block k.key_len)) true k.key k.key_len
                (calc_block_iv f bn k.base_iv) page)
            known
        ∙ stateless_ok (context_of c.block k.key_len) k.key_len (calc_block_iv f bn k.base_iv) page
            y short good e

    -- the suite recorded in the key accepts the key
    abbrev pub IsAccepted : Type 0
    IsAccepted =
        (c : TdeCipher)
        → by_id ciphers k.cipher ≡ ok c
        → (evp (context_of c.block k.key_len)).accepts (take k.key_len k.key) ≡ true

    -- With a key that its suite accepts, encrypting and decrypting blocks, of whatever forks and
    -- numbers, leaves the contexts consistent.
    pub smgr_block-AllCached :
        (f g bn bm : ℕ) (page page' out : Bytes) (s : Contexts Ctx)
        → IsAccepted
        → AllCached s
        → AllCached (encrypt_smgr_block evp ciphers k f bn page s).1
          × AllCached (decrypt_smgr_block evp ciphers k g bm page' out s).1
    unfolding encrypt_smgr_block decrypt_smgr_block
    smgr_block-AllCached f g bn bm page page' out s good h =
        elim (Result-cases (by_id ciphers k.cipher)) [
          | inl (c, e) ↦ (
            rw e (
                run_block-AllCached c.block true k.key k.key_len (calc_block_iv f bn k.base_iv) page
                  s h (good c e)),
            elim (Bool-cases (all_zero page')) [
              | inl z ↦ rw z h
              | inr n ↦
                  rw (n, e)
                    (run_block-AllCached c.block false k.key k.key_len
                      (calc_block_iv g bm k.base_iv) page' s h (good c e))
            ],
          )
          | inr (x, e) ↦
              (rw e h, elim (Bool-cases (all_zero page')) [ inl z ↦ rw z h | inr n ↦ rw (n, e) h ])
        ]
