-- ===== src/Stream/Keystream.antt =====
-- The keystream as a function of the absolute position in the file, and encryption by it, with no
-- blocks and no batches: what the stream cipher is meant to compute.
use native.Mathlib.Nat.{add-zero}
use native.Mathlib.Decide.{dec_lt}
use open_pg_tde.Base.{
  ℕ, zero, suc, ◌+◌, ◌-◌, ◌*◌, ◌/◌, ◌%◌, ◌≤◌, ◌<◌, ◌≡◌, refl, ap, ap₂, ◌∙◌, bit_xor, List, [], ◌∷◌,
  ◌++◌, some, arith, Bytes, length, drop, get_elem?, get_or, get_elem?-eq-get_or,
}
use open_pg_tde.Stream.{AesBlock, xor_stream, counter_block, zero_blocks}

module _ {A : Type 0} where
  get_elem?-append_left :
      (xs ys : List A) (i : ℕ) → i < length xs → get_elem? (xs ++ ys) i ≡ get_elem? xs i
  get_elem?-append_left [] ys i h = absurd (omega arith)
  get_elem?-append_left (x ∷ xs) ys zero h = refl
  get_elem?-append_left (x ∷ xs) ys (suc i) h = get_elem?-append_left xs ys i (omega arith)

  get_elem?-append_right :
      (xs ys : List A) (i : ℕ) → get_elem? (xs ++ ys) (length xs + i) ≡ get_elem? ys i
  get_elem?-append_right [] ys i = ap (get_elem? ys) (omega arith)
  get_elem?-append_right (x ∷ xs) ys i =
      let e : suc (length xs) + i ≡ suc (length xs + i) = omega arith in
      rw e (get_elem?-append_right xs ys i)

  get_elem?-drop : (k : ℕ) (xs : List A) (i : ℕ) → get_elem? (drop k xs) i ≡ get_elem? xs (k + i)
  get_elem?-drop zero xs i = ap (get_elem? xs) (omega arith)
  get_elem?-drop (suc k) [] i = refl
  get_elem?-drop (suc k) (x ∷ xs) i =
      let e : suc k + i ≡ suc (k + i) = omega arith in rw e (get_elem?-drop k xs i)

module _ (aes : AesBlock) (key iv_prefix : Bytes) where
  -- The keystream byte of a position: block `p / 16`, byte `p % 16`.
  abbrev pub keystream_byte : ℕ → ℕ
  keystream_byte p = get_or (aes.encrypt key (counter_block aes key iv_prefix (p / 16))) (p % 16) 0

  -- Each byte xor the keystream byte of its own position.
  unfoldable pub crypt_at : ℕ → Bytes → Bytes
  crypt_at p [] = []
  crypt_at p (x ∷ xs) = bit_xor x (keystream_byte p) ∷ crypt_at (p + 1) xs

  pub length-crypt_at : (p : ℕ) (xs : Bytes) → length (crypt_at p xs) ≡ length xs
  unfolding crypt_at
  length-crypt_at p [] = refl
  length-crypt_at p (x ∷ xs) = ap suc (length-crypt_at (p + 1) xs)

  pub crypt_at-append :
      (p : ℕ) (xs ys : Bytes) → crypt_at p (xs ++ ys) ≡ crypt_at p xs ++ crypt_at (p + length xs) ys
  unfolding crypt_at
  crypt_at-append p [] ys = ap (λ q. crypt_at q ys) (omega arith)
  crypt_at-append p (x ∷ xs) ys =
      ap (◌∷◌ (bit_xor x (keystream_byte p))) (
        crypt_at-append (p + 1) xs ys
        ∙ ap (λ q. crypt_at (p + 1) xs ++ crypt_at q ys) (omega arith))

  -- Xor with a list that holds the keystream from position `p` on.
  xor_stream-eq-crypt_at :
      (xs ks : Bytes) (p : ℕ)
      → ((i : ℕ) → i < length xs → get_elem? ks i ≡ some (keystream_byte (p + i)))
      → xor_stream xs ks ≡ crypt_at p xs
  unfolding xor_stream crypt_at
  xor_stream-eq-crypt_at [] ks p h = refl
  xor_stream-eq-crypt_at (x ∷ xs) [] p h = cc (h 0 (omega arith))
  xor_stream-eq-crypt_at (x ∷ xs) (k ∷ ks) p h =
      let same : k ≡ keystream_byte p = cc (h 0 (omega arith), add-zero p) in
      let shifted : (i : ℕ) → p + suc i ≡ p + 1 + i = λ i. omega arith in
      ap₂ ◌∷◌ (ap (bit_xor x) same) (
        xor_stream-eq-crypt_at xs ks (p + 1)
          (λ i lt. h (suc i) (omega arith) ∙ ap (λ q. some (keystream_byte q)) (shifted i)))

  get_elem?-zero_blocks :
      (count j i : ℕ)
      → i < 16 * count
      → get_elem? (zero_blocks aes key iv_prefix count j) i ≡ some (keystream_byte (16 * j + i))
  unfolding zero_blocks
  get_elem?-zero_blocks zero j i h = absurd (omega arith)
  get_elem?-zero_blocks (suc count) j i h = elim (dec_lt i 16) [
    | yes p ↦ first p
    | no p ↦
        later (i - 16) (omega arith) (get_elem?-zero_blocks count (j + 1) (i - 16) (omega arith))
  ]
    where
      block : Bytes
      block = aes.encrypt key (counter_block aes key iv_prefix j)

      tail : Bytes
      tail = zero_blocks aes key iv_prefix count (j + 1)

      first : i < 16 → get_elem? (block ++ tail) i ≡ some (keystream_byte (16 * j + i))
      first p =
          let n = aes.encrypt_length key (counter_block aes key iv_prefix j) in
          let q : (16 * j + i) / 16 ≡ j = omega arith in
          let r : (16 * j + i) % 16 ≡ i = omega arith in
          get_elem?-append_left block tail i (omega arith)
          ∙ get_elem?-eq-get_or block i 0 (omega arith)
          ∙ rw (q, r) refl

      later :
          (k : ℕ)
          → i ≡ 16 + k
          → get_elem? tail k ≡ some (keystream_byte (16 * (j + 1) + k))
          → get_elem? (block ++ tail) i ≡ some (keystream_byte (16 * j + i))
      later k e rest =
          let n = aes.encrypt_length key (counter_block aes key iv_prefix j) in
          let at : i ≡ length block + k = omega arith in
          let pos : 16 * (j + 1) + k ≡ 16 * j + i = omega arith in
          ap (get_elem? (block ++ tail)) at
          ∙ get_elem?-append_right block tail k
          ∙ rest
          ∙ ap (λ t. some (keystream_byte t)) pos

  -- The first bytes of a run of keystream blocks, from a position inside its first block on.
  pub xor_stream-zero_blocks :
      (xs : Bytes) (count j k : ℕ)
      → k + length xs ≤ 16 * count
      → xor_stream xs (drop k (zero_blocks aes key iv_prefix count j)) ≡ crypt_at (16 * j + k) xs
  xor_stream-zero_blocks xs count j k h =
      xor_stream-eq-crypt_at xs (drop k (zero_blocks aes key iv_prefix count j)) (16 * j + k)
        λ i lt.
          let pos : 16 * j + (k + i) ≡ 16 * j + k + i = omega arith in
          get_elem?-drop k (zero_blocks aes key iv_prefix count j) i
          ∙ get_elem?-zero_blocks count j (k + i) (omega arith)
          ∙ ap (λ t. some (keystream_byte t)) pos
