-- ===== src/Wal/Crypt/Pointwise.antt =====
-- Two buffers combined byte by byte, by a function of the position.
use open_pg_tde.Base.{
  ℕ, zero, suc, ◌+◌, ◌≤◌, ◌<◌, ◌≡◌, refl, ap, ap₂, ◌∙◌, bit_xor, Bool, true, false, ◌&&◌, [], ◌∷◌,
  ◌++◌, arith, ltb, leb, if◌then◌else◌, Bytes, length, take, drop,
}
use open_pg_tde.Stream.{AesBlock}
use open_pg_tde.Stream.Keystream.{crypt_at, keystream_byte}

abbrev pub zip_at : (ℕ → ℕ → ℕ → ℕ) → ℕ → Bytes → Bytes → Bytes
zip_at f p [] os = []
zip_at f p (x ∷ xs) [] = []
zip_at f p (x ∷ xs) (o ∷ os) = f p x o ∷ zip_at f (p + 1) xs os

pub length-zip_at :
    (f : ℕ → ℕ → ℕ → ℕ) (p : ℕ) (xs os : Bytes)
    → length xs ≡ length os
    → length (zip_at f p xs os) ≡ length xs
length-zip_at f p [] os h = refl
length-zip_at f p (x ∷ xs) [] h = absurd (omega arith)
length-zip_at f p (x ∷ xs) (o ∷ os) h = ap suc (length-zip_at f (p + 1) xs os (omega arith))

pub zip_at_ext :
    (f g : ℕ → ℕ → ℕ → ℕ) (p : ℕ) (xs os : Bytes)
    → ((q x o : ℕ) → p ≤ q → q < p + length xs → f q x o ≡ g q x o)
    → zip_at f p xs os ≡ zip_at g p xs os
zip_at_ext f g p [] os h = refl
zip_at_ext f g p (x ∷ xs) [] h = refl
zip_at_ext f g p (x ∷ xs) (o ∷ os) h =
    ap₂ ◌∷◌ (h p x o (omega arith) (omega arith))
      (zip_at_ext f g (p + 1) xs os λ q y z a b. h q y z (omega arith) (omega arith))

-- a second pass into the same buffer, from the first source
pub zip_at_over :
    (f g k : ℕ → ℕ → ℕ → ℕ) (p : ℕ) (xs os : Bytes)
    → ((q x o : ℕ) → f q x (g q x o) ≡ k q x o)
    → zip_at f p xs (zip_at g p xs os) ≡ zip_at k p xs os
zip_at_over f g k p [] os h = refl
zip_at_over f g k p (x ∷ xs) [] h = refl
zip_at_over f g k p (x ∷ xs) (o ∷ os) h = ap₂ ◌∷◌ (h p x o) (zip_at_over f g k (p + 1) xs os h)

-- a second pass on one buffer
pub zip_at_twice :
    (f g k : ℕ → ℕ → ℕ → ℕ) (p : ℕ) (xs : Bytes)
    → ((q x : ℕ) → f q (g q x x) (g q x x) ≡ k q x x)
    → zip_at f p (zip_at g p xs xs) (zip_at g p xs xs) ≡ zip_at k p xs xs
zip_at_twice f g k p [] h = refl
zip_at_twice f g k p (x ∷ xs) h = ap₂ ◌∷◌ (h p x) (zip_at_twice f g k (p + 1) xs h)

pub zip_at_self :
    (f : ℕ → ℕ → ℕ → ℕ) (p : ℕ) (xs : Bytes) → ((q x : ℕ) → f q x x ≡ x) → zip_at f p xs xs ≡ xs
zip_at_self f p [] h = refl
zip_at_self f p (x ∷ xs) h = ap₂ ◌∷◌ (h p x) (zip_at_self f (p + 1) xs h)

pub zip_at_keep :
    (f : ℕ → ℕ → ℕ → ℕ) (p : ℕ) (xs os : Bytes)
    → length xs ≡ length os
    → ((q x o : ℕ) → p ≤ q → q < p + length xs → f q x o ≡ o)
    → zip_at f p xs os ≡ os
zip_at_keep f p [] [] l h = refl
zip_at_keep f p [] (o ∷ os) l h = absurd (omega arith)
zip_at_keep f p (x ∷ xs) [] l h = absurd (omega arith)
zip_at_keep f p (x ∷ xs) (o ∷ os) l h =
    ap₂ ◌∷◌ (h p x o (omega arith) (omega arith))
      (zip_at_keep f (p + 1) xs os (omega arith) λ q y z a b. h q y z (omega arith) (omega arith))

module _ (aes : AesBlock) (key iv_prefix : Bytes) where
  -- the stream cipher where a test holds, and the byte of the second buffer elsewhere
  abbrev pub crypt_where : (ℕ → Bool) → ℕ → ℕ → ℕ → ℕ
  crypt_where test q x o = if test q then bit_xor x (keystream_byte aes key iv_prefix q) else o

  -- inside the interval
  zip_inside :
      (test : ℕ → Bool) (n p : ℕ) (xs os : Bytes)
      → n ≤ length xs
      → length xs ≡ length os
      → ((q : ℕ) → p ≤ q → q < p + length xs → test q ≡ ltb q (p + n))
      → zip_at (crypt_where test) p xs os ≡ crypt_at aes key iv_prefix p (take n xs) ++ drop n os
  unfolding crypt_at
  zip_inside test zero p xs os a l h =
      zip_at_keep (crypt_where test) p xs os l
        λ q x o b c. let no : test q ≡ false = h q b c ∙ ground arith in rw no refl
  zip_inside test (suc n) p [] os a l h = absurd (omega arith)
  zip_inside test (suc n) p (x ∷ xs) [] a l h = absurd (omega arith)
  zip_inside test (suc n) p (x ∷ xs) (o ∷ os) a l h =
      let yes : test p ≡ true = h p (omega arith) (omega arith) ∙ ground arith in
      let shift : p + suc n ≡ p + 1 + n = omega arith in
      rw yes (
        ap (◌∷◌ (bit_xor x (keystream_byte aes key iv_prefix p))) (
          zip_inside test n (p + 1) xs os (omega arith) (omega arith)
            λ q b c. h q (omega arith) (omega arith) ∙ ap (ltb q) shift))

  -- The stream cipher applied to an interval, and spliced into the second buffer.
  pub zip_interval :
      (test : ℕ → Bool) (k n p : ℕ) (xs os : Bytes)
      → k + n ≤ length xs
      → length xs ≡ length os
      → ((q : ℕ) → p ≤ q → q < p + length xs → test q ≡ (leb (p + k) q && ltb q (p + k + n)))
      → zip_at (crypt_where test) p xs os
        ≡ take k os ++ (crypt_at aes key iv_prefix (p + k) (take n (drop k xs)) ++ drop (k + n) os)
  zip_interval test zero n p xs os a l h =
      let z : p + 0 ≡ p = omega arith in
      let z' : 0 + n ≡ n = omega arith in
      rw (z, z') (zip_inside test n p xs os (omega arith) l λ q b c. h q b c ∙ ground arith)
  zip_interval test (suc k) n p [] os a l h = absurd (omega arith)
  zip_interval test (suc k) n p (x ∷ xs) [] a l h = absurd (omega arith)
  zip_interval test (suc k) n p (x ∷ xs) (o ∷ os) a l h =
      let no : test p ≡ false = h p (omega arith) (omega arith) ∙ ground arith in
      let shift : p + suc k ≡ p + 1 + k = omega arith in
      let whole : suc k + n ≡ suc (k + n) = omega arith in
      rw (no, shift, whole)
        (ap (◌∷◌ o) (
          zip_interval test k n (p + 1) xs os (omega arith) (omega arith)
            λ q b c. h q (omega arith) (omega arith) ∙ rw shift refl))
