-- ===== src/Stream/Batches.antt =====
-- The loop over batches of keystream computes the encryption by absolute position.
use Prim.Native.Nat.{min}
use native.Mathlib.Decide.{dec_lt}
use open_pg_tde.Base.{
  ℕ, zero, suc, ◌+◌, ◌-◌, ◌*◌, ◌/◌, ◌%◌, ◌^◌, ◌≤◌, ◌<◌, ◌≡◌, refl, sym, ap, ◌∙◌, [], ◌++◌, arith,
  ltb, if◌then◌else◌, Bytes, length, take, drop, take-append-drop, drop_all, drop-drop, length-drop,
  length-take, lt→ltb,
}
use open_pg_tde.Stream.{AesBlock, zero_blocks, xor_stream, batch_bytes, batches, crypt_blocks}
use open_pg_tde.Stream.Keystream.{crypt_at, crypt_at-append, xor_stream-zero_blocks}

-- A batch that is not the last is used up, and the last one ends with the data.
batch_bytes_inner :
    (len blocks off di : ℕ)
    → off ≤ blocks * 16
    → di + (blocks * 16 - off) ≤ len
    → len < 2 ^ 32
    → batch_bytes len blocks off di ≡ blocks * 16 - off
unfolding batch_bytes
batch_bytes_inner len blocks off di p q r = ground arith

batch_bytes_last :
    (len blocks off di : ℕ)
    → off ≤ blocks * 16
    → len ≤ di + (blocks * 16 - off)
    → di ≤ len
    → di + (blocks * 16 - off) < 2 ^ 32
    → batch_bytes len blocks off di ≡ len - di
unfolding batch_bytes
batch_bytes_last len blocks off di p q r s = ground arith

module _ (aes : AesBlock) (key iv_prefix : Bytes) (plain : Bytes) (block_no E : ℕ) where
  abbrev go : ℕ → ℕ → ℕ → ℕ → Bytes
  go = batches aes key iv_prefix plain block_no E

  abbrev offset : ℕ → ℕ
  offset bn = if ltb 0 bn then 0 else block_no

  go_stop : (rounds bs bn di : ℕ) → E ≤ bs → go rounds bs bn di ≡ []
  unfolding batches
  go_stop zero bs bn di h = refl
  go_stop (suc rounds) bs bn di h = ground arith

  -- one round, with the number of bytes that it takes given
  go_round :
      (rounds bs bn di blocks bytes : ℕ)
      → bs < E
      → min (bs + 200) E - bs ≡ blocks
      → batch_bytes (length plain) blocks (offset bn) di ≡ bytes
      → go (suc rounds) bs bn di
        ≡ xor_stream
            (take bytes (drop di plain))
            (drop (offset bn) (zero_blocks aes key iv_prefix blocks bs))
          ++ go rounds (bs + 200) (bn + 1) (di + bytes)
  unfolding batches
  go_round rounds bs bn di blocks bytes lt e f = rw (lt→ltb bs E lt, e, f) refl

  abbrev at : ℕ → Bytes → Bytes
  at = crypt_at aes key iv_prefix

  crypt_at_split :
      (p di n : ℕ)
      → n ≤ length plain - di
      → at p (take n (drop di plain)) ++ at (p + n) (drop (di + n) plain) ≡ at p (drop di plain)
  crypt_at_split p di n h =
      let len : length (take n (drop di plain)) ≡ n =
        omega (arith, length-take n (drop di plain), length-drop di plain) in
      sym (
        ap (at p) (sym (take-append-drop n (drop di plain)))
        ∙ crypt_at-append aes key iv_prefix p (take n (drop di plain)) (drop n (drop di plain))
        ∙ rw (len, drop-drop di n plain) refl)

  crypt_at_nothing : (p n : ℕ) → length plain ≤ n → at p (drop n plain) ≡ []
  unfolding crypt_at
  crypt_at_nothing p n h = rw (drop_all n plain h) refl

  go_done :
      (start rounds bs bn di : ℕ)
      → 16 * bs + offset bn ≡ start + di
      → start + length plain ≤ 16 * E
      → E ≤ bs
      → di ≤ length plain
      → go rounds bs bn di ≡ at (start + di) (drop di plain)
  go_done start rounds bs bn di pos lo stop below =
      go_stop rounds bs bn di stop ∙ sym (crypt_at_nothing (start + di) di (omega arith))

  offset_next : (bn : ℕ) → offset (bn + 1) ≡ 0
  offset_next bn = ground arith

  -- what a round writes, and the rest
  piece :
      (start bs bn di blocks bytes : ℕ) {rest : Bytes}
      → 16 * bs + offset bn ≡ start + di
      → offset bn < 16
      → offset bn + bytes ≤ 16 * blocks
      → bytes ≤ length plain - di
      → rest ≡ at (start + (di + bytes)) (drop (di + bytes) plain)
      → xor_stream
            (take bytes (drop di plain))
            (drop (offset bn) (zero_blocks aes key iv_prefix blocks bs))
          ++ rest
        ≡ at (start + di) (drop di plain)
  piece start bs bn di blocks bytes {rest} pos off enough below e =
      let len : length (take bytes (drop di plain)) ≡ bytes =
        omega (arith, length-take bytes (drop di plain), length-drop di plain) in
      let assoc : start + (di + bytes) ≡ start + di + bytes = omega arith in
      rw
        (
          xor_stream-zero_blocks aes key iv_prefix (take bytes (drop di plain)) blocks bs
              (offset bn) (omega arith),
          pos,
          e,
          assoc,
        )
        (crypt_at_split (start + di) di bytes below)

  go-eq-crypt_at :
      (start rounds bs bn di : ℕ)
      → 16 * bs + offset bn ≡ start + di
      → offset bn < 16
      → start + length plain ≤ 16 * E
      → 16 * E < start + length plain + 16
      → start + length plain + 15 < 2 ^ 32
      → E ≤ bs + rounds
      → di ≤ length plain
      → go rounds bs bn di ≡ at (start + di) (drop di plain)
  go-eq-crypt_at start zero bs bn di pos off lo hi fits more below =
      go_done start 0 bs bn di pos lo (omega arith) below
  go-eq-crypt_at start (suc rounds) bs bn di pos off lo hi fits more below = elim (dec_lt bs E) [
    | no p ↦ go_done start (suc rounds) bs bn di pos lo (omega arith) below
    | yes p ↦ elim (dec_lt (bs + 200) E) [
      | yes q ↦
          let bytes = 200 * 16 - offset bn in
          let later = offset_next bn in
          go_round rounds bs bn di 200 bytes p (omega arith) (
            batch_bytes_inner (length plain) 200 (offset bn) di (omega arith) (omega arith)
              (omega arith))
          ∙ piece start bs bn di 200 bytes pos off (omega arith) (omega arith) (
              go-eq-crypt_at start rounds (bs + 200) (bn + 1) (di + bytes) (omega (arith, later))
                (omega (arith, later)) lo hi fits (omega arith) (omega arith))
      | no q ↦
          let bytes = length plain - di in
          let all : di + bytes ≡ length plain = omega arith in
          go_round rounds bs bn di (E - bs) bytes p (omega arith) (
            batch_bytes_last (length plain) (E - bs) (offset bn) di (omega arith) (omega arith)
              (omega arith) (omega arith))
          ∙ piece start bs bn di (E - bs) bytes pos off (omega arith) (omega arith) (
              go_stop rounds (bs + 200) (bn + 1) (di + bytes) (omega arith)
              ∙ sym (crypt_at_nothing (start + (di + bytes)) (di + bytes) (omega arith)))
    ]
  ]

module _ (aes : AesBlock) (key iv_prefix : Bytes) where
  pub crypt_blocks-eq-crypt_at :
      (start : ℕ) (plain : Bytes)
      → start + length plain + 15 < 2 ^ 32
      → crypt_blocks aes key iv_prefix start plain ≡ crypt_at aes key iv_prefix start plain
  unfolding crypt_blocks
  crypt_blocks-eq-crypt_at start plain h =
      let E = (start + length plain + 15) % 2 ^ 32 / 16 in
      let whole : E ≡ (start + length plain + 15) / 16 = omega arith in
      go-eq-crypt_at aes key iv_prefix plain (start % 16) E start (E - start / 16) (start / 16) 0 0
        (omega arith) (omega arith) (omega arith) (omega arith) h (omega arith) (omega arith)
      ∙ ap (λ p. crypt_at aes key iv_prefix p plain) (omega arith)
