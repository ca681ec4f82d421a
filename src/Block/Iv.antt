-- ===== src/Block/Iv.antt =====
-- The tweak of a block identifies its place in the relation.
use open_pg_tde.Base.{
  ℕ, ◌^◌, ◌<◌, ◌≡◌, refl, ap, ap₂, ◌↔◌, [], ◌∷◌, arith, Bytes, get_or, xor_cancel,
}
use open_pg_tde.Block.{iv_fork, xor_bytes, block_position, calc_block_iv}

xor_bytes-injective : (xs ys base : Bytes) → xor_bytes xs base ≡ xor_bytes ys base → xs ≡ ys
unfolding xor_bytes
xor_bytes-injective [] [] base h = refl
xor_bytes-injective [] (y ∷ ys) [] h = cc
xor_bytes-injective [] (y ∷ ys) (b ∷ bs) h = cc
xor_bytes-injective (x ∷ xs) [] [] h = cc
xor_bytes-injective (x ∷ xs) [] (b ∷ bs) h = cc
xor_bytes-injective (x ∷ xs) (y ∷ ys) [] h = h
xor_bytes-injective (x ∷ xs) (y ∷ ys) (b ∷ bs) h =
    ap₂ ◌∷◌ (xor_cancel x y b (cc h)) (xor_bytes-injective xs ys bs (cc h))

iv_fork-lt : (f : ℕ) → f < 256 → iv_fork f < 256
unfolding iv_fork
iv_fork-lt f h = ground arith

-- Under one base IV two blocks, of forks below 256 and with 32-bit numbers, have the same tweak
-- exactly when they have the same number and lie in the same fork, the init fork counting as the
-- main fork.
pub calc_block_iv-injective :
    (base : Bytes) (f g bn bm : ℕ)
    → f < 256
    → g < 256
    → bn < 2 ^ 32
    → bm < 2 ^ 32
    → (calc_block_iv f bn base ≡ calc_block_iv g bm base) ↔ ((iv_fork f ≡ iv_fork g) × (bn ≡ bm))
unfolding calc_block_iv block_position
calc_block_iv-injective base f g bn bm hf hg hn hm = (
  λ e.
      let p = xor_bytes-injective (block_position f bn) (block_position g bm) base e in
      let at = λ (i : ℕ). ap (λ l. get_or l i 0) p in
      (
        omega (arith, at 7, iv_fork-lt f hf, iv_fork-lt g hg),
        omega (arith, at 12, at 13, at 14, at 15),
      ),
  λ e. cc (e.0, e.1),
)
