-- ===== src/Base/Words.antt =====
-- C integers as native numbers: casts, shifts, and the bytes of an integer in memory.
use Prim.Native.Nat.{ℕ, zero, suc, ◌*◌, ◌/◌, ◌%◌, ◌^◌, ◌<◌}
use mathlib.Core.Path.{◌≡◌}
use native.Mathlib.Omega.{arith}
use mathlib.Core.List.{List, [], ◌∷◌, ◌++◌}

-- A byte is a number below 256, and a buffer of bytes is a list.
abbrev pub Bytes : Type 0
Bytes = List ℕ

abbrev pub u8 : ℕ → ℕ
u8 n = n % 2 ^ 8

abbrev pub u32 : ℕ → ℕ
u32 n = n % 2 ^ 32

abbrev pub u64 : ℕ → ℕ
u64 n = n % 2 ^ 64

abbrev pub u128 : ℕ → ℕ
u128 n = n % 2 ^ 128

-- x >> k
abbrev pub shr : ℕ → ℕ → ℕ
shr x k = x / 2 ^ k

-- `k` bytes of an integer as a little-endian CPU lays them out
unfoldable pub le_bytes : ℕ → ℕ → Bytes
le_bytes zero n = []
le_bytes (suc k) n = n % 256 ∷ le_bytes k (n / 256)

-- `k` bytes, zero-filled (memset)
abbrev pub zeros : ℕ → Bytes
zeros zero = []
zeros (suc k) = 0 ∷ zeros k

quotient_lt : (k a : ℕ) → a < 256 ^ suc k → a / 256 < 256 ^ k
quotient_lt k a h =
    let c = 256 ^ k in let e : 256 ^ suc k ≡ 256 * c = omega arith in omega (arith, e, h)

-- The bytes tell an integer that fits in them.
pub le_bytes-injective :
    (k a b : ℕ) → a < 256 ^ k → b < 256 ^ k → le_bytes k a ≡ le_bytes k b → a ≡ b
unfolding le_bytes
le_bytes-injective zero a b ha hb h = omega arith
le_bytes-injective (suc k) a b ha hb h =
    let low : a % 256 ≡ b % 256 = cc h in
    let high : a / 256 ≡ b / 256 =
      le_bytes-injective k (a / 256) (b / 256) (quotient_lt k a ha) (quotient_lt k b hb) (cc h) in
    omega (arith, low, high)

-- They also tell it at the front of a longer list of bytes.
pub le_bytes-prefix :
    (k a b : ℕ) (xs ys : Bytes)
    → a < 256 ^ k
    → b < 256 ^ k
    → le_bytes k a ++ xs ≡ le_bytes k b ++ ys
    → (a ≡ b) × (xs ≡ ys)
unfolding le_bytes
le_bytes-prefix zero a b xs ys ha hb h = (omega arith, h)
le_bytes-prefix (suc k) a b xs ys ha hb h =
    let low : a % 256 ≡ b % 256 = cc h in
    let (high, same) =
      le_bytes-prefix k (a / 256) (b / 256) xs ys (quotient_lt k a ha) (quotient_lt k b hb)
        (cc h) in
    (omega (arith, low, high), same)
