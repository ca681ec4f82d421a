-- ===== src/Cipher/Lookup.antt =====
-- What the three lookups of the cipher registry return.
use open_pg_tde.Base.{ℕ, ◌≡◌, true, List, [], ◌∷◌, arith, Result, ok, err}
use open_pg_tde.Cipher.{
  TdeCipher, registry_init, by_key_len, by_id, has_keystream, builtin, cipher_key_length,
}

-- Both answers are errors, or the suite has the id and the key size.
abbrev pub SameCipher : ℕ → Result ℕ → Result TdeCipher → Type 0
SameCipher id (ok len) (ok c) = (c.id ≡ id) × (c.key_len ≡ len)
SameCipher id (err _) (err _) = Unit
SameCipher id _ _ = ⊥

-- A cipher id has a key size exactly when AesInit registers a suite for it, and then the suite
-- found by the id carries that id and that key size; every other id is refused by both functions.
pub by_id-key_length : (id : ℕ) → SameCipher id (cipher_key_length id) (by_id builtin id)
unfolding cipher_key_length by_id builtin registry_init
by_id-key_length id = ground arith

-- Whatever suites are registered, the lookup by key length returns one that has the key length
-- asked for and a keystream, so that a block-only suite is never used for the WAL.
pub by_key_len_sound :
    (cs : List TdeCipher) (key_len : ℕ) (c : TdeCipher)
    → by_key_len cs key_len ≡ ok c
    → (c.key_len ≡ key_len) × (has_keystream c ≡ true)
unfolding by_key_len
by_key_len_sound [] key_len c h = ground arith
by_key_len_sound (d ∷ ds) key_len c h = ground (arith, by_key_len_sound ds key_len c)
