-- ===== src/Base/Monad.antt =====
-- Server code that changes a state and may raise an error. `ereport(ERROR)` and `ereport(FATAL)`
-- leave the function at once; what was written before stays written, so the state is returned
-- beside the error too.
use mathlib.Core.Path.{◌≡◌, refl, ap}
use mathlib.Core.Logic.{◌⊎◌, inl, inr}

-- the errors that the modelled code raises, one for each message
pub data Error : Type 0 where
  principal_key_not_configured : Error
  no_random_bytes : Error
  wrong_file_version : Error
  corrupted_file : Error
  could_not_open : Error
  decryption_failed : Error
  unknown_cipher : Error
  no_keystream_cipher : Error
  unsupported_old_version : Error
  wal_key_too_long : Error
  missing_entry : Error
  bad_key_length : Error
  cipher_init_failed : Error
  duplicate_provider : Error
  provider_id_out_of_range : Error
  provider_missing : Error
  provider_id_mismatch : Error
  provider_in_use : Error
  invalid_provider : Error
  permission_denied : Error
  keyring_missing : Error
  key_missing : Error
  key_verification_failed : Error
  principal_key_missing : Error
  principal_key_in_use : Error
  key_mismatch : Error
  global_providers_disabled : Error
  key_name_is_null : Error
  provider_name_is_null : Error
  name_too_short : Error
  name_too_long : Error
  key_exists : Error

pub data Result {ℓ} (A : Type ℓ) : Type ℓ where
  ok : A → Result A
  err : Error → Result A

abbrev pub Exec : Type 0 → Type 0 → Type 0
Exec S A = S → Result A × S

module _ {S A : Type 0} where
  abbrev pub pure : A → Exec S A
  pure a s = (ok a, s)

  abbrev pub raise : Error → Exec S A
  raise e s = (err e, s)

  abbrev pub gets : (S → A) → Exec S A
  gets f s = (ok (f s), s)

  abbrev pub lift : Result A → Exec S A
  lift r s = (r, s)

module _ {S A B : Type 0} where
  abbrev pub resume : Result A → (A → Exec S B) → Exec S B
  resume (ok a) f s = f a s
  resume (err e) f s = (err e, s)

  infixl 10 ◌>>=◌
  abbrev pub ◌>>=◌ : Exec S A → (A → Exec S B) → Exec S B
  ◌>>=◌ m f s = resume (m s).0 f (m s).1

  -- A step that succeeds is followed by the rest, run in the state it leaves.
  pub bind_ok :
      (m : Exec S A) (f : A → Exec S B) (s : S) (a : A) → (m s).0 ≡ ok a → (m >>= f) s ≡ f a (m s).1
  bind_ok m f s a h = ap (λ r. resume r f (m s).1) h

  pub bind_eq :
      (m : Exec S A) (f : A → Exec S B) (s t : S) (a : A) → m s ≡ (ok a, t) → (m >>= f) s ≡ f a t
  bind_eq m f s t a h = ap (λ p. resume p.0 f p.1) h

module _ {S B : Type 0} where
  infixl 10 ◌>>◌
  abbrev pub ◌>>◌ : Exec S Unit → Exec S B → Exec S B
  m >> k = m >>= λ _. k

module _ {S : Type 0} where
  abbrev pub modify : (S → S) → Exec S Unit
  modify f s = (ok tt, f s)

module _ {A B : Type 0} where
  -- a chain of fallible steps without a state
  abbrev pub and_then : Result A → (A → Result B) → Result B
  and_then (ok a) f = f a
  and_then (err e) f = err e

pub Result-cases {ℓ} :
    {A : Type ℓ} (r : Result A) → ((a : A) × (r ≡ ok a)) ⊎ ((e : Error) × (r ≡ err e))
Result-cases (ok a) = inl (a, refl)
Result-cases (err e) = inr (e, refl)
