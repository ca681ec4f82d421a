-- ===== src/Wal/Created.antt =====
-- open_pg_tde_create_wal_range: what it adds to the file can be read.
use open_pg_tde.Base.{
  ℕ, ◌≡◌, refl, ◌∙◌, ◌⊎◌, inl, inr, arith, Bytes, length, some, [], ◌∷◌, ◌++◌, ok, bind_eq, pure,
  ltb, false,
}
use open_pg_tde.Cipher.{TdeCipher, by_key_len, builtin, registry_init, cipher_key_length}
use open_pg_tde.Keys.{
  Gcms, PrincipalKey, Random, rand_bytes, generate_internal_key, sign_principal_key_info,
}
use open_pg_tde.KeyMap.Entry.{IsKey}
use open_pg_tde.Wal.Range.{
  WalEncryptionRangeType, WalEncryptionRange, no_location, max_location, seal_wal_entry,
  initialize_wal_key_file_entry,
}
use open_pg_tde.Wal.Ranges.{WalKeys, wal_random, write_wal_key_file_entry, create_wal_range}

-- the suite of a WAL key length
pub wal_suite :
    (key_len : ℕ)
    → (key_len ≡ 16) ⊎ (key_len ≡ 32)
    → (suite : TdeCipher) × (by_key_len builtin key_len ≡ ok suite)
      × (cipher_key_length suite.id ≡ ok key_len)
unfolding by_key_len builtin registry_init cipher_key_length
wal_suite key_len (inl h) = rw h (_, refl, refl)
wal_suite key_len (inr h) = rw h (_, refl, refl)

module _ (gcm : Gcms) (pk : PrincipalKey) (type : WalEncryptionRangeType) (key_len : ℕ)
    (aes_key : (key_len ≡ 16) ⊎ (key_len ≡ 32)) (key iv sign_iv entry_iv : Bytes) (rest : Random)
    (sized : length key ≡ key_len) where
  -- the range that is created
  abbrev pub new_range : WalEncryptionRange
  new_range = record {
    type = type;
    key = record {
      key_len = key_len;
      cipher = (wal_suite key_len aes_key).0.id;
      base_iv = iv;
      key = key;
    };
    start = no_location;
    end_loc = max_location;
  }

  pub new_range-IsKey : IsKey new_range.key
  new_range-IsKey = record { known = (wal_suite key_len aes_key).2; sized = sized }

  key_fits : ltb 32 key_len ≡ false
  key_fits = ground (arith, aes_key)

  write_lem :
      (s : WalKeys)
      → s.rand ≡ sign_iv ∷ entry_iv ∷ rest
      → write_wal_key_file_entry gcm pk new_range s ≡ (
        ok tt,
        record s {
          entries = s.entries ++ seal_wal_entry gcm pk new_range entry_iv ∷ [];
          rand = rest;
        },
      )
  unfolding write_wal_key_file_entry sign_principal_key_info initialize_wal_key_file_entry
      rand_bytes
  write_lem s r = rw r (rw (key_fits, initialize_wal_key_file_entry) refl)

  generate_lem :
      generate_internal_key (wal_suite key_len aes_key).0.id (key ∷ iv ∷ sign_iv ∷ entry_iv ∷ rest)
      ≡ ok (new_range.key, sign_iv ∷ entry_iv ∷ rest)
  unfolding generate_internal_key rand_bytes
  generate_lem = rw (wal_suite key_len aes_key).2 refl

  pub create_wal_range_lem :
      (s : WalKeys)
      → s.rand ≡ key ∷ iv ∷ sign_iv ∷ entry_iv ∷ rest
      → create_wal_range gcm builtin (some pk) type key_len s ≡ (
        ok new_range,
        record s {
          entries = s.entries ++ seal_wal_entry gcm pk new_range entry_iv ∷ [];
          rand = rest;
        },
      )
  unfolding create_wal_range
  create_wal_range_lem s r =
      let t : WalKeys = record s { rand = sign_iv ∷ entry_iv ∷ rest } in
      let keyed : wal_random (generate_internal_key (wal_suite key_len aes_key).0.id) s
          ≡ (ok new_range.key, t) =
        rw (r, wal_random) (rw (generate_lem, wal_random) refl) in
      rw (wal_suite key_len aes_key).1 (
        bind_eq (wal_random (generate_internal_key (wal_suite key_len aes_key).0.id)) _ s t
          new_range.key keyed
        ∙ bind_eq (write_wal_key_file_entry gcm pk new_range) (λ u. pure new_range) t _ tt
            (write_lem t refl))
