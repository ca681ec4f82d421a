-- ===== src/Wal/Ranges.antt =====
-- The operations on the WAL key file and on the cache of ranges.
use open_pg_tde.Base.{
  ℕ, Bool, true, false, ◌&&◌, not, Option, none, some, List, [], ◌∷◌, ◌++◌, if◌then◌else◌, zeros,
  Result, ok, err, principal_key_not_configured, Exec, pure, raise, lift, gets, modify, ◌>>=◌, ◌>>◌,
}
use open_pg_tde.Cipher.{TdeCipher, by_key_len}
use open_pg_tde.Keys.{Gcms, PrincipalKey, Random, generate_internal_key, sign_principal_key_info}
use open_pg_tde.Wal.Range.{
  WalEncryptionRangeType, is_invalid, WalLocation, wal_location_cmp, is_before, wal_location_valid,
  no_location, max_location, WalEncryptionRange, WalKeyFileEntry, initialize_wal_key_file_entry,
  wal_range_from_entry, invalid,
}

-- The WAL key file's entries, the cache in the order of its list, and the random source.
pub record WalKeys : Type 0 where
  pub entries : List WalKeyFileEntry
  pub cache : List WalEncryptionRange
  pub rand : Random

abbrev pub wal_random : {A : Type 0} → (Random → Result (A × Random)) → Exec WalKeys A
wal_random f s = elim (f s.rand) [
  | err e ↦ (err e, s)
  | ok (a, rest) ↦ (ok a, record s { rand = rest })
]

-- open_pg_tde_write_wal_key_file_entry: the entry is added at the end of the file
unfoldable pub write_wal_key_file_entry :
    Gcms → PrincipalKey → WalEncryptionRange → Exec WalKeys Unit
unfolding sign_principal_key_info initialize_wal_key_file_entry
write_wal_key_file_entry gcm pk range = do
  signed ← wal_random (sign_principal_key_info gcm pk)
  e ← wal_random (initialize_wal_key_file_entry gcm pk range)
  modify (λ s. record s { entries = s.entries ++ e ∷ [] })

-- open_pg_tde_create_wal_range, over the registered suites
unfoldable pub create_wal_range :
    Gcms
    → List TdeCipher
    → Option PrincipalKey
    → WalEncryptionRangeType
    → ℕ
    → Exec WalKeys WalEncryptionRange
unfolding generate_internal_key write_wal_key_file_entry
create_wal_range gcm ciphers none range_type key_len = raise principal_key_not_configured
create_wal_range gcm ciphers (some pk) range_type key_len = do
  suite ← lift (by_key_len ciphers key_len)
  key ← wal_random (generate_internal_key suite.id)
  let range : WalEncryptionRange = record {
    type = range_type;
    key = key;
    start = no_location;
    end_loc = max_location;
  }
  write_wal_key_file_entry gcm pk range
  pure range

-- open_pg_tde_add_wal_range_to_cache: the end of the range that was last becomes the start of the new one
unfoldable pub add_wal_range_to_cache :
    WalEncryptionRange → List WalEncryptionRange → List WalEncryptionRange
add_wal_range_to_cache range [] = range ∷ []
add_wal_range_to_cache range (r ∷ []) = record r { end_loc = range.start } ∷ range ∷ []
add_wal_range_to_cache range (r ∷ next ∷ rest) = r ∷ add_wal_range_to_cache range (next ∷ rest)

-- the test for the entries that open_pg_tde_fetch_wal_keys takes
unfoldable pub is_wanted : WalLocation → WalKeyFileEntry → Bool
unfolding wal_location_valid wal_location_cmp
is_wanted start e =
    not (is_invalid e.range_type)
    && (wal_location_valid e.range_start && not (is_before (wal_location_cmp e.range_start start)))

-- the loop of open_pg_tde_fetch_wal_keys
unfoldable pub fetch_entries :
    Gcms → PrincipalKey → WalLocation → List WalKeyFileEntry → Exec WalKeys Unit
unfolding is_wanted wal_range_from_entry add_wal_range_to_cache
fetch_entries gcm pk start [] = pure tt
fetch_entries gcm pk start (e ∷ es) = elim (is_wanted start e) [
  | true ↦ do
    range ← lift (wal_range_from_entry gcm pk e)
    modify (λ s. record s { cache = add_wal_range_to_cache range s.cache })
    fetch_entries gcm pk start es
  | false ↦ fetch_entries gcm pk start es
]

-- the range that stands in for a file without keys
abbrev pub stub_range : WalEncryptionRange
stub_range = record {
  type = invalid;
  key = record { key_len = 0; cipher = 0; base_iv = zeros 16; key = zeros 64 };
  start = no_location;
  end_loc = max_location;
}

unfoldable pub fetch_found :
    Gcms → PrincipalKey → WalLocation → List WalKeyFileEntry → Exec WalKeys Unit
unfolding fetch_entries
fetch_found gcm pk start [] =
    modify (λ s. record s { cache = add_wal_range_to_cache stub_range s.cache })
fetch_found gcm pk start (e ∷ es) = fetch_entries gcm pk start (e ∷ es)

-- open_pg_tde_fetch_wal_keys; the record that it returns, the first one added, is not given
unfoldable pub fetch_wal_keys : Gcms → Option PrincipalKey → WalLocation → Exec WalKeys Unit
unfolding fetch_found
fetch_wal_keys gcm none start = pure tt
fetch_wal_keys gcm (some pk) start = do es ← gets (λ s. s.entries); fetch_found gcm pk start es

-- An entry that overlaps the location of the one behind it is invalidated.
unfoldable pub invalidate : WalLocation → WalKeyFileEntry → WalKeyFileEntry
unfolding wal_location_cmp
invalidate loc prev =
    if is_before (wal_location_cmp prev.range_start loc)
    then prev
    else record prev { range_type = invalid }

-- open_pg_tde_wal_last_range_set_location on the entries of the file. It is called when the file has
-- an entry, the one of the current range.
unfoldable pub last_range_set_location : WalLocation → List WalKeyFileEntry → List WalKeyFileEntry
unfolding invalidate
last_range_set_location loc [] = []
last_range_set_location loc (e ∷ []) = record e { range_start = loc } ∷ []
last_range_set_location loc (prev ∷ e ∷ []) =
    invalidate loc prev ∷ record e { range_start = loc } ∷ []
last_range_set_location loc (d ∷ prev ∷ e ∷ es) = d ∷ last_range_set_location loc (prev ∷ e ∷ es)
