-- ===== src/Wal/Cached.antt =====
-- The cache of WAL ranges.
use open_pg_tde.Base.{
  ℕ, take, Bytes, and_then, ◌≡◌, refl, sym, ap, ◌∙◌, inl, inr, Bool-cases, Option, none, some, List,
  [], ◌∷◌, Result, ok, err, Result-cases,
}
use open_pg_tde.Cipher.{cipher_key_length}
use open_pg_tde.Keys.{Gcms, PrincipalKey, aes_gcm_decrypt}
use open_pg_tde.Wal.Range.{
  WalLocation, WalEncryptionRange, WalKeyFileEntry, max_location, opened_range,
  wal_range_from_entry, wal_entry_aad,
}
use open_pg_tde.Wal.Ranges.{
  WalKeys, stub_range, add_wal_range_to_cache, is_wanted, fetch_entries, fetch_found,
  fetch_wal_keys,
}

-- Each range ends where the next one starts, and the last one has no end.
pub data Chained : List WalEncryptionRange → Type 0 where
  no_ranges : Chained []
  last_range : {r : WalEncryptionRange} → r.end_loc ≡ max_location → Chained (r ∷ [])
  linked :
      {r next : WalEncryptionRange} {rest : List WalEncryptionRange}
      → r.end_loc ≡ next.start
      → Chained (next ∷ rest)
      → Chained (r ∷ next ∷ rest)

pub add_wal_range_to_cache-Chained :
    (range : WalEncryptionRange) (cache : List WalEncryptionRange)
    → range.end_loc ≡ max_location
    → Chained cache
    → Chained (add_wal_range_to_cache range cache)
unfolding add_wal_range_to_cache
add_wal_range_to_cache-Chained range _ h no_ranges = last_range h
add_wal_range_to_cache-Chained range _ h (last_range p) = linked refl (last_range h)
add_wal_range_to_cache-Chained range _ h (linked {r = r} {next = next} {rest = []} p c) =
    linked p (add_wal_range_to_cache-Chained range (next ∷ []) h c)
add_wal_range_to_cache-Chained range _ h (linked {r = r} {next = next} {rest = x ∷ xs} p c) =
    linked p (add_wal_range_to_cache-Chained range (next ∷ x ∷ xs) h c)

opened_range_end :
    (n : ℕ) (e : WalKeyFileEntry) (o : Option Bytes) (r : WalEncryptionRange)
    → opened_range n e o ≡ ok r
    → r.end_loc ≡ max_location
unfolding opened_range
opened_range_end n e none r h = absurd (cc h)
opened_range_end n e (some key) r h = cc h

wal_range_from_entry_end :
    (gcm : Gcms) (pk : PrincipalKey) (e : WalKeyFileEntry) (r : WalEncryptionRange)
    → wal_range_from_entry gcm pk e ≡ ok r
    → r.end_loc ≡ max_location
unfolding wal_range_from_entry
wal_range_from_entry_end gcm pk e r h =
    let decrypted : ℕ → Option Bytes = λ n.
      aes_gcm_decrypt gcm pk.key_data pk.key_length e.entry_iv (wal_entry_aad e)
        (take n e.encrypted_key_data) e.aead_tag in
    let range : Result ℕ → Result WalEncryptionRange =
      λ c. and_then c λ n. opened_range n e (decrypted n) in
    elim (Result-cases (cipher_key_length e.cipher)) [
      | inl (n, p) ↦ opened_range_end n e (decrypted n) r (sym (ap range p) ∙ h)
      | inr (x, p) ↦ let clash : err x ≡ ok r = sym (ap range p) ∙ h in absurd (cc clash)
    ]

fetch_entries-Chained :
    (gcm : Gcms) (pk : PrincipalKey) (start : WalLocation) (es : List WalKeyFileEntry) (s : WalKeys)
    → Chained s.cache
    → Chained (fetch_entries gcm pk start es s).1.cache
unfolding fetch_entries
fetch_entries-Chained gcm pk start [] s c = c
fetch_entries-Chained gcm pk start (e ∷ es) s c = elim (Bool-cases (is_wanted start e)) [
  | inr p ↦ rw (p, fetch_entries) (fetch_entries-Chained gcm pk start es s c)
  | inl p ↦ elim (Result-cases (wal_range_from_entry gcm pk e)) [
    | inl (r, q) ↦
        let t : WalKeys = record s { cache = add_wal_range_to_cache r s.cache } in
        let added =
          add_wal_range_to_cache-Chained r s.cache (wal_range_from_entry_end gcm pk e r q) c in
        rw (p, fetch_entries) (rw q (fetch_entries-Chained gcm pk start es t added))
    | inr (x, q) ↦ rw (p, fetch_entries) (rw q c)
  ]
]

fetch_found_lem :
    (gcm : Gcms) (pk : PrincipalKey) (start : WalLocation) (es : List WalKeyFileEntry) (s : WalKeys)
    → Chained s.cache
    → Chained (fetch_found gcm pk start es s).1.cache
unfolding fetch_found
fetch_found_lem gcm pk start [] s c = add_wal_range_to_cache-Chained stub_range s.cache refl c
fetch_found_lem gcm pk start (e ∷ es) s c = fetch_entries-Chained gcm pk start (e ∷ es) s c

-- Fetching keys keeps the cached ranges chained, whatever the file holds and an error in the middle
-- included: each range ends where the next one starts, and the last one has no end.
pub fetch_wal_keys-Chained :
    (gcm : Gcms) (pk : Option PrincipalKey) (start : WalLocation) (s : WalKeys)
    → Chained s.cache
    → Chained (fetch_wal_keys gcm pk start s).1.cache
unfolding fetch_wal_keys
fetch_wal_keys-Chained gcm none start s c = c
fetch_wal_keys-Chained gcm (some pk) start s c = fetch_found_lem gcm pk start s.entries s c
