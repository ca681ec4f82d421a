-- ===== src/Wal/File/Migrated.antt =====
-- Migrating a WAL key file of version 1 or 2.
use open_pg_tde.Base.{
  ℕ, ◌≤◌, ◌≡◌, refl, ap, ◌∙◌, ◌⊎◌, inl, inr, some, none, List, [], ◌∷◌, arith, false, Bytes, length,
  ok, Exec, modify, bind_eq, bind_ok, ◌>>◌, ◌==◌,
}
use open_pg_tde.Keys.{Gcms, PrincipalKey, Random, signed_with, sign_principal_key_info}
use open_pg_tde.KeyMap.Layout.{filemagic_version}
use open_pg_tde.Wal.Range.{WalEncryptionRange, WalKeyFileEntry, wal_range_from_entry}
use open_pg_tde.Wal.File.{
  WalKeyFileEntryV1, WalKeyFileEntryV2, WalKeyFileHeader, WalBody, current, v1, v2, keyed, WalDir,
  wal_dir_random, header_only, wal_key_file_magic,
}
use open_pg_tde.Wal.File.Server.{get_server_key_info}
use open_pg_tde.Wal.File.Rewrite.{
  wal_range_from_entry_v1, wal_range_from_entry_v2, open_temporary, replace_keys, migrate_body,
  migrate_old, migrate_versioned, update_found, update_wal_keys_file,
}
use open_pg_tde.Wal.File.Rewritten.{Opens, rewrite_entries-Opens, open_temporary_lem, sign_step}
use open_pg_tde.Wal.File.Rotated.{rewritten_file, rewritten_info}

-- A file of version 1 or 2, whose entries the principal key opens to these ranges.
pub data IsOld (gcm : Gcms) (pk : PrincipalKey)
    : WalKeyFileHeader → WalBody → ℕ → List WalEncryptionRange → Type 0 where
  is_v1 :
      {h : WalKeyFileHeader} {es : List WalKeyFileEntryV1} {rs : List WalEncryptionRange}
      → filemagic_version h.file_version ≡ 1
      → Opens (wal_range_from_entry_v1 gcm pk) es rs
      → IsOld gcm pk h (v1 es) (length es) rs
  is_v2 :
      {h : WalKeyFileHeader} {es : List WalKeyFileEntryV2} {rs : List WalEncryptionRange}
      → filemagic_version h.file_version ≡ 2
      → Opens (wal_range_from_entry_v2 gcm pk) es rs
      → IsOld gcm pk h (v2 es) (length es) rs

-- The current version is neither of the old ones.
not_current :
    (version : ℕ)
    → (filemagic_version version ≡ 1) ⊎ (filemagic_version version ≡ 2)
    → (version == wal_key_file_magic) ≡ false
not_current version (inl h) = ground arith
not_current version (inr h) = ground arith

module _ (gcm : Gcms) (pk : PrincipalKey) where
  old_version :
      (h : WalKeyFileHeader) (body : WalBody) (n : ℕ) (rs : List WalEncryptionRange)
      → IsOld gcm pk h body n rs
      → (filemagic_version h.file_version ≡ 1) ⊎ (filemagic_version h.file_version ≡ 2)
  old_version h _ _ _ (is_v1 v o) = inl v
  old_version h _ _ _ (is_v2 v o) = inr v

  body_lem :
      (h : WalKeyFileHeader) (body : WalBody) (n : ℕ) (rs : List WalEncryptionRange) (s : WalDir)
      (new_header : WalKeyFileHeader)
      → IsOld gcm pk h body n rs
      → s.temporary ≡ some (keyed new_header (current []))
      → n ≤ length s.rand
      → let r = migrate_body gcm pk (filemagic_version h.file_version) body s in
        (r.0 ≡ ok tt)
        × (out : List WalKeyFileEntry) × Opens (wal_range_from_entry gcm pk) out rs
        × (r.1.temporary ≡ some (keyed new_header (current out)))
  unfolding migrate_body
  body_lem h _ _ rs s new_header (is_v1 {es = es} v o) stored left = rw v (
      rewrite_entries-Opens gcm pk (wal_range_from_entry_v1 gcm pk) es rs new_header [] s o stored
        left)
  body_lem h _ _ rs s new_header (is_v2 {es = es} v o) stored left = rw v (
      rewrite_entries-Opens gcm pk (wal_range_from_entry_v2 gcm pk) es rs new_header [] s o stored
        left)

  versioned_lem :
      (h : WalKeyFileHeader) (body : WalBody) (n : ℕ) (rs : List WalEncryptionRange)
      → IsOld gcm pk h body n rs
      → migrate_versioned gcm (some pk) h.file_version body
        ≡ migrate_old gcm (some pk) (filemagic_version h.file_version) body
  unfolding migrate_versioned
  versioned_lem h body n rs o =
      rw (not_current h.file_version (old_version h body n rs o))
        (elim (old_version h body n rs o) [ inl v ↦ rw v refl | inr v ↦ rw v refl ])

  -- Where the file is of version 1 or 2, the principal key opens each entry of it to a range with a key
  -- that fits an entry, and random bytes are at hand, the update succeeds. Then the file is of the
  -- current version, the same principal key opens its entries to the same ranges, one for one and in
  -- their order, and the file names that key.
  pub update_wal_keys_file-Opens :
      (h : WalKeyFileHeader) (body : WalBody) (n : ℕ) (rs : List WalEncryptionRange) (s : WalDir)
      (stale : ℕ) (iv : Bytes) (rest : Random)
      → s.keys ≡ some (keyed h body)
      → IsOld gcm pk h body n rs
      → s.rand ≡ iv ∷ rest
      → n ≤ length rest
      → let r = update_wal_keys_file gcm (some pk) stale s in
        (r.0 ≡ ok tt)
        × (out : List WalKeyFileEntry) × (r.1.keys ≡ some (rewritten_file gcm pk iv out))
        × Opens (wal_range_from_entry gcm pk) out rs
        × (get_server_key_info r.1.keys ≡ ok (some (signed_with gcm pk iv)))
        × (r.1.temporary ≡ none)
  unfolding update_wal_keys_file update_found migrate_old
  update_wal_keys_file-Opens h body n rs s stale iv rest stored o p left =
      let signed = signed_with gcm pk iv in
      let version : ℕ = filemagic_version h.file_version in
      let s1 : WalDir = record s { rand = rest } in
      let s2 : WalDir = record s1 { temporary = some (header_only signed) } in
      let (done, out, reopened, file) =
        body_lem h body n rs s2
          (record { file_version = wal_key_file_magic; signed_key_info = signed }) o refl left in
      let t : WalDir = (migrate_body gcm pk version body s2).1 in
      let copy : Exec WalDir Unit = migrate_body gcm pk version body >> modify replace_keys in
      let whole : update_wal_keys_file gcm (some pk) stale s ≡ (ok tt, replace_keys t) =
        ap (λ f. update_found gcm (some pk) stale f s) stored
        ∙ ap (λ m. m s) (versioned_lem h body n rs o)
        ∙ bind_eq (wal_dir_random (sign_principal_key_info gcm pk)) (λ x. open_temporary x >> copy)
            s s1 signed (sign_step gcm pk s iv rest p)
        ∙ bind_eq (open_temporary signed) (λ u. copy) s1 s2 tt (open_temporary_lem signed s1)
        ∙ bind_ok (migrate_body gcm pk version body) (λ u. modify replace_keys) s2 tt done in
      rw whole (
        refl,
        out,
        file,
        reopened,
        ap get_server_key_info file ∙ rewritten_info gcm pk iv out,
        refl,
      )
