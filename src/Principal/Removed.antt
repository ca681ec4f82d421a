-- ===== src/Principal/Removed.antt =====
-- Deleting the principal key of a database.
use open_pg_tde.Base.{
  ◌&&◌, Bool, Result, ℕ, ◌≡◌, refl, ap, ◌∙◌, true, false, none, some, List, ◌==◌, ok, err,
  principal_key_in_use, bind_eq,
}
use open_pg_tde.Aes.{same_bytes}
use open_pg_tde.Keys.{Gcms, PrincipalKey}
use open_pg_tde.KeyMap.Layout.{TdeFileHeader, TdeMapEntry, KeyDir, keys, FilePath, path_eq}
use open_pg_tde.KeyMap.File.{open_file_read, read_found, file_header_read}
use open_pg_tde.KeyMap.Lookup.{count_encryption_keys, count_keys}
use open_pg_tde.KeyMap.Rotate.{delete_principal_key_file}
use open_pg_tde.KeyMap.Stored.{Holds, path_eq_refl}
use open_pg_tde.Principal.{Keyrings, Principals, on_dir, cached_key, get_principal_key_no_default}
use open_pg_tde.Principal.Manage.{delete_counted, delete_found_key, delete_key}
use open_pg_tde.Principal.Cached.{cached_key-clear_cache}
use open_pg_tde.Principal.Known.{HasKey, get_known}
use open_pg_tde.Principal.Changed.{HasMoved}

-- two keys of the same name, from the same provider
abbrev pub same_key : PrincipalKey → PrincipalKey → Bool
same_key a b =
    same_bytes a.key_info.name b.key_info.name && a.key_info.keyring_id == b.key_info.keyring_id

-- the default key as the key of a database
abbrev pub default_for : ℕ → PrincipalKey → PrincipalKey
default_for db k = record k { key_info = record k.key_info { database_id = db } }

module _ (gcm : Gcms) (keyrings : Keyrings) (db : ℕ) (h : TdeFileHeader)
    (es : List TdeMapEntry) where
  -- The keys of a file that can be read are counted.
  pub counted :
      (s : KeyDir) → Holds s db h es → count_encryption_keys db 0 s ≡ (ok (count_keys 0 es), s)
  unfolding count_encryption_keys open_file_read read_found file_header_read
  counted s w = rw w.stored (rw w.version refl)

  -- up to the test of the count
  found_lem :
      (pk : PrincipalKey) (s t : Principals)
      → get_principal_key_no_default gcm keyrings db s ≡ (ok (some pk), t)
      → Holds t.dir db h es
      → delete_key gcm keyrings db s ≡ delete_counted gcm keyrings db pk (count_keys 0 es) t
  unfolding delete_key delete_found_key
  found_lem pk s t found w =
      bind_eq (get_principal_key_no_default gcm keyrings db) (delete_found_key gcm keyrings db) s t
        (some pk) found
      ∙ bind_eq (on_dir (count_encryption_keys db 0)) (delete_counted gcm keyrings db pk) t t
          (count_keys 0 es) (ap (λ r. (r.0, record t { dir = r.1 })) (counted t.dir w))

  -- Where the server knows the principal key of a database, from its cache or from the key file and a
  -- key server, and the key file can be read and holds no relation keys, the database loses the key:
  -- the key file is gone, the cache has no key for it, and the files of all other databases are as they
  -- were.
  pub delete_key-unused :
      (pk : PrincipalKey) (s : Principals)
      → HasKey gcm keyrings db pk s
      → Holds s.dir db h es
      → count_keys 0 es ≡ 0
      → let r = delete_key gcm keyrings db s in
        (r.0 ≡ ok tt)
        × (r.1.dir.file (keys db) ≡ none)
        × (cached_key db r.1.cache ≡ none)
        × ((path : FilePath) → path_eq (keys db) path ≡ false → r.1.dir.file path ≡ s.dir.file path)
  unfolding delete_counted delete_principal_key_file
  delete_key-unused pk s has w n =
      let (ks, found, kept, others) = get_known gcm keyrings db pk s has in
      let t : Principals = record s { cache = ks } in
      let v : Holds t.dir db h es = record { stored = w.stored; version = w.version } in
      let whole : delete_key gcm keyrings db s ≡ delete_counted gcm keyrings db pk 0 t =
        found_lem pk s t found v ∙ ap (λ c. delete_counted gcm keyrings db pk c t) n in
      rw whole (
        rw w.stored (
          refl,
          rw (path_eq_refl (keys db)) refl,
          cached_key-clear_cache db ks,
          λ path apart. rw apart refl,
        ))

  -- What becomes of the deletion of a key in use: refused, without a change of a key file, where the
  -- default key is the same key, and else the default key has taken its place.
  abbrev pub HasFallenBack :
      PrincipalKey → PrincipalKey → Principals → Result (Unit {0}) × Principals → Bool → Type 0
  HasFallenBack pk default_key s r true = (r.0 ≡ err principal_key_in_use) × (r.1.dir ≡ s.dir)
  HasFallenBack pk default_key s r false =
      (r.0 ≡ ok tt) × HasMoved gcm keyrings db pk (default_for db default_key) s r.1
