-- ===== src/Principal/Fallback.antt =====
-- A database without a principal key of its own takes the default key.
use open_pg_tde.Base.{ℕ, ◌≡◌, refl, false, none, ◌==◌, ok}
use open_pg_tde.Keys.{Gcms, global_data_tde_oid}
use open_pg_tde.KeyMap.Layout.{keys}
use open_pg_tde.KeyMap.Lookup.{get_principal_key_info}
use open_pg_tde.Principal.{
  Keyrings, Principals, cached_key, get_principal_key_no_default, get_from_keyring, get_uncached,
  keep_loaded, key_info_of, load_found,
}

module _ (gcm : Gcms) (keyrings : Keyrings) (db : ℕ) (s : Principals) where
  -- A database with neither a cached key nor a key file has no key.
  pub no_own_key :
      (db == global_data_tde_oid) ≡ false
      → cached_key db s.cache ≡ none
      → s.dir.file (keys db) ≡ none
      → get_principal_key_no_default gcm keyrings db s ≡ (ok none, s)
  unfolding get_principal_key_no_default get_uncached get_from_keyring keep_loaded key_info_of
      load_found get_principal_key_info
  no_own_key local uncached missing = rw uncached (rw local (rw missing refl))
