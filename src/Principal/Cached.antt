-- ===== src/Principal/Cached.antt =====
-- The cache of principal keys.
use open_pg_tde.Base.{
  ℕ, ◌≡◌, refl, ap, inl, inr, true, false, Bool-cases, Option-cases, none, some, List, [], ◌∷◌,
  ◌==◌, arith, ok,
}
use open_pg_tde.Keys.{Gcms, PrincipalKey}
use open_pg_tde.Principal.{
  Keyrings, Principals, cached_key, push_key, push_to_cache, clear_cache,
  get_principal_key_no_default, get_uncached,
}

pub cached_key-clear_cache :
    (db : ℕ) (ks : List PrincipalKey) → cached_key db (clear_cache db ks) ≡ none
unfolding cached_key clear_cache
cached_key-clear_cache db [] = refl
cached_key-clear_cache db (k ∷ ks) = elim (Bool-cases (k.key_info.database_id == db)) [
  | inl p ↦ rw p (cached_key-clear_cache db ks)
  | inr p ↦ rw p (rw p (cached_key-clear_cache db ks))
]

pub cached_key-push_to_cache :
    (pk : PrincipalKey) (ks : List PrincipalKey)
    → cached_key pk.key_info.database_id ks ≡ none
    → cached_key pk.key_info.database_id (push_to_cache pk ks) ≡ some pk
unfolding cached_key push_to_cache push_key
cached_key-push_to_cache pk ks h =
    let self : (pk.key_info.database_id == pk.key_info.database_id) ≡ true = ground arith in
    rw h (rw self refl)

pub cached_key-push_to_cache_other :
    (db : ℕ) (pk : PrincipalKey) (ks : List PrincipalKey)
    → (pk.key_info.database_id == db) ≡ false
    → cached_key db (push_to_cache pk ks) ≡ cached_key db ks
unfolding cached_key push_to_cache push_key
cached_key-push_to_cache_other db pk ks apart =
    elim (Option-cases (cached_key pk.key_info.database_id ks)) [
      | inl p ↦ rw p (rw apart refl)
      | inr (k, p) ↦ rw p refl
    ]

-- A key in the cache is returned, and nothing changes.
pub get_cached :
    (gcm : Gcms) (keyrings : Keyrings) (db : ℕ) (pk : PrincipalKey) (s : Principals)
    → cached_key db s.cache ≡ some pk
    → get_principal_key_no_default gcm keyrings db s ≡ (ok (some pk), s)
unfolding get_principal_key_no_default get_uncached
get_cached gcm keyrings db pk s h = ap (λ o. get_uncached gcm keyrings db o s) h
