-- ===== src/Principal/ProviderUse.antt =====
-- Whether a key provider is in use.
use open_pg_tde.Base.{
  ℕ, ◌≡◌, refl, ap, ◌∙◌, ◌⊎◌, inl, inr, Bool, true, Bool-cases, Option, some, List, [], ◌∷◌, ◌++◌,
  ◌==◌, ◌||◌, if◌then◌else◌, arith, Result, Result-cases, Error, ok, err, Exec, ◌>>=◌, resume,
  bind_eq, pure,
}
use open_pg_tde.Keys.{Gcms, PrincipalKey, global_data_tde_oid}
use open_pg_tde.Principal.{default_data_tde_oid, Keyrings, Principals, get_principal_key_no_default}
use open_pg_tde.Principal.Used.{uses_provider, any_uses, is_provider_used}
use open_pg_tde.Principal.Known.{HasKey, AreNamed, get_known}
use open_pg_tde.Principal.Quiet.{IsQuiet, stays, AreNamed-IsQuiet, IsQuiet-trans, get-AreQuiet}

-- The answer is yes, or the error of a lookup of a database's key; the files are as they were, and no
-- key is forgotten.
pub record IsAdmitted (gcm : Gcms) (keyrings : Keyrings) (s : Principals)
    (r : Result Bool × Principals) : Type 0 where
  pub answer :
      (r.0 ≡ ok true)
      ⊎ ((e : Error) × (r.0 ≡ err e)
          × (x : ℕ) × (u : Principals) × IsQuiet gcm keyrings s u
          × ((get_principal_key_no_default gcm keyrings x u).0 ≡ err e))
  pub quiet : IsQuiet gcm keyrings s r.1

module _ (gcm : Gcms) (keyrings : Keyrings) (id : ℕ) (db : ℕ) (pk : PrincipalKey)
    (after : List ℕ) where
  any_uses-IsAdmitted :
      (before : List ℕ) (s : Principals)
      → AreNamed gcm keyrings s
      → HasKey gcm keyrings db pk s
      → pk.key_info.keyring_id ≡ id
      → IsAdmitted gcm keyrings s (any_uses gcm keyrings id (before ++ (db ∷ after)) s)
  unfolding any_uses
  any_uses-IsAdmitted [] s named has provided =
      let uses : (pk.key_info.keyring_id == id) ≡ true = ground (arith, provided) in
      let go_on : Option PrincipalKey → Exec Principals Bool =
        λ k. if uses_provider id k then pure true else any_uses gcm keyrings id after in
      let (ks, found, kept, others) = get_known gcm keyrings db pk s has in
      let t : Principals = record s { cache = ks } in
      let whole : any_uses gcm keyrings id (db ∷ after) s ≡ (ok true, t) =
        bind_eq (get_principal_key_no_default gcm keyrings db) go_on s t (some pk) found
        ∙ ap (λ b. (if b then pure true else any_uses gcm keyrings id after) t) uses in
      let q : IsQuiet gcm keyrings s t = rw found at (get-AreQuiet gcm keyrings db s) in
      rw whole (record { answer = inl refl; quiet = q })
  any_uses-IsAdmitted (d ∷ ds) s named has provided =
      let m = get_principal_key_no_default gcm keyrings d in
      let t = (m s).1 in
      let q = get-AreQuiet gcm keyrings d s in
      let rest =
        any_uses-IsAdmitted ds t (AreNamed-IsQuiet gcm keyrings s t q named)
          (q.known named db pk has) provided in
      let others = any_uses gcm keyrings id (ds ++ (db ∷ after)) in
      let go_on : Option PrincipalKey → Exec Principals Bool =
        λ k. if uses_provider id k then pure true else others in
      elim (Result-cases (m s).0) [
        | inr (e, p) ↦
            let whole : (m >>= go_on) s ≡ (err e, t) = ap (λ r. resume r go_on t) p in
            rw whole (record { answer = inr (e, refl, d, s, stays gcm keyrings s, p); quiet = q })
        | inl (k, p) ↦
            let whole : (m >>= go_on) s ≡ go_on k t = ap (λ r. resume r go_on t) p in
            elim (Bool-cases (uses_provider id k)) [
              | inl fits ↦
                  let found : (m >>= go_on) s ≡ (ok true, t) =
                    whole ∙ ap (λ b. (if b then pure true else others) t) fits in
                  rw found (record { answer = inl refl; quiet = q })
              | inr differ ↦
                  let go : (m >>= go_on) s ≡ others t =
                    whole ∙ ap (λ b. (if b then pure true else others) t) differ in
                  rw go (record {
                    answer = elim rest.answer [
                      | inl a ↦ inl a
                      | inr (e, a, x, u, w, l) ↦
                          inr (e, a, x, u, IsQuiet-trans gcm keyrings s t u q w, l)
                    ];
                    quiet = IsQuiet-trans gcm keyrings s t (others t).1 q rest.quiet;
                  })
            ]
      ]

  -- Where the server knows the principal key of some database of the scan, from its cache or from the
  -- key file and a key server, that key is of a global provider, and the key files name their
  -- databases: the question whether this provider is in use is never answered with no. The answer is
  -- yes, or the error of looking up the key of some database with the same files; no file changes, and no key that the
  -- server knew is forgotten.
  pub is_provider_used-IsAdmitted :
      (before : List ℕ) (owner : ℕ) (s : Principals)
      → (owner == global_data_tde_oid || owner == default_data_tde_oid) ≡ true
      → AreNamed gcm keyrings s
      → HasKey gcm keyrings db pk s
      → pk.key_info.keyring_id ≡ id
      → IsAdmitted gcm keyrings s
          (is_provider_used gcm keyrings (before ++ (db ∷ after)) owner id s)
  unfolding is_provider_used
  is_provider_used-IsAdmitted before owner s global named has provided =
      let whole : is_provider_used gcm keyrings (before ++ (db ∷ after)) owner id s
          ≡ any_uses gcm keyrings id
              (global_data_tde_oid ∷ default_data_tde_oid ∷ (before ++ (db ∷ after))) s =
        rw global refl in
      rw whole (
        any_uses-IsAdmitted (global_data_tde_oid ∷ default_data_tde_oid ∷ before) s named has
          provided)
