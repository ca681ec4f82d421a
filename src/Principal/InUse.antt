-- ===== src/Principal/InUse.antt =====
-- The default key is not deleted while relation keys stand under it.
use open_pg_tde.Base.{
  ℕ, ◌≡◌, refl, ap, ◌∙◌, inl, inr, Bool, true, false, Bool-cases, Option, some, List, [], ◌∷◌, ◌++◌,
  ◌==◌, if◌then◌else◌, Result, Result-cases, Error, ok, err, Exec, ◌>>=◌, resume, bind_eq, pure,
  principal_key_in_use, raise,
}
use open_pg_tde.Keys.{Gcms, PrincipalKey}
use open_pg_tde.KeyMap.Layout.{KeyDir, keys, TdeFileHeader, TdeMapEntry}
use open_pg_tde.KeyMap.File.{open_file_read, read_found}
use open_pg_tde.KeyMap.Lookup.{count_encryption_keys, count_keys, opened_entries}
use open_pg_tde.KeyMap.Stored.{Holds}
use open_pg_tde.Principal.{
  default_data_tde_oid, Keyrings, Principals, on_dir, get_principal_key_no_default,
}
use open_pg_tde.Principal.Manage.{is_same_principal_key}
use open_pg_tde.Principal.Used.{
  remember_unless_used, using_default, delete_default, delete_default_key,
}
use open_pg_tde.Principal.Known.{HasKey, AreNamed, get_known}
use open_pg_tde.Principal.Removed.{counted, same_key}
use open_pg_tde.Principal.Quiet.{
  IsQuiet, AreQuiet, stays, unchanged, AreNamed-IsQuiet, IsQuiet-trans, bound, get-AreQuiet,
}

-- An outcome that is an error, with the files as they were and no key forgotten.
pub record HasFailed (gcm : Gcms) (keyrings : Keyrings) {A : Type 0} (s : Principals)
    (r : Result A × Principals) : Type 0 where
  pub error : Error
  pub raised : r.0 ≡ err error
  pub quiet : IsQuiet gcm keyrings s r.1

module _ (gcm : Gcms) (keyrings : Keyrings) {A B : Type 0} where
  failed_first :
      (m : Exec Principals A) (f : A → Exec Principals B) (s : Principals)
      → HasFailed gcm keyrings s (m s)
      → HasFailed gcm keyrings s ((m >>= f) s)
  failed_first m f s h =
      let stop : (m >>= f) s ≡ (err h.error, (m s).1) = ap (λ r. resume r f (m s).1) h.raised in
      rw stop (record { error = h.error; raised = refl; quiet = h.quiet })

  failed_later :
      (m : Exec Principals A) (f : A → Exec Principals B) (s : Principals)
      → AreQuiet gcm keyrings m
      → ((a : A) (t : Principals) → IsQuiet gcm keyrings s t → HasFailed gcm keyrings t (f a t))
      → HasFailed gcm keyrings s ((m >>= f) s)
  failed_later m f s q h = elim (Result-cases (m s).0) [
    | inl (a, p) ↦
        let go : (m >>= f) s ≡ f a (m s).1 = ap (λ r. resume r f (m s).1) p in
        let rest = h a (m s).1 (q s) in
        rw go (record {
          error = rest.error;
          raised = rest.raised;
          quiet = IsQuiet-trans gcm keyrings s (m s).1 (f a (m s).1).1 (q s) rest.quiet;
        })
    | inr (e, p) ↦ failed_first m f s (record { error = e; raised = p; quiet = q s })
  ]

failed_from :
    (gcm : Gcms) (keyrings : Keyrings) {A : Type 0} (s t : Principals) (r : Result A × Principals)
    → IsQuiet gcm keyrings s t
    → HasFailed gcm keyrings t r
    → HasFailed gcm keyrings s r
failed_from gcm keyrings s t r q h = record {
  error = h.error;
  raised = h.raised;
  quiet = IsQuiet-trans gcm keyrings s t r.1 q h.quiet;
}

read_quiet : (db : ℕ) (s : KeyDir) → (count_encryption_keys db 0 s).1 ≡ s
unfolding count_encryption_keys open_file_read
read_quiet db s = elim (Result-cases (read_found true (s.file (keys db)))) [
  | inl (f, p) ↦ ap (λ r. (resume r (λ x. pure (count_keys 0 (opened_entries x))) s).1) p
  | inr (e, p) ↦ ap (λ r. (resume r (λ x. pure (count_keys 0 (opened_entries x))) s).1) p
]

module _ (gcm : Gcms) (keyrings : Keyrings) where
  choose-AreQuiet :
      (db : ℕ) (found : List ℕ) (count : ℕ)
      → AreQuiet gcm keyrings (if count == 0 then pure (db ∷ found) else raise principal_key_in_use)
  choose-AreQuiet db found count s = elim (Bool-cases (count == 0)) [
    | inl p ↦ rw p (stays gcm keyrings s)
    | inr p ↦ rw p (stays gcm keyrings s)
  ]

  remember-AreQuiet :
      (same : Bool) (db : ℕ) (found : List ℕ)
      → AreQuiet gcm keyrings (remember_unless_used gcm keyrings same db found)
  unfolding remember_unless_used
  remember-AreQuiet false db found = stays gcm keyrings
  remember-AreQuiet true db found =
      bound gcm keyrings (on_dir (count_encryption_keys db 0))
        (λ count. if count == 0 then pure (db ∷ found) else raise principal_key_in_use)
        (unchanged gcm keyrings (on_dir (count_encryption_keys db 0))
          (λ s. ap (λ d. record s { dir = d }) (read_quiet db s.dir)))
        (choose-AreQuiet db found)

  module _ (db : ℕ) (h : TdeFileHeader) (es : List TdeMapEntry) (pk default_key : PrincipalKey)
      (after : List ℕ) where
    -- the server knows that the database has the default key, and its key file has relation keys
    pub record IsUsing (s : Principals) : Type 0 where
      pub known : HasKey gcm keyrings db pk s
      pub same : same_key default_key pk ≡ true
      pub holds : Holds s.dir db h es
      pub used : (count_keys 0 es == 0) ≡ false

    still-IsUsing :
        (s t : Principals)
        → IsQuiet gcm keyrings s t
        → AreNamed gcm keyrings s
        → IsUsing s
        → IsUsing t
    still-IsUsing s t q named u = record {
      known = q.known named db pk u.known;
      same = u.same;
      holds = rw q.same_dir u.holds;
      used = u.used;
    }

    refused :
        (found : List ℕ) (s : Principals)
        → IsUsing s
        → HasFailed gcm keyrings s (remember_unless_used gcm keyrings true db found s)
    unfolding remember_unless_used
    refused found s u =
        let step : on_dir (count_encryption_keys db 0) s ≡ (ok (count_keys 0 es), s) =
          ap (λ r. (r.0, record s { dir = r.1 })) (counted gcm keyrings db h es s.dir u.holds) in
        let whole : remember_unless_used gcm keyrings true db found s
            ≡ (err principal_key_in_use, s) =
          bind_eq (on_dir (count_encryption_keys db 0))
            (λ count. if count == 0 then pure (db ∷ found) else raise principal_key_in_use) s s
            (count_keys 0 es) step
          ∙ rw u.used refl in
        rw whole
          (record { error = principal_key_in_use; raised = refl; quiet = stays gcm keyrings s })

    scanned :
        (before found : List ℕ) (s : Principals)
        → AreNamed gcm keyrings s
        → IsUsing s
        → HasFailed gcm keyrings s
            (using_default gcm keyrings default_key (before ++ (db ∷ after)) found s)
    unfolding using_default is_same_principal_key
    scanned [] found s named u =
        let m = get_principal_key_no_default gcm keyrings db in
        let (ks, found_key, kept, others) = get_known gcm keyrings db pk s u.known in
        let t : Principals = record s { cache = ks } in
        let q : IsQuiet gcm keyrings s t = rw found_key at (get-AreQuiet gcm keyrings db s) in
        let go : Option PrincipalKey → Exec Principals (List ℕ) = λ k.
          remember_unless_used gcm keyrings (is_same_principal_key (some default_key) k) db found
          >>= using_default gcm keyrings default_key after in
        let whole : using_default gcm keyrings default_key (db ∷ after) found s
            ≡ (remember_unless_used gcm keyrings true db found
                  >>= using_default gcm keyrings default_key after)
                t =
          bind_eq m go s t (some pk) found_key
          ∙ ap
              (λ b.
                (remember_unless_used gcm keyrings b db found
                    >>= using_default gcm keyrings default_key after)
                  t)
              u.same in
        rw whole (
          failed_from gcm keyrings s t _ q (
            failed_first gcm keyrings (remember_unless_used gcm keyrings true db found)
              (using_default gcm keyrings default_key after) t
              (refused found t (still-IsUsing s t q named u))))
    scanned (d ∷ ds) found s named u =
        failed_later gcm keyrings (get_principal_key_no_default gcm keyrings d) _ s
          (get-AreQuiet gcm keyrings d)
          λ k t q.
            failed_later gcm keyrings
              (remember_unless_used gcm keyrings (is_same_principal_key (some default_key) k) d
                found)
              _ t (remember-AreQuiet (is_same_principal_key (some default_key) k) d found)
              λ more v r.
                let named_t = AreNamed-IsQuiet gcm keyrings s t q named in
                scanned ds more v (AreNamed-IsQuiet gcm keyrings t v r named_t)
                  (still-IsUsing t v r named_t (still-IsUsing s t q named u))

    -- Where the server knows the default key, and that some database of the scan has a key of the same
    -- name and provider, each from its cache or from its key file and a key server; the key file of
    -- this database can be read and has relation keys; and the key files name their databases: deleting
    -- the default key fails, whatever the other databases are. It changes no file, neither a key file
    -- of a database nor the WAL key file, and no key that the server knew is forgotten.
    pub delete_default_key-HasFailed :
        (before : List ℕ) (s : Principals)
        → AreNamed gcm keyrings s
        → HasKey gcm keyrings default_data_tde_oid default_key s
        → IsUsing s
        → HasFailed gcm keyrings s (delete_default_key gcm keyrings true (before ++ (db ∷ after)) s)
    unfolding delete_default_key delete_default
    delete_default_key-HasFailed before s named set u =
        let dbs = before ++ (db ∷ after) in
        let (ks, found, kept, others) =
          get_known gcm keyrings default_data_tde_oid default_key s set in
        let t : Principals = record s { cache = ks } in
        let q : IsQuiet gcm keyrings s t =
          rw found at (get-AreQuiet gcm keyrings default_data_tde_oid s) in
        let whole : delete_default_key gcm keyrings true dbs s
            ≡ delete_default gcm keyrings dbs (some default_key) t =
          bind_eq (get_principal_key_no_default gcm keyrings default_data_tde_oid)
            (delete_default gcm keyrings dbs) s t (some default_key) found in
        rw whole (
          failed_from gcm keyrings s t _ q (
            failed_first gcm keyrings (using_default gcm keyrings default_key dbs []) _ t (
              scanned before [] t (AreNamed-IsQuiet gcm keyrings s t q named)
                (still-IsUsing s t q named u))))
