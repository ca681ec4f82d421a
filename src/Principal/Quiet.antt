-- ===== src/Principal/Quiet.antt =====
-- Steps that change no file and keep the keys that the server knows.
use open_pg_tde.Base.{
  ℕ, ◌≡◌, refl, sym, ap, ◌∙◌, inl, inr, Bool-cases, Option, none, false, some, ◌==◌, arith, Result,
  ok, err, Exec, ◌>>=◌, resume,
}
use open_pg_tde.Keys.{Gcms, PrincipalKey}
use open_pg_tde.Principal.{
  Keyrings, Principals, cached_key, key_info_of, get_from_keyring, keep_loaded, get_uncached,
  get_principal_key_no_default,
}
use open_pg_tde.Principal.Known.{
  HasKey, in_cache, in_file, AreNamed, key_info_of_state, get_from_keyring_state, get_known,
  get_other, same_info,
}

module _ (gcm : Gcms) (keyrings : Keyrings) where
  -- The files are the same, and a key that the server knew it knows afterwards, where the key files
  -- are named.
  pub record IsQuiet (s t : Principals) : Type 0 where
    pub same_dir : t.dir ≡ s.dir
    pub same_wal : t.wal ≡ s.wal
    pub known :
        AreNamed gcm keyrings s
        → (db : ℕ) (pk : PrincipalKey) → HasKey gcm keyrings db pk s
        → HasKey gcm keyrings db pk t

  abbrev pub AreQuiet : {A : Type 0} → Exec Principals A → Type 0
  AreQuiet m = (s : Principals) → IsQuiet s (m s).1

  pub stays : (s : Principals) → IsQuiet s s
  stays s = record { same_dir = refl; same_wal = refl; known = λ named db pk h. h }

  pub AreNamed-IsQuiet :
      (s t : Principals) → IsQuiet s t → AreNamed gcm keyrings s → AreNamed gcm keyrings t
  AreNamed-IsQuiet s t q named db signed h =
      named db signed (sym (same_info gcm keyrings db s t q.same_dir q.same_wal) ∙ h)

  pub IsQuiet-trans : (s t u : Principals) → IsQuiet s t → IsQuiet t u → IsQuiet s u
  IsQuiet-trans s t u p q = record {
    same_dir = q.same_dir ∙ p.same_dir;
    same_wal = q.same_wal ∙ p.same_wal;
    known = λ named db pk h. q.known (AreNamed-IsQuiet s t p named) db pk (p.known named db pk h);
  }

  module _ {A B : Type 0} where
    resumed :
        (r : Result A) (f : A → Exec Principals B)
        → ((a : A) → AreQuiet (f a))
        → AreQuiet (resume r f)
    resumed (ok a) f h s = h a s
    resumed (err e) f h s = stays s

    pub bound :
        (m : Exec Principals A) (f : A → Exec Principals B)
        → AreQuiet m
        → ((a : A) → AreQuiet (f a))
        → AreQuiet (m >>= f)
    bound m f h k s = IsQuiet-trans s (m s).1 ((m >>= f) s).1 (h s) (resumed (m s).0 f k (m s).1)

  -- A step that leaves the state as it is.
  pub unchanged :
      {A : Type 0} (m : Exec Principals A) → ((s : Principals) → (m s).1 ≡ s) → AreQuiet m
  unchanged m same s = rw (same s) (stays s)

  pub read-AreQuiet : (db : ℕ) → AreQuiet (key_info_of gcm keyrings db)
  read-AreQuiet db = unchanged (key_info_of gcm keyrings db) (key_info_of_state gcm keyrings db)

  get_files :
      (db : ℕ) (s : Principals) (r : Result (Option PrincipalKey))
      → ((resume r (keep_loaded gcm keyrings db) s).1.dir ≡ s.dir)
        × ((resume r (keep_loaded gcm keyrings db) s).1.wal ≡ s.wal)
  unfolding keep_loaded
  get_files db s (err e) = (refl, refl)
  get_files db s (ok none) = (refl, refl)
  get_files db s (ok (some pk)) = (refl, refl)

  uncached_files :
      (db : ℕ) (s : Principals) (found : Option PrincipalKey)
      → ((get_uncached gcm keyrings db found s).1.dir ≡ s.dir)
        × ((get_uncached gcm keyrings db found s).1.wal ≡ s.wal)
  unfolding get_uncached get_from_keyring
  uncached_files db s (some pk) = (refl, refl)
  uncached_files db s none =
      let m = get_from_keyring gcm keyrings db in
      let same : (m s).1 ≡ s = get_from_keyring_state gcm keyrings db s in
      let (d, w) = get_files db (m s).1 (m s).0 in
      (d ∙ ap (λ t. t.dir) same, w ∙ ap (λ t. t.wal) same)

  still_known :
      (x db : ℕ) (pk : PrincipalKey) (s : Principals)
      → AreNamed gcm keyrings s
      → HasKey gcm keyrings db pk s
      → (x == db) ≡ false
      → let t = (get_principal_key_no_default gcm keyrings x s).1 in
        (key_info_of gcm keyrings db t).0 ≡ (key_info_of gcm keyrings db s).0
        → HasKey gcm keyrings db pk t
  still_known x db pk s named (in_cache p) apart same =
      in_cache (get_other gcm keyrings x db s named apart ∙ p)
  still_known x db pk s named (in_file uncached own iv info served) apart same =
      in_file (get_other gcm keyrings x db s named apart ∙ uncached) own iv (same ∙ info) served

  -- Looking a principal key up changes no file, and forgets no key.
  pub get-AreQuiet : (x : ℕ) → AreQuiet (get_principal_key_no_default gcm keyrings x)
  unfolding get_principal_key_no_default
  get-AreQuiet x s =
      let t = (get_principal_key_no_default gcm keyrings x s).1 in
      let (d, w) = uncached_files x s (cached_key x s.cache) in
      record {
        same_dir = d;
        same_wal = w;
        known = λ named db pk h. elim (Bool-cases (x == db)) [
          | inl p ↦
              let here : db ≡ x = ground (arith, p) in
              let (ks, found, kept, others) = get_known gcm keyrings db pk s h in
              let state : (get_principal_key_no_default gcm keyrings x s).1
                  ≡ record s { cache = ks } =
                ap (λ i. (get_principal_key_no_default gcm keyrings i s).1) (sym here)
                ∙ ap (λ r. r.1) found in
              in_cache (ap (λ u. cached_key db u.cache) state ∙ kept)
          | inr p ↦ still_known x db pk s named h p (same_info gcm keyrings db s t d w)
        ];
      }
