-- ===== src/Principal/Known.antt =====
-- What a server knows as the principal key of a database: a key in its cache, or one that its key file
-- and a key server lead to.
use open_pg_tde.Base.{
  ℕ, ◌≡◌, refl, sym, ap, ◌∙◌, inl, inr, Bool, false, Bool-cases, Option-cases, wrong_file_version,
  Option, none, some, List, ◌==◌, if◌then◌else◌, Bytes, Result, Result-cases, ok, err,
  key_verification_failed, and_then, lift, resume, pure, raise, bind_eq,
}
use open_pg_tde.Keys.{
  Gcms, PrincipalKey, SignedPrincipalKeyInfo, signed_with, global_data_tde_oid,
  verify_principal_key_info,
}
use open_pg_tde.KeyMap.Layout.{KeyDir, keys, TdeFileHeader}
use open_pg_tde.KeyMap.File.{file_header_read}
use open_pg_tde.KeyMap.Lookup.{right_type, header_info, get_principal_key_info}
use open_pg_tde.Wal.File.Server.{get_server_key_info}
use open_pg_tde.Principal.{
  KeyInfo, Keyrings, Principals, cached_key, push_to_cache, required, required_keyring,
  verified_key, load_key, load_found, key_info_of, get_from_keyring, keep_loaded, get_uncached,
  get_principal_key_no_default,
}
use open_pg_tde.Principal.Cached.{cached_key-push_to_cache, cached_key-push_to_cache_other}
use open_pg_tde.Principal.Loaded.{IsServed, load_key_lem}

module _ (gcm : Gcms) (keyrings : Keyrings) where
  -- The server knows the key of a database: from its cache, or else from the key file, whose
  -- description is signed with the key, and from a key server that has it.
  pub data HasKey (db : ℕ) (pk : PrincipalKey) (s : Principals) : Type 0 where
    in_cache : cached_key db s.cache ≡ some pk → HasKey db pk s
    in_file :
        cached_key db s.cache ≡ none
        → pk.key_info.database_id ≡ db
        → (iv : Bytes) → (key_info_of gcm keyrings db s).0 ≡ ok (some (signed_with gcm pk iv))
        → IsServed keyrings db pk
        → HasKey db pk s

  -- Each key file names the database that it belongs to.
  abbrev pub AreNamed : Principals → Type 0
  AreNamed s =
      (db : ℕ) (signed : SignedPrincipalKeyInfo)
      → (key_info_of gcm keyrings db s).0 ≡ ok (some signed)
      → signed.info.database_id ≡ db

headed :
    (r : Result (Option TdeFileHeader)) (d : KeyDir)
    → (resume r (λ h. if right_type h then pure (header_info h) else raise wrong_file_version) d).1
      ≡ d
headed (err e) d = refl
headed (ok h) d = elim (Bool-cases (right_type h)) [ inl p ↦ rw p refl | inr p ↦ rw p refl ]

-- A file that is read is not changed.
read_dir : (db : ℕ) (d : KeyDir) → (get_principal_key_info db d).1 ≡ d
unfolding get_principal_key_info file_header_read
read_dir db d = elim (Option-cases (d.file (keys db))) [
  | inl p ↦ rw p refl
  | inr (f, p) ↦ rw p (headed (file_header_read f) d)
]

lifted :
    {A B : Type 0} (r : Result A) (f : A → Result B) (s : Principals)
    → resume r (λ a. lift (f a)) s ≡ (and_then r f, s)
lifted (ok a) f s = refl
lifted (err e) f s = refl

id_of : ℕ → Result PrincipalKey → ℕ
id_of n (ok k) = k.key_info.database_id
id_of n (err e) = n

-- every value of a result has a property
abbrev Yields : {A : Type 0} → (A → Type 0) → Result A → Type 0
Yields {A} P r = (a : A) → r ≡ ok a → P a

and_then-Yields :
    {A B : Type 0} (P : B → Type 0) (r : Result A) (f : A → Result B)
    → ((a : A) → Yields P (f a))
    → Yields P (and_then r f)
and_then-Yields P (ok a) f h b e = h a b e
and_then-Yields P (err x) f h b e = absurd (cc e)

module _ (gcm : Gcms) (keyrings : Keyrings) where
  pub key_info_of_state : (db : ℕ) (s : Principals) → (key_info_of gcm keyrings db s).1 ≡ s
  unfolding key_info_of
  key_info_of_state db s = elim (Bool-cases (db == global_data_tde_oid)) [
    | inl p ↦ rw p refl
    | inr p ↦ rw p (ap (λ d. record s { dir = d }) (read_dir db s.dir))
  ]

  -- Loading is a function of the description in the key file, and changes nothing.
  get_from_keyring_eq :
      (db : ℕ) (s : Principals)
      → get_from_keyring gcm keyrings db s
        ≡ (and_then (key_info_of gcm keyrings db s).0 (load_found gcm keyrings db), s)
  unfolding get_from_keyring
  get_from_keyring_eq db s =
      lifted (key_info_of gcm keyrings db s).0 (load_found gcm keyrings db)
        (key_info_of gcm keyrings db s).1
      ∙ ap (λ t. (and_then (key_info_of gcm keyrings db s).0 (load_found gcm keyrings db), t))
          (key_info_of_state db s)

  pub get_from_keyring_state :
      (db : ℕ) (s : Principals) → (get_from_keyring gcm keyrings db s).1 ≡ s
  get_from_keyring_state db s = ap (λ r. r.1) (get_from_keyring_eq db s)

  -- Looking up a key that the server knows returns it, and leaves it in the cache;
  -- no file and no other key of the cache changes.
  pub get_known :
      (db : ℕ) (pk : PrincipalKey) (s : Principals)
      → HasKey gcm keyrings db pk s
      → (ks : List PrincipalKey) × (get_principal_key_no_default gcm keyrings db s
          ≡ (ok (some pk), record s { cache = ks }))
        × (cached_key db ks ≡ some pk)
        × ((other : ℕ) → (db == other) ≡ false → cached_key other ks ≡ cached_key other s.cache)
  unfolding get_principal_key_no_default get_uncached keep_loaded
  get_known db pk s (in_cache p) =
      (s.cache, ap (λ o. get_uncached gcm keyrings db o s) p, p, λ other apart. refl)
  get_known db pk s (in_file uncached own iv info served) =
      let ks = push_to_cache pk s.cache in
      let kept : cached_key db ks ≡ some pk =
        ap (λ i. cached_key i ks) (sym own)
        ∙ cached_key-push_to_cache pk s.cache (ap (λ i. cached_key i s.cache) own ∙ uncached) in
      let loaded : load_found gcm keyrings db (some (signed_with gcm pk iv)) ≡ ok (some pk) =
        unfold load_found in
        ap (λ r. and_then r λ k. ok (some k)) (load_key_lem gcm keyrings db pk iv served) in
      let found : get_from_keyring gcm keyrings db s ≡ (ok (some pk), s) =
        get_from_keyring_eq db s
        ∙ ap (λ r. (and_then r (load_found gcm keyrings db), s)) info
        ∙ ap (λ r. (r, s)) loaded in
      (
        ks,
        ap (λ o. get_uncached gcm keyrings db o s) uncached
            ∙ bind_eq (get_from_keyring gcm keyrings db) (keep_loaded gcm keyrings db) s s (some pk)
                found
            ∙ ap (λ o. (ok o, record s { cache = ks })) kept,
        kept,
        λ other apart.
            cached_key-push_to_cache_other other pk s.cache (ap (λ i. i == other) own ∙ apart),
      )

  verified_id :
      (signed : SignedPrincipalKeyInfo) (k : KeyInfo) (pk : PrincipalKey)
      → verified_key gcm signed k ≡ ok pk
      → pk.key_info.database_id ≡ signed.info.database_id
  unfolding verified_key id_of
  verified_id signed k pk h =
      let r : Bool → Result PrincipalKey = λ b.
        if b
        then ok (record { key_info = signed.info; key_data = k.key_data; key_length = k.len })
        else err key_verification_failed in
      elim (Bool-cases (verify_principal_key_info gcm signed k.key_data k.len)) [
        | inl p ↦
            let same : ok
                  (record { key_info = signed.info; key_data = k.key_data; key_length = k.len })
                ≡ ok pk =
              sym (ap r p) ∙ h in
            sym (ap (id_of 0) same)
        | inr p ↦
            let clash : err key_verification_failed ≡ ok pk = sym (ap r p) ∙ h in absurd (cc clash)
      ]

  load_key_id :
      (db : ℕ) (signed : SignedPrincipalKeyInfo) (pk : PrincipalKey)
      → load_key gcm keyrings db signed ≡ ok pk
      → pk.key_info.database_id ≡ signed.info.database_id
  unfolding load_key
  load_key_id db signed =
      let P : PrincipalKey → Type 0 = λ pk. pk.key_info.database_id ≡ signed.info.database_id in
      and_then-Yields P (required_keyring (keyrings.provider_by_id signed.info.keyring_id db)) _
        λ r.
          and_then-Yields P (and_then (keyrings.get_key r signed.info.name) required) _
            λ k. verified_id signed k

  load_found_id :
      (db : ℕ) (found : Option SignedPrincipalKeyInfo) (pk : PrincipalKey)
      → load_found gcm keyrings db found ≡ ok (some pk)
      → (signed : SignedPrincipalKeyInfo) × (found ≡ some signed)
        × (pk.key_info.database_id ≡ signed.info.database_id)
  unfolding load_found
  load_found_id db none pk h = absurd (cc h)
  load_found_id db (some signed) pk h =
      let r : Result PrincipalKey → Result (Option PrincipalKey) =
        λ x. and_then x λ k. ok (some k) in
      elim (Result-cases (load_key gcm keyrings db signed)) [
        | inl (k, p) ↦
            let same : ok (some k) ≡ ok (some pk) = sym (ap r p) ∙ h in
            let it : k ≡ pk = cc same in (signed, refl, load_key_id db signed pk (p ∙ ap ok it))
        | inr (e, p) ↦ let clash : err e ≡ ok (some pk) = sym (ap r p) ∙ h in absurd (cc clash)
      ]

  -- A key that is loaded is the database's own, where the key files are named.
  loaded_id :
      (db : ℕ) (pk : PrincipalKey) (s : Principals)
      → AreNamed gcm keyrings s
      → and_then (key_info_of gcm keyrings db s).0 (load_found gcm keyrings db) ≡ ok (some pk)
      → pk.key_info.database_id ≡ db
  loaded_id db pk s named h =
      let r : Result (Option SignedPrincipalKeyInfo) → Result (Option PrincipalKey) =
        λ x. and_then x (load_found gcm keyrings db) in
      elim (Result-cases (key_info_of gcm keyrings db s).0) [
        | inl (found, p) ↦
            let (signed, q, same) = load_found_id db found pk (sym (ap r p) ∙ h) in
            same ∙ named db signed (p ∙ ap ok q)
        | inr (e, p) ↦ let clash : err e ≡ ok (some pk) = sym (ap r p) ∙ h in absurd (cc clash)
      ]

  kept_other :
      (x db : ℕ) (s : Principals)
      → (x == db) ≡ false
      → (r : Result (Option PrincipalKey))
      → ((pk : PrincipalKey) → r ≡ ok (some pk) → pk.key_info.database_id ≡ x)
      → cached_key db (resume r (keep_loaded gcm keyrings x) s).1.cache ≡ cached_key db s.cache
  unfolding keep_loaded
  kept_other x db s apart (err e) own = refl
  kept_other x db s apart (ok none) own = refl
  kept_other x db s apart (ok (some pk)) own =
      cached_key-push_to_cache_other db pk s.cache (ap (λ i. i == db) (own pk refl) ∙ apart)

  -- Looking the key of one database up leaves the cache as it is for the others.
  pub get_other :
      (x db : ℕ) (s : Principals)
      → AreNamed gcm keyrings s
      → (x == db) ≡ false
      → cached_key db (get_principal_key_no_default gcm keyrings x s).1.cache
        ≡ cached_key db s.cache
  unfolding get_principal_key_no_default
  get_other x db s named apart = elim (Option-cases (cached_key x s.cache)) [
    | inr (pk, p) ↦ ap (λ o. cached_key db (get_uncached gcm keyrings x o s).1.cache) p
    | inl p ↦
        let r = and_then (key_info_of gcm keyrings x s).0 (load_found gcm keyrings x) in
        ap (λ o. cached_key db (get_uncached gcm keyrings x o s).1.cache) p
        ∙ ap (λ y. cached_key db (resume y.0 (keep_loaded gcm keyrings x) y.1).1.cache)
            (get_from_keyring_eq x s)
        ∙ kept_other x db s apart r (λ pk. loaded_id x pk s named)
  ]

  -- What is read from the key files depends on the files alone.
  pub same_info :
      (db : ℕ) (s t : Principals)
      → t.dir ≡ s.dir
      → t.wal ≡ s.wal
      → (key_info_of gcm keyrings db t).0 ≡ (key_info_of gcm keyrings db s).0
  unfolding key_info_of
  same_info db s t d w = elim (Bool-cases (db == global_data_tde_oid)) [
    | inl p ↦ rw p (ap (λ x. get_server_key_info x.keys) w)
    | inr p ↦ rw p (ap (λ x. (get_principal_key_info db x).0) d)
  ]
