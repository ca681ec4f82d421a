-- ===== src/KeyMap/MigrateSafe.antt =====
-- What a failed migration leaves behind.
use open_pg_tde.Base.{
  ℕ, ◌≡◌, refl, sym, ap, ◌∙◌, inl, inr, Bool, true, false, Option, none, some, List, [], ◌∷◌, ◌==◌,
  if◌then◌else◌, map, Result, ok, err, Error, Exec, lift, modify, bind_ok, ◌>>=◌, ◌>>◌,
  Result-cases,
}
use open_pg_tde.Keys.{Gcms, PrincipalKey, sign_principal_key_info}
use open_pg_tde.KeyMap.Layout.{
  TdeFileHeader, TdeMapEntry, TdeMapEntryV3, TdeMapEntryV4, map_entry_type_empty, Body, KeyFile,
  empty, torn, keyed, KeyDir, keys, temporary, smgr_file_magic, filemagic_version,
}
use open_pg_tde.KeyMap.Entry.{initialize_map_entry}
use open_pg_tde.KeyMap.File.{with_random, open_file_write, write_one_map_entry}
use open_pg_tde.KeyMap.Rotate.{rename}
use open_pg_tde.KeyMap.Keeps.{
  Keeps, bind-Keeps, with_random-Keeps, open_file_write-Keeps, write_one_map_entry-Keeps,
}
use open_pg_tde.KeyMap.Old.{
  ikey_from_map_entry_v3, ikey_from_map_entry_v4, old_locator, map_from_disk_entry_v3,
  map_from_disk_entry_v4, old_entries, migrate_entries, rewrite_file, migrate_keyed, migrate_file,
  supported_version, migrate_checked, v3_entries, v4_entries, v5_entries,
}

-- each reader in a list leaves the key files alone
data AllKeep : List (Exec KeyDir TdeMapEntry) → Type 0 where
  no_readers : AllKeep []
  reader :
      {m : Exec KeyDir TdeMapEntry} {ms : List (Exec KeyDir TdeMapEntry)}
      → Keeps m
      → AllKeep ms
      → AllKeep (m ∷ ms)

if-Keeps :
    {A : Type 0} (b : Bool) (m n : Exec KeyDir A) → Keeps m → Keeps n → Keeps (if b then m else n)
if-Keeps true m n p q = p
if-Keeps false m n p q = q

test-Keeps :
    {A : Type 0} (b : Bool) (m n : Exec KeyDir A)
    → Keeps m
    → Keeps n
    → Keeps (elim b [ true ↦ m | false ↦ n ])
test-Keeps true m n p q = p
test-Keeps false m n p q = q

v3-Keeps :
    (gcm : Gcms) (pk : PrincipalKey) (e : TdeMapEntryV3) → Keeps (map_from_disk_entry_v3 gcm pk e)
unfolding map_from_disk_entry_v3
v3-Keeps gcm pk e =
    if-Keeps (e.type == map_entry_type_empty) _ _ (λ _ _. refl)
      (bind-Keeps (lift (ikey_from_map_entry_v3 gcm pk e))
        (λ key.
          with_random (initialize_map_entry gcm pk (old_locator pk e.spc_oid e.rel_number) key))
        (λ _ _. refl)
        (λ key.
          with_random-Keeps
            (initialize_map_entry gcm pk (old_locator pk e.spc_oid e.rel_number) key)))

v4-Keeps :
    (gcm : Gcms) (pk : PrincipalKey) (e : TdeMapEntryV4) → Keeps (map_from_disk_entry_v4 gcm pk e)
unfolding map_from_disk_entry_v4
v4-Keeps gcm pk e =
    if-Keeps (e.type == map_entry_type_empty) _ _ (λ _ _. refl)
      (bind-Keeps (lift (ikey_from_map_entry_v4 gcm pk e))
        (λ key.
          with_random (initialize_map_entry gcm pk (old_locator pk e.spc_oid e.rel_number) key))
        (λ _ _. refl)
        (λ key.
          with_random-Keeps
            (initialize_map_entry gcm pk (old_locator pk e.spc_oid e.rel_number) key)))

map-AllKeep :
    {E : Type 0} (f : E → Exec KeyDir TdeMapEntry) (es : List E)
    → ((e : E) → Keeps (f e))
    → AllKeep (map f es)
map-AllKeep f [] p = no_readers
map-AllKeep f (e ∷ es) p = reader (p e) (map-AllKeep f es p)

migrate_entries-Keeps :
    (db : ℕ) (ms : List (Exec KeyDir TdeMapEntry)) (pos : ℕ)
    → AllKeep ms
    → Keeps (migrate_entries (temporary db) ms pos)
unfolding migrate_entries
migrate_entries-Keeps db _ pos no_readers = λ s db'. refl
migrate_entries-Keeps db _ pos (reader {m = m} {ms = ms} p ps) = bind-Keeps m _ p λ e.
    test-Keeps (e.type == map_entry_type_empty) _ _ (migrate_entries-Keeps db ms pos ps) (
      bind-Keeps (write_one_map_entry (temporary db) e pos) (migrate_entries (temporary db) ms)
        (write_one_map_entry-Keeps db e pos) (λ next. migrate_entries-Keeps db ms next ps))

abbrev AllKeepOk : Result (List (Exec KeyDir TdeMapEntry)) → Type 0
AllKeepOk (ok ms) = AllKeep ms
AllKeepOk (err e) = Unit

if-AllKeepOk :
    (b : Bool) (x y : Result (List (Exec KeyDir TdeMapEntry)))
    → AllKeepOk x
    → AllKeepOk y
    → AllKeepOk (if b then x else y)
if-AllKeepOk true x y p q = p
if-AllKeepOk false x y p q = q

old_entries-AllKeep :
    (gcm : Gcms) (pk : PrincipalKey) (version : ℕ) (body : Body)
    → AllKeepOk (old_entries gcm pk version body)
unfolding old_entries
old_entries-AllKeep gcm pk version body =
    if-AllKeepOk (version == 3) _ _ (map-AllKeep _ (v3_entries body) (v3-Keeps gcm pk)) (
      if-AllKeepOk (version == 4) _ _ (map-AllKeep _ (v4_entries body) (v4-Keeps gcm pk))
        (if-AllKeepOk (version == 5) _ _ (map-AllKeep _ (v5_entries body) (v4-Keeps gcm pk)) tt))

rewrite_file-Keeps :
    (gcm : Gcms) (pk : PrincipalKey) (db : ℕ) (ms : List (Exec KeyDir TdeMapEntry))
    → AllKeep ms
    → Keeps (rewrite_file gcm pk db ms)
unfolding rewrite_file
rewrite_file-Keeps gcm pk db ms p =
    bind-Keeps (with_random (sign_principal_key_info gcm pk)) _
      (with_random-Keeps (sign_principal_key_info gcm pk))
      λ signed.
        bind-Keeps (open_file_write (temporary db) (some signed) true)
          (λ f. migrate_entries (temporary db) ms f.curr_pos)
          (open_file_write-Keeps db (some signed) true)
          (λ f. migrate_entries-Keeps db ms f.curr_pos p)

-- No key file differs in the state that an error is raised in.
abbrev SafeError : Exec KeyDir Unit → Type 0
SafeError m =
    (s : KeyDir) (e : Error)
    → (m s).0 ≡ err e
    → (db : ℕ) → (m s).1.file (keys db) ≡ s.file (keys db)

Keeps-SafeError : (m : Exec KeyDir Unit) → Keeps m → SafeError m
Keeps-SafeError m p s e failed db = p s db

-- A rewriting step followed by one that cannot fail.
commit-SafeError :
    (m : Exec KeyDir Unit) (f : KeyDir → KeyDir) → Keeps m → SafeError (m >> modify f)
commit-SafeError m f p s e failed db = elim (Result-cases (m s).0) [
  | inl (a, r) ↦
      let clash : ok tt ≡ err e = sym (ap (λ x. x.0) (bind_ok m (λ _. modify f) s a r)) ∙ failed in
      absurd (cc clash)
  | inr (x, r) ↦ rw r (p s db)
]

migrate_with :
    (gcm : Gcms) (pk : PrincipalKey) (db : ℕ) (r : Result (List (Exec KeyDir TdeMapEntry)))
    → AllKeepOk r
    → SafeError
        (lift r >>= λ ms. rewrite_file gcm pk db ms >> modify (rename (temporary db) (keys db)))
migrate_with gcm pk db (ok ms) p =
    commit-SafeError (rewrite_file gcm pk db ms) (rename (temporary db) (keys db))
      (rewrite_file-Keeps gcm pk db ms p)
migrate_with gcm pk db (err x) p = λ s e failed db'. refl

if-SafeError :
    (b : Bool) (m n : Exec KeyDir Unit) → SafeError m → SafeError n → SafeError (if b then m else n)
if-SafeError true m n p q = p
if-SafeError false m n p q = q

lift-SafeError :
    {A : Type 0} (r : Result A) (f : A → Exec KeyDir Unit)
    → ((a : A) → SafeError (f a))
    → SafeError (lift r >>= f)
lift-SafeError (ok a) f p = p a
lift-SafeError (err x) f p = λ s e failed db. refl

migrate_checked-SafeError :
    (gcm : Gcms) (pk : Option PrincipalKey) (db : ℕ) (h : TdeFileHeader) (body : Body)
    → SafeError (migrate_checked gcm pk db h body)
unfolding migrate_checked
migrate_checked-SafeError gcm none db h body = λ _ _ _ _. refl
migrate_checked-SafeError gcm (some pk) db h body =
    migrate_with gcm pk db (old_entries gcm pk (filemagic_version h.file_version) body)
      (old_entries-AllKeep gcm pk (filemagic_version h.file_version) body)

migrate_keyed-SafeError :
    (gcm : Gcms) (pk : Option PrincipalKey) (db : ℕ) (h : TdeFileHeader) (body : Body)
    → SafeError (migrate_keyed gcm pk db h body)
unfolding migrate_keyed
migrate_keyed-SafeError gcm pk db h body =
    if-SafeError (h.file_version == smgr_file_magic) _ _ (λ _ _ _ _. refl)
      (lift-SafeError (supported_version (filemagic_version h.file_version)) _
        (λ _. migrate_checked-SafeError gcm pk db h body))

-- Where the migration of one key file raises an error (no principal key, an unknown version, a key
-- that cannot be decrypted, no random bytes), no key file has changed.
pub migrate_file-err :
    (gcm : Gcms) (pk : Option PrincipalKey) (db : ℕ) (f : Option KeyFile) (s : KeyDir) (e : Error)
    → (migrate_file gcm pk db f s).0 ≡ err e
    → (other : ℕ) → (migrate_file gcm pk db f s).1.file (keys other) ≡ s.file (keys other)
unfolding migrate_file
migrate_file-err gcm pk db none s e failed other = refl
migrate_file-err gcm pk db (some empty) s e failed other = refl
migrate_file-err gcm pk db (some torn) s e failed other = refl
migrate_file-err gcm pk db (some (keyed h body)) s e failed other =
    migrate_keyed-SafeError gcm pk db h body s e failed other
