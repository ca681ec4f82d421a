-- ===== src/KeyMap/Keeps.antt =====
-- Steps that leave the key files as they are, whatever becomes of them.
use open_pg_tde.Base.{
  ℕ, ◌≡◌, refl, sym, ap, ◌∙◌, inl, inr, Bool, true, false, Bool-cases, Option, none, some, List, [],
  ◌∷◌, ◌==◌, if◌then◌else◌, Result, ok, err, Error, Exec, pure, lift, modify, bind_ok, ◌>>=◌, ◌>>◌,
  Result-cases, and_then,
}
use open_pg_tde.Keys.{
  Gcms, PrincipalKey, SignedPrincipalKeyInfo, Random, sign_principal_key_info, rotate_principal_key,
}
use open_pg_tde.KeyMap.Layout.{
  TdeFileHeader, put_file, TdeMapEntry, map_entry_type_empty, KeyDir, FilePath, keys, temporary,
  path_eq,
}
use open_pg_tde.KeyMap.Entry.{initialize_map_entry, decrypt_rel_key}
use open_pg_tde.KeyMap.File.{
  with_random, open_file_read, open_file_write, write_one_map_entry, start_file, file_header_write,
  file_header_read, opened, versioned, entries_of,
}
use open_pg_tde.KeyMap.Lookup.{opened_entries}
use open_pg_tde.KeyMap.Rotated.{log_lem}
use open_pg_tde.KeyMap.Rotate.{
  xlog_insert, rename, locator, rotate_entries, write_rotated, perform_rotate_key,
}

-- No key file differs after the step, an error of the step included.
abbrev pub Keeps : {A : Type 0} → Exec KeyDir A → Type 0
Keeps m = (s : KeyDir) (db : ℕ) → (m s).1.file (keys db) ≡ s.file (keys db)

pub bind-Keeps :
    {A B : Type 0} (m : Exec KeyDir A) (f : A → Exec KeyDir B)
    → Keeps m
    → ((a : A) → Keeps (f a))
    → Keeps (m >>= f)
bind-Keeps m f p q s db = elim (Result-cases (m s).0) [
  | inl (a, r) ↦ rw r (q a (m s).1 db ∙ p s db)
  | inr (e, r) ↦ rw r (p s db)
]

pub with_random-Keeps : {A : Type 0} (f : Random → Result (A × Random)) → Keeps (with_random f)
with_random-Keeps f s db = elim (Result-cases (f s.rand)) [
  | inl (a, r) ↦ rw (r, with_random) refl
  | inr (e, r) ↦ rw (r, with_random) refl
]

pub open_file_read-Keeps : (path : FilePath) (ignore : Bool) → Keeps (open_file_read path ignore)
unfolding open_file_read
open_file_read-Keeps path ignore s db = refl

start_file-Keeps :
    (db : ℕ) (signed : Option SignedPrincipalKeyInfo) (es : List TdeMapEntry)
    (h : Option TdeFileHeader)
    → Keeps (start_file (temporary db) signed es h)
unfolding start_file file_header_write path_eq
start_file-Keeps db signed es (some h) s db' = refl
start_file-Keeps db none es none s db' = refl
start_file-Keeps db (some info) es none s db' = refl

pub open_file_write-Keeps :
    (db : ℕ) (signed : Option SignedPrincipalKeyInfo) (truncate : Bool)
    → Keeps (open_file_write (temporary db) signed truncate)
unfolding open_file_write path_eq
open_file_write-Keeps db signed truncate s db' =
    let f = opened truncate (s.file (temporary db)) in
    bind-Keeps (lift (and_then (file_header_read f) versioned))
      (start_file (temporary db) signed (entries_of f)) (λ _ _. refl)
      (start_file-Keeps db signed (entries_of f)) (put_file (temporary db) (some f) s) db'

pub write_one_map_entry-Keeps :
    (db : ℕ) (e : TdeMapEntry) (pos : ℕ) → Keeps (write_one_map_entry (temporary db) e pos)
unfolding write_one_map_entry path_eq
write_one_map_entry-Keeps db e pos s db' = refl

pub rotate_entries-Keeps :
    (gcm : Gcms) (pk new_pk : PrincipalKey) (db : ℕ) (es : List TdeMapEntry) (pos : ℕ)
    → Keeps (rotate_entries gcm pk new_pk (temporary db) es pos)
unfolding rotate_entries
rotate_entries-Keeps gcm pk new_pk db [] pos = λ s db'. refl
rotate_entries-Keeps gcm pk new_pk db (e ∷ es) pos =
    let path = temporary db in
    elim (Bool-cases (e.type == map_entry_type_empty)) [
      | inl p ↦ λ s db'. rw (p, rotate_entries) (rotate_entries-Keeps gcm pk new_pk db es pos s db')
      | inr p ↦ λ s db'.
          rw (p, rotate_entries)
            (bind-Keeps (lift (decrypt_rel_key gcm pk e))
              (λ key.
                with_random (initialize_map_entry gcm new_pk (locator pk e) key) >>= λ written.
                write_one_map_entry path written pos >>= rotate_entries gcm pk new_pk path es)
              (λ _ _. refl)
              (λ key.
                bind-Keeps (with_random (initialize_map_entry gcm new_pk (locator pk e) key))
                  (λ written.
                    write_one_map_entry path written pos >>= rotate_entries gcm pk new_pk path es)
                  (with_random-Keeps (initialize_map_entry gcm new_pk (locator pk e) key))
                  (λ written.
                    bind-Keeps (write_one_map_entry path written pos)
                      (rotate_entries gcm pk new_pk path es)
                      (write_one_map_entry-Keeps db written pos)
                      (rotate_entries-Keeps gcm pk new_pk db es)))
              s db')
    ]

pub write_rotated-Keeps :
    (gcm : Gcms) (pk new_pk : PrincipalKey) → Keeps (write_rotated gcm pk new_pk)
unfolding write_rotated
write_rotated-Keeps gcm pk new_pk =
    let db = pk.key_info.database_id in
    bind-Keeps (with_random (sign_principal_key_info gcm new_pk)) _
      (with_random-Keeps (sign_principal_key_info gcm new_pk))
      (λ signed.
        bind-Keeps (open_file_read (keys db) false) _ (open_file_read-Keeps (keys db) false) λ old.
          bind-Keeps (open_file_write (temporary db) (some signed) true)
            (λ f. rotate_entries gcm pk new_pk (temporary db) (opened_entries old) f.curr_pos)
            (open_file_write-Keeps db (some signed) true)
            (λ f. rotate_entries-Keeps gcm pk new_pk db (opened_entries old) f.curr_pos))

-- A rotation that raises an error, wherever it does, has changed no key file: each database's keys
-- are as they were, sealed under the old principal key.
pub perform_rotate_key-err :
    (gcm : Gcms) (pk new_pk : PrincipalKey) (write_xlog : Bool) (s : KeyDir) (e : Error)
    → (perform_rotate_key gcm pk new_pk write_xlog s).0 ≡ err e
    → (db : ℕ) → (perform_rotate_key gcm pk new_pk write_xlog s).1.file (keys db) ≡ s.file (keys db)
unfolding perform_rotate_key
perform_rotate_key-err gcm pk new_pk write_xlog s e failed db =
    elim (Result-cases (write_rotated gcm pk new_pk s).0) [
      | inl (a, r) ↦
          let own = pk.key_info.database_id in
          let t = (write_rotated gcm pk new_pk s).1 in
          let moved = rename (temporary own) (keys own) t in
          let finish : Exec KeyDir Unit =
            modify (rename (temporary own) (keys own))
            >> (if write_xlog
                then modify (xlog_insert (rotate_principal_key new_pk.key_info))
                else pure tt) in
          let whole : perform_rotate_key gcm pk new_pk write_xlog s ≡ finish t =
            bind_ok (write_rotated gcm pk new_pk) (λ _. finish) s a r in
          let clash : ok tt ≡ err e =
            sym (ap (λ x. x.0) whole ∙ (log_lem write_xlog new_pk.key_info moved).0) ∙ failed in
          absurd (cc clash)
      | inr (x, r) ↦ rw r (write_rotated-Keeps gcm pk new_pk s db)
    ]
