-- ===== src/Wal/File/Safe.antt =====
-- Errors while the WAL key file is rewritten.
use open_pg_tde.Base.{
  ℕ, suc, ◌≡◌, refl, sym, ap, ◌∙◌, inl, inr, some, List, [], ◌∷◌, Bool, false, Result, ok, err,
  Error, Exec, resume, lift, modify, bind_ok, ◌>>=◌, ◌>>◌, if◌then◌else◌, pure, Result-cases,
}
use open_pg_tde.Keys.{Gcms, PrincipalKey, Random, sign_principal_key_info, rotate_principal_key}
use open_pg_tde.Wal.Range.{WalEncryptionRange, wal_range_from_entry, initialize_wal_key_file_entry}
use open_pg_tde.Wal.File.{WalDir, wal_dir_random, header_only, open_wal_key_file_read, put_entry}
use open_pg_tde.Wal.File.Server.{log_record}
use open_pg_tde.Wal.File.Rewrite.{
  rewrite_entries, replace_keys, opened_list, write_rotated_server, perform_rotate_server_key,
}
use open_pg_tde.Wal.File.Rotated.{logged_keys}

-- The WAL key file is the same after the step, an error of the step included.
abbrev pub Keeps : {A : Type 0} → Exec WalDir A → Type 0
Keeps m = (s : WalDir) → (m s).1.keys ≡ s.keys

resume-Keeps :
    {A B : Type 0} (r : Result A) (f : A → Exec WalDir B)
    → ((a : A) → Keeps (f a))
    → Keeps (resume r f)
resume-Keeps (ok a) f h s = h a s
resume-Keeps (err e) f h s = refl

bind-Keeps :
    {A B : Type 0} (m : Exec WalDir A) (f : A → Exec WalDir B)
    → Keeps m
    → ((a : A) → Keeps (f a))
    → Keeps (m >>= f)
bind-Keeps m f p q s = resume-Keeps (m s).0 f q (m s).1 ∙ p s

random-Keeps : {A : Type 0} (f : Random → Result (A × Random)) → Keeps (wal_dir_random f)
random-Keeps f s = elim (Result-cases (f s.rand)) [
  | inl (a, r) ↦ rw (r, wal_dir_random) refl
  | inr (e, r) ↦ rw (r, wal_dir_random) refl
]

rewrite_entries-Keeps :
    {E : Type 0} (gcm : Gcms) (pk : PrincipalKey) (open_entry : E → Result WalEncryptionRange)
    (es : List E) (pos : ℕ)
    → Keeps (rewrite_entries gcm pk open_entry es pos)
unfolding rewrite_entries
rewrite_entries-Keeps gcm pk open_entry [] pos = λ s. refl
rewrite_entries-Keeps gcm pk open_entry (e ∷ es) pos =
    bind-Keeps (lift (open_entry e)) _ (λ s. refl)
      λ range.
        bind-Keeps (wal_dir_random (initialize_wal_key_file_entry gcm pk range)) _
          (random-Keeps (initialize_wal_key_file_entry gcm pk range))
          λ w s.
            rewrite_entries-Keeps gcm pk open_entry es (suc pos)
              (record s { temporary = put_entry pos w s.temporary })

pub write_rotated_server-Keeps :
    (gcm : Gcms) (pk new_pk : PrincipalKey) → Keeps (write_rotated_server gcm pk new_pk)
unfolding write_rotated_server
write_rotated_server-Keeps gcm pk new_pk =
    bind-Keeps (wal_dir_random (sign_principal_key_info gcm new_pk)) _
      (random-Keeps (sign_principal_key_info gcm new_pk))
      λ signed s.
        bind-Keeps (lift (open_wal_key_file_read false s.keys)) _ (λ t. refl)
          (λ old t.
            rewrite_entries-Keeps gcm new_pk (wal_range_from_entry gcm pk) (opened_list old) 0
              (record t { temporary = some (header_only signed) }))
          s

-- A rotation of the server's principal key that raises an error, wherever it does, has left the WAL key
-- file as it was.
pub perform_rotate_server_key-err :
    (gcm : Gcms) (pk new_pk : PrincipalKey) (write_xlog : Bool) (s : WalDir) (e : Error)
    → (perform_rotate_server_key gcm pk new_pk write_xlog s).0 ≡ err e
    → (perform_rotate_server_key gcm pk new_pk write_xlog s).1.keys ≡ s.keys
unfolding perform_rotate_server_key
perform_rotate_server_key-err gcm pk new_pk write_xlog s e failed =
    elim (Result-cases (write_rotated_server gcm pk new_pk s).0) [
      | inl (a, r) ↦
          let log : Exec WalDir Unit =
            if write_xlog
            then modify (log_record (rotate_principal_key new_pk.key_info))
            else pure tt in
          let finish : Exec WalDir Unit = modify replace_keys >> log in
          let t = (write_rotated_server gcm pk new_pk s).1 in
          let whole : perform_rotate_server_key gcm pk new_pk write_xlog s ≡ finish t =
            bind_ok (write_rotated_server gcm pk new_pk) (λ u. finish) s a r in
          let clash : ok tt ≡ err e =
            sym (ap (λ x. x.0) whole ∙ (logged_keys write_xlog new_pk.key_info (replace_keys t)).0)
            ∙ failed in
          absurd (cc clash)
      | inr (x, r) ↦ rw r (write_rotated_server-Keeps gcm pk new_pk s)
    ]
