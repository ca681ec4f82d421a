-- ===== src/Wal/File/Rotated.antt =====
-- Rotating the server's principal key.
use open_pg_tde.Base.{
  suc, ◌≤◌, ◌≡◌, refl, sym, ap, ◌∙◌, some, none, List, [], ◌∷◌, Bool, true, false, Bytes, length,
  Result, ok, Exec, lift, gets, modify, bind_eq, bind_ok, ◌>>=◌, ◌>>◌, if◌then◌else◌, pure,
}
use open_pg_tde.Keys.{
  Gcms, PrincipalKey, PrincipalKeyInfo, Random, signed_with, sign_principal_key_info,
  rotate_principal_key,
}
use open_pg_tde.Wal.Range.{WalEncryptionRange, WalKeyFileEntry, wal_range_from_entry}
use open_pg_tde.Wal.File.{
  WalKeyFileHeader, current, WalFile, keyed, WalDir, wal_dir_random, header_only,
  open_wal_key_file_read, wal_key_file_header_read, wal_key_file_magic,
}
use open_pg_tde.Wal.File.Server.{get_server_key_info, count_wal_ranges_in_file, log_record}
use open_pg_tde.Wal.File.Rewrite.{
  rewrite_entries, open_temporary, replace_keys, opened_list, write_rotated_server,
  perform_rotate_server_key,
}
use open_pg_tde.Wal.File.Rewritten.{
  Opens, no_entries, opens, rewrite_entries-Opens, open_temporary_lem, sign_step,
}

pub Opens-length :
    {E F : Type 0} (f : E → Result WalEncryptionRange) (g : F → Result WalEncryptionRange)
    (es : List E) (fs : List F) (rs : List WalEncryptionRange)
    → Opens f es rs
    → Opens g fs rs
    → length es ≡ length fs
Opens-length f g _ _ _ no_entries no_entries = refl
Opens-length f g _ _ _ (opens {es = es} {rs = rs} a b c) (opens {es = fs} d e h) =
    ap suc (Opens-length f g es fs rs c h)

-- the file that a rewriting leaves
abbrev pub rewritten_file : Gcms → PrincipalKey → Bytes → List WalKeyFileEntry → WalFile
rewritten_file gcm pk iv es =
    keyed (record { file_version = wal_key_file_magic; signed_key_info = signed_with gcm pk iv })
      (current es)

pub rewritten_info :
    (gcm : Gcms) (pk : PrincipalKey) (iv : Bytes) (es : List WalKeyFileEntry)
    → get_server_key_info (some (rewritten_file gcm pk iv es)) ≡ ok (some (signed_with gcm pk iv))
unfolding get_server_key_info wal_key_file_header_read
rewritten_info gcm pk iv es = refl

pub count_lem :
    (h : WalKeyFileHeader) (es : List WalKeyFileEntry)
    → h.file_version ≡ wal_key_file_magic
    → count_wal_ranges_in_file (some (keyed h (current es))) ≡ ok (length es)
unfolding count_wal_ranges_in_file open_wal_key_file_read wal_key_file_header_read
count_lem h es v = rw v refl

pub logged_keys :
    (write_xlog : Bool) (info : PrincipalKeyInfo) (t : WalDir)
    → let r = (if write_xlog then modify (log_record (rotate_principal_key info)) else pure tt) t in
      (r.0 ≡ ok tt) × (r.1.keys ≡ t.keys) × (r.1.temporary ≡ t.temporary)
logged_keys true info t = (refl, refl, refl)
logged_keys false info t = (refl, refl, refl)

module _ (gcm : Gcms) (pk new_pk : PrincipalKey) (h : WalKeyFileHeader) (es : List WalKeyFileEntry)
    (iv : Bytes) (rest : Random) where
  open_old :
      h.file_version ≡ wal_key_file_magic
      → open_wal_key_file_read false (some (keyed h (current es))) ≡ ok (some es)
  unfolding open_wal_key_file_read wal_key_file_header_read
  open_old v = rw v refl

  -- up to the loop
  pub rotation_start :
      (s : WalDir)
      → s.keys ≡ some (keyed h (current es))
      → h.file_version ≡ wal_key_file_magic
      → s.rand ≡ iv ∷ rest
      → write_rotated_server gcm pk new_pk s
        ≡ rewrite_entries gcm new_pk
            (wal_range_from_entry gcm pk)
            es
            0
            (record s { rand = rest; temporary = some (header_only (signed_with gcm new_pk iv)) })
  unfolding write_rotated_server
  rotation_start s stored v p =
      let signed = signed_with gcm new_pk iv in
      let s1 : WalDir = record s { rand = rest } in
      let s2 : WalDir = record s1 { temporary = some (header_only signed) } in
      let copy : List WalKeyFileEntry → Exec WalDir Unit =
        λ xs. rewrite_entries gcm new_pk (wal_range_from_entry gcm pk) xs 0 in
      let read : open_wal_key_file_read false s.keys ≡ ok (some es) =
        ap (open_wal_key_file_read false) stored ∙ open_old v in
      bind_eq (wal_dir_random (sign_principal_key_info gcm new_pk))
        (λ signed. gets (λ s. s.keys) >>= λ found.
          lift (open_wal_key_file_read false found) >>= λ old.
          open_temporary signed >> copy (opened_list old))
        s s1 signed (sign_step gcm new_pk s iv rest p)
      ∙ bind_eq (lift (open_wal_key_file_read false s.keys))
          (λ old. open_temporary signed >> copy (opened_list old)) s1 s1 (some es)
          (ap (λ r. (r, s1)) read)
      ∙ bind_eq (open_temporary signed) (λ u. copy es) s1 s2 tt (open_temporary_lem signed s1)

  rotated_lem :
      (rs : List WalEncryptionRange) (s : WalDir)
      → s.keys ≡ some (keyed h (current es))
      → h.file_version ≡ wal_key_file_magic
      → Opens (wal_range_from_entry gcm pk) es rs
      → s.rand ≡ iv ∷ rest
      → length es ≤ length rest
      → let r = write_rotated_server gcm pk new_pk s in
        (r.0 ≡ ok tt)
        × (out : List WalKeyFileEntry) × Opens (wal_range_from_entry gcm new_pk) out rs
        × (r.1.temporary ≡ some (rewritten_file gcm new_pk iv out))
  rotated_lem rs s stored v o p n =
      let signed = signed_with gcm new_pk iv in
      rw (rotation_start s stored v p) (
        rewrite_entries-Opens gcm new_pk (wal_range_from_entry gcm pk) es rs
          (record { file_version = wal_key_file_magic; signed_key_info = signed }) []
          (record s { rand = rest; temporary = some (header_only signed) }) o refl n)

  -- Where the key file is of the current version, the old principal key opens each entry of it to a
  -- range with a key that fits an entry, and random bytes are at hand, rotating the server's principal
  -- key succeeds. Then the new key opens the entries of the file to the same ranges, one for one and in
  -- their order; the file names the new key and holds as many ranges as before; and the temporary file
  -- is gone.
  pub perform_rotate_server_key-Opens :
      (rs : List WalEncryptionRange) (write_xlog : Bool) (s : WalDir)
      → s.keys ≡ some (keyed h (current es))
      → h.file_version ≡ wal_key_file_magic
      → Opens (wal_range_from_entry gcm pk) es rs
      → s.rand ≡ iv ∷ rest
      → length es ≤ length rest
      → let r = perform_rotate_server_key gcm pk new_pk write_xlog s in
        (r.0 ≡ ok tt)
        × (out : List WalKeyFileEntry) × (r.1.keys ≡ some (rewritten_file gcm new_pk iv out))
        × Opens (wal_range_from_entry gcm new_pk) out rs
        × (get_server_key_info r.1.keys ≡ ok (some (signed_with gcm new_pk iv)))
        × (count_wal_ranges_in_file r.1.keys ≡ count_wal_ranges_in_file s.keys)
        × (r.1.temporary ≡ none)
  unfolding perform_rotate_server_key
  perform_rotate_server_key-Opens rs write_xlog s stored v o p n =
      let (done, out, reopened, file) = rotated_lem rs s stored v o p n in
      let t = (write_rotated_server gcm pk new_pk s).1 in
      let new_header : WalKeyFileHeader = record {
        file_version = wal_key_file_magic;
        signed_key_info = signed_with gcm new_pk iv;
      } in
      let log : Exec WalDir Unit =
        if write_xlog
        then modify (log_record (rotate_principal_key new_pk.key_info))
        else pure tt in
      let finish : Exec WalDir Unit = modify replace_keys >> log in
      let (logged, kept, gone) = logged_keys write_xlog new_pk.key_info (replace_keys t) in
      let whole : perform_rotate_server_key gcm pk new_pk write_xlog s ≡ finish t =
        bind_ok (write_rotated_server gcm pk new_pk) (λ u. finish) s tt done in
      let arrived : (log (replace_keys t)).1.keys ≡ some (rewritten_file gcm new_pk iv out) =
        kept ∙ file in
      rw whole (
        logged,
        out,
        arrived,
        reopened,
        ap get_server_key_info arrived ∙ rewritten_info gcm new_pk iv out,
        ap count_wal_ranges_in_file arrived
            ∙ count_lem new_header out refl
            ∙ ap ok (
                Opens-length (wal_range_from_entry gcm new_pk) (wal_range_from_entry gcm pk) out es
                  rs reopened o)
            ∙ sym (ap count_wal_ranges_in_file stored ∙ count_lem h es v),
        gone,
      )
