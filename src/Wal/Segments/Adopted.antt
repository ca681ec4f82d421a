-- ===== src/Wal/Segments/Adopted.antt =====
-- The key that the postmaster makes at its start, and the processes that take it from the key file.
use open_pg_tde.Base.{
  ℕ, ◌≡◌, refl, sym, ap, ◌∙◌, ◌⊎◌, Bytes, length, Option, some, List, [], ◌∷◌, ◌++◌, ok, Bool, true,
  false, and_then, bind_eq, resume, ◌>>◌,
}
use open_pg_tde.Cipher.{builtin}
use open_pg_tde.Keys.{PrincipalKey, Random}
use open_pg_tde.Wal.Range.{
  WalEncryptionRange, WalKeyFileEntry, encrypted, no_location, seal_wal_entry,
}
use open_pg_tde.Wal.Ranges.{WalKeys, create_wal_range}
use open_pg_tde.Wal.Entry.{wal_range_from_entry_lem}
use open_pg_tde.Wal.Created.{new_range, new_range-IsKey, create_wal_range_lem}
use open_pg_tde.Wal.Segments.{WalEnv, XlogSmgr, with_keys, prefetch}
use open_pg_tde.Wal.Segments.Init.{
  last_entry, read_last_wal_range, range_of_last, free_wal_key_cache, create_current, adopt,
  choose_range, init_write,
}
use open_pg_tde.Wal.Segments.Ensure.{prefetch-Caches}

last_entry-append :
    (es : List WalKeyFileEntry) (e : WalKeyFileEntry) → last_entry (es ++ e ∷ []) ≡ some e
last_entry-append [] e = refl
last_entry-append (d ∷ []) e = refl
last_entry-append (d ∷ f ∷ es) e = last_entry-append (f ∷ es) e

module _ (env : WalEnv) (pk : PrincipalKey) (known : env.principal_key ≡ some pk)
    (suites : env.ciphers ≡ builtin) (key_len : ℕ) (aes_key : (key_len ≡ 16) ⊎ (key_len ≡ 32))
    (key iv sign_iv entry_iv : Bytes) (rest : Random) (sized : length key ≡ key_len) where
  abbrev made : WalEncryptionRange
  made = new_range env.gcm pk encrypted key_len aes_key key iv sign_iv entry_iv rest sized

  abbrev entry : WalKeyFileEntry
  entry = seal_wal_entry env.gcm pk made entry_iv

  read_made :
      (es : List WalKeyFileEntry)
      → read_last_wal_range env.gcm env.principal_key (es ++ entry ∷ []) ≡ ok (some made)
  unfolding read_last_wal_range range_of_last seal_wal_entry
  read_made es =
      rw (known, last_entry-append es entry)
        (ap (λ c. and_then c λ r. ok (some r))
          (wal_range_from_entry_lem env.gcm pk made entry_iv no_location (
            new_range-IsKey env.gcm pk encrypted key_len aes_key key iv sign_iv entry_iv rest
              sized)))

  -- the state after the new range, before the cache is filled
  abbrev created : XlogSmgr → XlogSmgr
  created s = record s {
    keys = record { entries = s.keys.entries ++ entry ∷ []; cache = []; rand = rest };
    current = made;
  }

  create_current_lem :
      (s : XlogSmgr)
      → s.keys.rand ≡ key ∷ iv ∷ sign_iv ∷ entry_iv ∷ rest
      → create_current env encrypted key_len (free_wal_key_cache s) ≡ (ok tt, created s)
  unfolding create_current
  create_current_lem s r =
      let w : WalKeys = record s.keys { cache = [] } in
      let done : create_wal_range env.gcm env.ciphers env.principal_key encrypted key_len w
          ≡ (ok made, (created s).keys) =
        ap (λ c. create_wal_range env.gcm c env.principal_key encrypted key_len w) suites
        ∙ ap (λ k. create_wal_range env.gcm builtin k encrypted key_len w) known
        ∙ create_wal_range_lem env.gcm pk encrypted key_len aes_key key iv sign_iv entry_iv rest
            sized w r in
      bind_eq (with_keys (create_wal_range env.gcm env.ciphers env.principal_key encrypted key_len))
        _ (free_wal_key_cache s) (record s { keys = (created s).keys }) made
        (ap (λ p. (p.0, record s { keys = p.1 })) done)

  -- the part of TDEXLogSmgrInitWrite after the last range was read
  init_rest :
      (under encrypt : Bool) (s : XlogSmgr) (range : Option WalEncryptionRange)
      → read_last_wal_range env.gcm env.principal_key s.keys.entries ≡ ok range
      → init_write env under encrypt key_len s
        ≡ (choose_range env under encrypt key_len range >> prefetch env) (free_wal_key_cache s)
  unfolding init_write
  init_rest under encrypt s range h =
      ap
        (λ c.
          resume c (λ r. choose_range env under encrypt key_len r >> prefetch env)
            (free_wal_key_cache s))
        h

  postmaster :
      (s : XlogSmgr) (last : Option WalEncryptionRange)
      → s.keys.rand ≡ key ∷ iv ∷ sign_iv ∷ entry_iv ∷ rest
      → read_last_wal_range env.gcm env.principal_key s.keys.entries ≡ ok last
      → init_write env false true key_len s ≡ prefetch env (created s)
  unfolding choose_range
  postmaster s last r h =
      init_rest false true s last h
      ∙ bind_eq (choose_range env false true key_len last) (λ u. prefetch env)
          (free_wal_key_cache s) (created s) tt (create_current_lem s r)

  child :
      (encrypt : Bool) (u : XlogSmgr) (es : List WalKeyFileEntry)
      → u.keys.entries ≡ es ++ entry ∷ []
      → init_write env true encrypt key_len u
        ≡ prefetch env (record (free_wal_key_cache u) { current = made })
  unfolding choose_range adopt
  child encrypt u es h =
      init_rest true encrypt u (some made)
        (ap (read_last_wal_range env.gcm env.principal_key) h ∙ read_made es)

  -- With a principal key, random bytes at hand and a key file whose last entry can be read, starting
  -- the postmaster with WAL encryption on appends one entry to the key file and makes a new encrypted
  -- range the current one, and every process under it that starts with this file takes that same range
  -- as its current one, and leaves the file as it is.
  pub init_write-adopts :
      (s u : XlogSmgr) (encrypt : Bool) (last : Option WalEncryptionRange)
      → s.keys.rand ≡ key ∷ iv ∷ sign_iv ∷ entry_iv ∷ rest
      → read_last_wal_range env.gcm env.principal_key s.keys.entries ≡ ok last
      → u.keys.entries ≡ (init_write env false true key_len s).1.keys.entries
      → (e : WalKeyFileEntry) × ((init_write env false true key_len s).1.keys.entries
          ≡ s.keys.entries ++ e ∷ [])
        × ((init_write env false true key_len s).1.current.type ≡ encrypted)
        × ((init_write env true encrypt key_len u).1.current
            ≡ (init_write env false true key_len s).1.current)
        × ((init_write env true encrypt key_len u).1.keys.entries ≡ u.keys.entries)
  init_write-adopts s u encrypt last r h same =
      let main = postmaster s last r h in
      let kept = prefetch-Caches env (created s) in
      let file : (init_write env false true key_len s).1.keys.entries
          ≡ s.keys.entries ++ entry ∷ [] =
        ap (λ p. p.1.keys.entries) main ∙ kept.0 in
      let current : (init_write env false true key_len s).1.current ≡ made =
        ap (λ p. p.1.current) main ∙ kept.2 in
      let start : XlogSmgr = record (free_wal_key_cache u) { current = made } in
      let run = child encrypt u s.keys.entries (same ∙ file) in
      let taken = prefetch-Caches env start in
      (
        entry,
        file,
        ap (λ x. x.type) current,
        ap (λ p. p.1.current) run ∙ taken.2 ∙ sym current,
        ap (λ p. p.1.keys.entries) run ∙ taken.0,
      )
