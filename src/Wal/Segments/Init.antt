-- ===== src/Wal/Segments/Init.antt =====
-- TDEXLogSmgrInitWrite and TDEXLogSmgrInitWriteOldKeys: the current range at the start of a process.
use open_pg_tde.Base.{
  ℕ, Bool, false, Option, none, some, List, [], ◌∷◌, if◌then◌else◌, Result, ok, and_then, Exec,
  pure, lift, gets, modify, ◌>>=◌, ◌>>◌,
}
use open_pg_tde.Keys.{Gcms, PrincipalKey}
use open_pg_tde.Wal.Range.{
  WalEncryptionRangeType, WalEncryptionRange, max_location, unencrypted, encrypted,
  wal_range_from_entry, WalKeyFileEntry,
}
use open_pg_tde.Wal.Ranges.{create_wal_range, stub_range}
use open_pg_tde.Wal.Crypt.{is_encrypted}
use open_pg_tde.Wal.Segments.{WalEnv, XlogSmgr, with_keys, prefetch}

-- the last entry of the file
abbrev pub last_entry : List WalKeyFileEntry → Option WalKeyFileEntry
last_entry [] = none
last_entry (e ∷ []) = some e
last_entry (d ∷ e ∷ es) = last_entry (e ∷ es)

unfoldable pub range_of_last :
    Gcms → PrincipalKey → Option WalKeyFileEntry → Result (Option WalEncryptionRange)
unfolding wal_range_from_entry
range_of_last gcm pk none = ok none
range_of_last gcm pk (some e) = and_then (wal_range_from_entry gcm pk e) λ r. ok (some r)

-- open_pg_tde_read_last_wal_range, from the entries of the file
unfoldable pub read_last_wal_range :
    Gcms → Option PrincipalKey → List WalKeyFileEntry → Result (Option WalEncryptionRange)
unfolding range_of_last
read_last_wal_range gcm none es = ok none
read_last_wal_range gcm (some pk) es = range_of_last gcm pk (last_entry es)

-- open_pg_tde_free_wal_key_cache
abbrev pub free_wal_key_cache : XlogSmgr → XlogSmgr
free_wal_key_cache s = record s { keys = record s.keys { cache = [] } }

-- CurrentWalEncryptionRange before any initialization
abbrev pub no_range : WalEncryptionRange
no_range = stub_range

module _ (env : WalEnv) where
  open env use {gcm, ciphers, principal_key}

  -- a new range, which becomes the current one
  unfoldable pub create_current : WalEncryptionRangeType → ℕ → Exec XlogSmgr Unit
  unfolding create_wal_range
  create_current type key_len = do
    range ← with_keys (create_wal_range gcm ciphers principal_key type key_len)
    modify (λ s. record s { current = range })

  -- the range of the file, which stays the current one
  unfoldable pub keep_current : Option WalEncryptionRange → Exec XlogSmgr Unit
  keep_current none = pure tt
  keep_current (some range) = modify (λ s. record s { current = range; enc_key = range.start })

  abbrev pub is_encrypted_range : Option WalEncryptionRange → Bool
  is_encrypted_range none = false
  is_encrypted_range (some range) = is_encrypted range.type

  -- a process under the postmaster takes the key that the postmaster made
  unfoldable pub adopt : Option WalEncryptionRange → Exec XlogSmgr Unit
  adopt none = pure tt
  adopt (some range) = modify (λ s. record s { current = range })

  unfoldable pub choose_range : Bool → Bool → ℕ → Option WalEncryptionRange → Exec XlogSmgr Unit
  unfolding create_current keep_current adopt
  choose_range under_postmaster encrypt_xlog key_len range =
      if under_postmaster
      then adopt range
      else if encrypt_xlog
      then create_current encrypted key_len
      else if is_encrypted_range range
      then create_current unencrypted key_len
      else keep_current range

  -- TDEXLogSmgrInitWrite; `under_postmaster` is IsUnderPostmaster, false in a front-end program
  unfoldable pub init_write : Bool → Bool → ℕ → Exec XlogSmgr Unit
  unfolding read_last_wal_range choose_range prefetch
  init_write under_postmaster encrypt_xlog key_len = do
    modify free_wal_key_cache
    entries ← gets (λ s. s.keys.entries)
    range ← lift (read_last_wal_range gcm principal_key entries)
    choose_range under_postmaster encrypt_xlog key_len range
    prefetch env

  -- TDEXLogSmgrInitWriteOldKeys: a range behind the end of all WAL
  unfoldable pub init_write_old_keys : Exec XlogSmgr Unit
  unfolding prefetch
  init_write_old_keys = do
    modify (λ s. record s {
      current = record stub_range {
        type = unencrypted;
        start = max_location;
        end_loc = max_location;
      };
      enc_key = max_location;
    })
    prefetch env
