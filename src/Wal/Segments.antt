-- ===== src/Wal/Segments.antt =====
-- The WAL storage manager of src/access/open_pg_tde_xlog_smgr.c: reads and writes of segments, the
-- current range, and the location of its start that writers share with readers.
-- pg_pwrite and pg_pread are PostgreSQL's: a write gives the bytes that it hands to pg_pwrite, and a
-- read is given what pg_pread left in the buffer. The memory of the encryption buffer, the atomics
-- and the barriers are not modelled: a call is one step.
pub mod Init
pub mod Memory
pub mod Ensure
pub mod Current
pub mod Adopted
pub mod ReadWrite
use open_pg_tde.Base.{
  ℕ, zero, suc, ◌+◌, Bool, true, false, ◌&&◌, ◌||◌, not, ltb, ◌==◌, Option, none, some, List, [],
  ◌∷◌, if◌then◌else◌, Bytes, length, Result, ok, err, Exec, pure, lift, gets, modify, ◌>>=◌, ◌>>◌,
}
use open_pg_tde.Cipher.{TdeCipher}
use open_pg_tde.Keys.{Gcms, PrincipalKey}
use open_pg_tde.Stream.{AesBlock, stream_crypt}
use open_pg_tde.Wal.Prefix.{calc_xlog_page_iv_prefix}
use open_pg_tde.Wal.Range.{
  WalEncryptionRangeType, is_invalid, WalLocation, wal_location_cmp, is_before, WalEncryptionRange,
  max_location, unencrypted, encrypted, invalid, no_location, wal_range_from_entry, WalKeyFileEntry,
}
use open_pg_tde.Wal.Ranges.{
  WalKeys, create_wal_range, fetch_wal_keys, last_range_set_location, stub_range,
}
use open_pg_tde.Wal.Crypt.{
  SegmentMacros, SegmentPart, is_after, is_encrypted, data_start, crypt_ranges,
}

-- What the functions are given from outside: PostgreSQL's macros, OpenSSL, the registered suites, the
-- principal key that GetPrincipalKey finds, and whether the server is in crash recovery.
pub record WalEnv : Type 0 where
  pub macros : SegmentMacros
  pub aes : AesBlock
  pub gcm : Gcms
  pub ciphers : List TdeCipher
  pub principal_key : Option PrincipalKey
  pub crash_recovery : Bool

-- The WAL key file with the cache of the process, EncryptionState, and CurrentWalEncryptionRange.
pub record XlogSmgr : Type 0 where
  pub keys : WalKeys
  pub enc_key : WalLocation
  pub current : WalEncryptionRange

abbrev pub with_keys : {A : Type 0} → Exec WalKeys A → Exec XlogSmgr A
with_keys m s = let r = m s.keys in (r.0, record s { keys = r.1 })

-- open_pg_tde_get_last_wal_key
abbrev pub get_last_wal_key : List WalEncryptionRange → Option WalEncryptionRange
get_last_wal_key [] = none
get_last_wal_key (r ∷ []) = some r
get_last_wal_key (r ∷ next ∷ rest) = get_last_wal_key (next ∷ rest)

abbrev pub first_location : WalLocation
first_location = record { lsn = 0; tli = 1 }

-- There is a last key, and it starts before the location.
abbrev pub starts_before : Option WalEncryptionRange → WalLocation → Bool
starts_before none loc = false
starts_before (some r) loc = is_before (wal_location_cmp r.start loc)

-- There is no last key, or it starts before the location.
abbrev pub none_or_before : Option WalEncryptionRange → WalLocation → Bool
none_or_before none loc = true
none_or_before (some r) loc = is_before (wal_location_cmp r.start loc)

abbrev pub no_keys : List WalEncryptionRange → Bool
no_keys [] = true
no_keys (r ∷ rest) = false

-- open_pg_tde_wal_last_range_set_location, and the start of the current range
unfoldable pub set_location : WalLocation → XlogSmgr → XlogSmgr
unfolding last_range_set_location
set_location loc s = record s {
  keys = record s.keys { entries = last_range_set_location loc s.keys.entries };
  current = record s.current { start = loc };
  enc_key = loc;
}

module _ (env : WalEnv) where
  open env use {macros, aes, gcm, ciphers, principal_key, crash_recovery}

  -- the fetch of all keys, where the cache is empty
  unfoldable pub prefetch : Exec XlogSmgr Unit
  unfolding fetch_wal_keys
  prefetch s =
      if no_keys s.keys.cache
      then with_keys (fetch_wal_keys gcm principal_key first_location) s
      else (ok tt, s)

  -- the fetch of the key that a writer has generated since
  unfoldable pub fetch_written : Exec XlogSmgr Unit
  unfolding fetch_wal_keys wal_location_cmp
  fetch_written s =
      if not (s.enc_key.lsn == 0) && starts_before (get_last_wal_key s.keys.cache) s.enc_key
      then with_keys (fetch_wal_keys gcm principal_key s.enc_key) s
      else (ok tt, s)

  -- TDEXLogCryptBuffer
  unfoldable pub crypt_buffer : Bool → SegmentPart → Bytes → Bytes → Exec XlogSmgr Bytes
  unfolding prefetch fetch_written crypt_ranges
  crypt_buffer in_place part buf out_buf = do
    prefetch
    fetch_written
    ranges ← gets (λ s. s.keys.cache)
    lift (crypt_ranges macros aes ciphers in_place part ranges buf out_buf)

  -- the current range can be given a start now
  abbrev pub is_first_write : WalLocation → XlogSmgr → Bool
  is_first_write loc s =
      (not (is_invalid s.current.type) && (s.enc_key.lsn == 0))
      && ((not (is_after (wal_location_cmp s.enc_key loc)) && not crash_recovery)
          && none_or_before (get_last_wal_key s.keys.cache) loc)

  -- tde_ensure_xlog_key_location. Whether the location is behind the start of the current range is
  -- read before the start is set.
  unfoldable pub ensure_xlog_key_location : WalLocation → XlogSmgr → Bool × XlogSmgr
  unfolding set_location wal_location_cmp
  ensure_xlog_key_location loc s =
      let after_write_key = not (is_after (wal_location_cmp s.enc_key loc)) in
      if is_first_write loc s
      then (after_write_key, set_location loc s)
      else (not (s.enc_key.lsn == 0) && after_write_key, s)

  -- TDEXLogWriteEncryptedPages
  unfoldable pub write_encrypted_pages : SegmentPart → Bytes → Exec XlogSmgr Bytes
  unfolding stream_crypt calc_xlog_page_iv_prefix
  write_encrypted_pages part buf s =
      let key = s.current.key in
      (
        stream_crypt aes ciphers (calc_xlog_page_iv_prefix part.tli part.segno key.base_iv)
            part.offset buf key.key key.key_len,
        s,
      )

  -- TDEXLogWriteEncryptedPagesOldKeys: the encryption buffer is first a copy of the data
  unfoldable pub write_encrypted_pages_old_keys : SegmentPart → Bytes → Exec XlogSmgr Bytes
  unfolding crypt_buffer
  write_encrypted_pages_old_keys part buf = crypt_buffer false part buf buf

  -- the choice of tdeheap_xlog_seg_write
  unfoldable pub write_pages : Bool → SegmentPart → Bytes → Exec XlogSmgr Bytes
  unfolding write_encrypted_pages write_encrypted_pages_old_keys
  write_pages last_key_usable part buf s =
      if not last_key_usable && not (is_invalid s.current.type)
      then write_encrypted_pages_old_keys part buf s
      else if is_encrypted s.current.type
      then write_encrypted_pages part buf s
      else (ok buf, s)

  -- tdeheap_xlog_seg_write
  unfoldable pub xlog_seg_write : SegmentPart → Bytes → Exec XlogSmgr Bytes
  unfolding ensure_xlog_key_location write_pages
  xlog_seg_write part buf s =
      let (last_key_usable, t) = ensure_xlog_key_location (data_start macros part) s in
      write_pages last_key_usable part buf t

  -- tdeheap_xlog_seg_read, from the result of pg_pread on (none: -1) and the `count` bytes of the
  -- buffer. All of them are processed, also after a short read.
  unfoldable pub xlog_seg_read : SegmentPart → Option ℕ → Bytes → Exec XlogSmgr Bytes
  unfolding crypt_buffer
  xlog_seg_read part none buf = pure buf
  xlog_seg_read part (some zero) buf = pure buf
  xlog_seg_read part (some (suc n)) buf = crypt_buffer true part buf buf
