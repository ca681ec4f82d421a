-- ===== src/Wal/Segments/ReadWrite.antt =====
-- What is written to a segment is read back.
use open_pg_tde.Base.{
  ℕ, suc, ◌<◌, ◌≡◌, refl, sym, ap, ◌∙◌, ◌⊎◌, ◌^◌, Bool, true, false, ◌&&◌, not, arith, ◌==◌, Bytes,
  length, some, List, [], ◌∷◌, ◌++◌, ok,
}
use open_pg_tde.Cipher.{builtin}
use open_pg_tde.Stream.{stream_crypt}
use open_pg_tde.Stream.Keystream.{crypt_at, length-crypt_at}
use open_pg_tde.Stream.Laws.{stream_crypt-eq-crypt_at}
use open_pg_tde.Wal.Range.{
  wal_location_valid, WalEncryptionRange, max_location, encrypted, is_invalid,
}
use open_pg_tde.Wal.Cached.{Chained}
use open_pg_tde.Wal.Crypt.{SegmentPart, data_start, crypt_ranges}
use open_pg_tde.Wal.Crypt.Covered.{location_at, IsPart, rec_ptr_lem}
use open_pg_tde.Wal.Crypt.Located.{range_prefix}
use open_pg_tde.Wal.Crypt.Crypted.{HasKeys, InOrder, crypt_each, crypt_each_undo, length-crypt_each}
use open_pg_tde.Wal.Crypt.Looped.{crypt_ranges-eq-crypt_each}
use open_pg_tde.Wal.Segments.{
  WalEnv, XlogSmgr, get_last_wal_key, starts_before, no_keys, prefetch, fetch_written, crypt_buffer,
  ensure_xlog_key_location, write_encrypted_pages, write_pages, xlog_seg_write, xlog_seg_read,
  write_encrypted_pages_old_keys,
}
use open_pg_tde.Wal.Segments.Ensure.{started, not_after, ensure_passed}
use open_pg_tde.Wal.Segments.Current.{reached, crypt_each_last}

-- The cache of the process is not empty, and its last range does not start before the shared location.
pub record IsFetched (s : XlogSmgr) : Type 0 where
  pub not_empty : no_keys s.keys.cache ≡ false
  pub not_behind :
      (not (s.enc_key.lsn == 0) && starts_before (get_last_wal_key s.keys.cache) s.enc_key) ≡ false

-- The ranges of the cache can be used.
pub record IsCache (ranges : List WalEncryptionRange) : Type 0 where
  pub chained : Chained ranges
  pub in_order : InOrder ranges
  pub has_keys : HasKeys ranges

-- The current range is encrypted and open, and its start is the shared location.
pub record IsWriter (s : XlogSmgr) : Type 0 where
  pub is_on : s.current.type ≡ encrypted
  pub sized : (s.current.key.key_len ≡ 16) ⊎ (s.current.key.key_len ≡ 32)
  pub valid : wal_location_valid s.current.start ≡ true
  pub open_end : s.current.end_loc ≡ max_location
  pub shared : s.enc_key ≡ s.current.start

module _ (env : WalEnv) (suites : env.ciphers ≡ builtin) where
  pub crypt_buffer_lem :
      (in_place : Bool) (part : SegmentPart) (buf : Bytes) (s : XlogSmgr)
      → IsPart part (length buf)
      → IsFetched s
      → IsCache s.keys.cache
      → crypt_buffer env in_place part buf buf s
        ≡ (ok (crypt_each env.aes part s.keys.cache buf), s)
  unfolding crypt_buffer prefetch fetch_written
  crypt_buffer_lem in_place part buf s p f c =
      rw (f.not_empty, f.not_behind)
        (ap (λ x. (x, s))
          (ap (λ x. crypt_ranges env.macros env.aes x in_place part s.keys.cache buf buf) suites
            ∙ crypt_ranges-eq-crypt_each env.macros env.aes part s.keys.cache c.chained c.in_order
                c.has_keys in_place buf p))

  pub read_back :
      (part : SegmentPart) (buf written : Bytes) (n : ℕ) (r : XlogSmgr)
      → IsPart part (length buf)
      → IsFetched r
      → IsCache r.keys.cache
      → written ≡ crypt_each env.aes part r.keys.cache buf
      → xlog_seg_read env part (some (suc n)) written r ≡ (ok buf, r)
  unfolding xlog_seg_read
  read_back part buf written n r p f c e =
      let len : length written ≡ length buf =
        ap length e ∙ length-crypt_each env.aes part r.keys.cache buf in
      crypt_buffer_lem true part written r (rw len p) f c
      ∙ ap (λ x. (ok (crypt_each env.aes part r.keys.cache x), r)) e
      ∙ ap (λ x. (ok x, r)) (crypt_each_undo env.aes part r.keys.cache buf)

  encrypted_pages_lem :
      (part : SegmentPart) (buf : Bytes) (s : XlogSmgr)
      → IsPart part (length buf)
      → (s.current.key.key_len ≡ 16) ⊎ (s.current.key.key_len ≡ 32)
      → write_encrypted_pages env part buf s
        ≡ (ok (crypt_at env.aes s.current.key.key (range_prefix part s.current) part.offset buf), s)
  unfolding write_encrypted_pages
  encrypted_pages_lem part buf s p k =
      let key = s.current.key in
      ap (λ x. (x, s))
        (ap
            (λ x.
              stream_crypt env.aes x (range_prefix part s.current) part.offset buf key.key
                key.key_len)
            suites
          ∙ stream_crypt-eq-crypt_at env.aes (range_prefix part s.current) key.key key.key_len k
              part.offset buf (omega (arith, p.inside, p.size_limit)))

  write_current :
      (part : SegmentPart) (buf : Bytes) (s : XlogSmgr)
      → s.current.type ≡ encrypted
      → write_pages env true part buf s ≡ write_encrypted_pages env part buf s
  unfolding write_pages
  write_current part buf s t = rw t refl

  seg_write_current :
      (part : SegmentPart) (buf : Bytes) (s : XlogSmgr)
      → IsPart part (length buf)
      → IsWriter s
      → reached s.current.start (location_at part part.offset) ≡ true
      → xlog_seg_write env part buf s
        ≡ (ok (crypt_at env.aes s.current.key.key (range_prefix part s.current) part.offset buf), s)
  unfolding xlog_seg_write
  seg_write_current part buf s p w h =
      let start : data_start env.macros part ≡ location_at part part.offset =
        ap (λ x. record { lsn = x; tli = part.tli })
          (rec_ptr_lem env.macros part (length buf) p part.offset (omega (arith, p.inside))) in
      let loc = location_at part part.offset in
      let passed : ensure_xlog_key_location env (data_start env.macros part) s ≡ (true, s) =
        ap (λ x. ensure_xlog_key_location env x s) start
        ∙ ensure_passed env loc s (rw w.shared (started s.current.start w.valid))
            (rw w.shared (not_after s.current.start loc h)) in
      ap (λ x. write_pages env x.0 part buf x.1) passed
      ∙ write_current part buf s w.is_on
      ∙ encrypted_pages_lem part buf s p w.sized

  -- A process whose current range is encrypted and has its start writes a buffer at or behind this
  -- start, and a process whose cached ranges are chained, in order, up to date and end with that range
  -- reads the segment part: the write succeeds with as many bytes as it was given, the read succeeds
  -- with the buffer that was written, and neither changes its state.
  pub xlog_seg_read-xlog_seg_write :
      (part : SegmentPart) (buf : Bytes) (s r : XlogSmgr) (front : List WalEncryptionRange) (n : ℕ)
      → IsPart part (length buf)
      → part.tli < 2 ^ 32
      → IsWriter s
      → reached s.current.start (location_at part part.offset) ≡ true
      → r.keys.cache ≡ front ++ s.current ∷ []
      → IsFetched r
      → IsCache r.keys.cache
      → (written : Bytes) × (xlog_seg_write env part buf s ≡ (ok written, s))
        × (length written ≡ length buf)
        × (xlog_seg_read env part (some (suc n)) written r ≡ (ok buf, r))
  xlog_seg_read-xlog_seg_write part buf s r front n p tli w h e f c =
      let key = s.current.key in
      let written : Bytes =
        crypt_at env.aes key.key (range_prefix part s.current) part.offset buf in
      let whole : written ≡ crypt_each env.aes part r.keys.cache buf =
        sym (
          crypt_each_last env.aes part front s.current buf (rw (← e) c.chained)
            (rw (← e) c.in_order) p tli w.is_on w.valid w.open_end h)
        ∙ ap (λ x. crypt_each env.aes part x buf) (sym e) in
      (
        written,
        seg_write_current part buf s p w h,
        length-crypt_at env.aes key.key (range_prefix part s.current) part.offset buf,
        read_back part buf written n r p f c whole,
      )

  -- A process that cannot use its current range yet, as in recovery or before that range starts, writes
  -- a segment part with the keys of the cache, and a process with the same cached ranges reads it:
  -- where these are chained, in order and up to date, the write succeeds with as many bytes as it was
  -- given, the read with the buffer that was written, and neither changes its state.
  pub xlog_seg_read-xlog_seg_write_old_keys :
      (part : SegmentPart) (buf : Bytes) (s r : XlogSmgr) (n : ℕ)
      → IsPart part (length buf)
      → ensure_xlog_key_location env (data_start env.macros part) s ≡ (false, s)
      → is_invalid s.current.type ≡ false
      → IsFetched s
      → IsFetched r
      → IsCache s.keys.cache
      → r.keys.cache ≡ s.keys.cache
      → (written : Bytes) × (xlog_seg_write env part buf s ≡ (ok written, s))
        × (length written ≡ length buf)
        × (xlog_seg_read env part (some (suc n)) written r ≡ (ok buf, r))
  unfolding xlog_seg_write write_pages write_encrypted_pages_old_keys
  xlog_seg_read-xlog_seg_write_old_keys part buf s r n p k t f g c e =
      let written : Bytes = crypt_each env.aes part s.keys.cache buf in
      (
        written,
        rw (k, t) (crypt_buffer_lem false part buf s p f c),
        length-crypt_each env.aes part s.keys.cache buf,
        read_back part buf written n r p g (rw e c)
            (ap (λ x. crypt_each env.aes part x buf) (sym e)),
      )
