-- ===== src/Wal/Crypt.antt =====
-- TDEXLogCryptBuffer of src/access/open_pg_tde_xlog_smgr.c: which parts of a WAL buffer are encrypted
-- or decrypted, and with which key. PostgreSQL's macros on WAL positions are a parameter.
pub mod Pointwise
pub mod Covered
pub mod Located
pub mod Crypted
pub mod Looped
use open_pg_tde.Base.{
  ℕ, ◌+◌, ◌-◌, ◌*◌, ◌%◌, ◌^◌, ◌<◌, ◌≡◌, Bool, true, false, ◌&&◌, List, [], ◌∷◌, ◌++◌, ltb, ◌==◌,
  if◌then◌else◌, Bytes, length, take, drop, Result, ok, err, and_then,
}
use open_pg_tde.Cipher.{TdeCipher}
use open_pg_tde.Stream.{AesBlock, stream_crypt}
use open_pg_tde.Wal.Prefix.{calc_xlog_page_iv_prefix}
use open_pg_tde.Wal.Range.{
  WalEncryptionRangeType, invalid, unencrypted, encrypted, WalLocation, wal_location_cmp,
  Comparison, before, same, after, is_before, wal_location_valid, WalEncryptionRange,
}

-- The macros XLogSegNoOffsetToRecPtr and XLogSegmentOffset of PostgreSQL's xlog_internal.h. The size
-- of a segment is a power of two.
pub record SegmentMacros : Type 0 where
  pub offset_to_rec_ptr : ℕ → ℕ → ℕ → ℕ
  pub segment_offset : ℕ → ℕ → ℕ
  pub offset_to_rec_ptr_lem :
      (segno offset size : ℕ)
      → segno * size + offset < 2 ^ 64
      → offset_to_rec_ptr segno offset size ≡ segno * size + offset
  pub segment_offset_lem : (rec_ptr k : ℕ) → segment_offset rec_ptr (2 ^ k) ≡ rec_ptr % 2 ^ k

-- the place of a buffer: a timeline, and an offset in a segment
pub record SegmentPart : Type 0 where
  pub offset : ℕ
  pub tli : ℕ
  pub segno : ℕ
  pub seg_size : ℕ

abbrev pub is_after : Comparison → Bool
is_after before = false
is_after same = false
is_after after = true

abbrev pub is_encrypted : WalEncryptionRangeType → Bool
is_encrypted invalid = false
is_encrypted unencrypted = false
is_encrypted encrypted = true

-- a write of bytes into a buffer, at an index
abbrev pub splice : ℕ → Bytes → Bytes → Bytes
splice at new out = take at out ++ (new ++ drop (at + length new) out)

abbrev pub data_start : SegmentMacros → SegmentPart → WalLocation
data_start macros part = record {
  lsn = macros.offset_to_rec_ptr part.segno part.offset part.seg_size;
  tli = part.tli;
}

abbrev pub data_end : SegmentMacros → SegmentPart → ℕ → WalLocation
data_end macros part count = record {
  lsn = macros.offset_to_rec_ptr part.segno (part.offset + count) part.seg_size;
  tli = part.tli;
}

-- end_lsn: the end of the data, or of the range where that comes first on the same timeline
abbrev pub end_lsn : WalLocation → WalLocation → ℕ
end_lsn loc range =
    if ltb loc.tli range.tli then loc.lsn else if ltb loc.lsn range.lsn then loc.lsn else range.lsn

-- start_lsn: the start of the data, or of the range where that comes later on the same timeline
abbrev pub start_lsn : WalLocation → WalLocation → ℕ
start_lsn loc range =
    if ltb range.tli loc.tli then loc.lsn else if ltb range.lsn loc.lsn then loc.lsn else range.lsn

-- dec_end: 0 is the end of the segment
abbrev pub dec_end : ℕ → ℕ → ℕ
dec_end offset stop = if offset == 0 then stop else offset

module _ (macros : SegmentMacros) (aes : AesBlock) (ciphers : List TdeCipher) where
  open macros use {segment_offset}

  -- the part of the buffer from `dec_off` to `dec_end`, offsets in the segment
  unfoldable pub crypt_part :
      SegmentPart → ℕ → ℕ → WalEncryptionRange → Bytes → Bytes → Result Bytes
  unfolding stream_crypt
  crypt_part part dec_off dec_end range buf out_buf =
      and_then
        (stream_crypt aes ciphers (calc_xlog_page_iv_prefix part.tli part.segno range.key.base_iv)
          dec_off (take (dec_end - dec_off) (drop (dec_off - part.offset) buf)) range.key.key
          range.key.key_len)
        λ new. ok (splice (dec_off - part.offset) new out_buf)

  -- one round of the loop, once `data_start` and `data_end` are known
  unfoldable pub crypt_range :
      SegmentPart → WalLocation → WalLocation → WalEncryptionRange → Bytes → Bytes → Result Bytes
  unfolding crypt_part wal_location_cmp wal_location_valid
  crypt_range part start stop range buf out_buf =
      let dec_off = segment_offset (start_lsn start range.start) part.seg_size in
      let end_off = segment_offset (end_lsn stop range.end_loc) part.seg_size in
      let dec =
        crypt_part part dec_off (dec_end end_off (part.offset + length buf)) range buf out_buf in
      if wal_location_valid range.start && is_encrypted range.type
      then if is_before (wal_location_cmp start range.end_loc)
          && is_after (wal_location_cmp stop range.start)
        then dec
        else ok out_buf
      else ok out_buf

  -- The loop of TDEXLogCryptBuffer over the cached ranges. `in_place`: the two buffers are the same
  -- one, so that each round reads what the rounds before it wrote.
  unfoldable pub crypt_ranges :
      Bool → SegmentPart → List WalEncryptionRange → Bytes → Bytes → Result Bytes
  unfolding crypt_range
  crypt_ranges in_place part [] buf out_buf = ok out_buf
  crypt_ranges in_place part (range ∷ rest) buf out_buf =
      and_then
        (crypt_range part (data_start macros part) (data_end macros part (length buf)) range
          (if in_place then out_buf else buf) out_buf)
        λ out. crypt_ranges in_place part rest buf out
