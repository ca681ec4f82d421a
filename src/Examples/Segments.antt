-- ===== src/Examples/Segments.antt =====
-- A segment of 16 bytes, two ranges of one timeline, and a process that writes and one that reads.
use open_pg_tde.Base.{
  ℕ, ◌+◌, ◌*◌, ◌/◌, ◌≤◌, ◌%◌, ◌≡◌, refl, inl, true, false, some, none, [], ◌∷◌, ◌++◌, arith, Bytes,
  length, zeros, ok,
}
use open_pg_tde.Block.{InternalKey}
use open_pg_tde.Cipher.{builtin}
use open_pg_tde.Wal.Range.{
  WalLocation, WalEncryptionRange, WalKeyFileEntry, max_location, no_location, encrypted,
  wal_location_cmp, wal_location_valid, seal_wal_entry,
}
use open_pg_tde.Wal.Ranges.{WalKeys, stub_range}
use open_pg_tde.Wal.Cached.{linked, last_range}
use open_pg_tde.Wal.Crypt.{SegmentMacros, SegmentPart, crypt_ranges}
use open_pg_tde.Wal.Crypt.Covered.{IsPart}
use open_pg_tde.Wal.Crypt.Crypted.{no_keys, one_more, single, ordered, crypt_each}
use open_pg_tde.Wal.Crypt.Looped.{crypt_ranges-eq-crypt_each}
use open_pg_tde.Wal.Segments.{
  WalEnv, XlogSmgr, ensure_xlog_key_location, xlog_seg_write, xlog_seg_read,
}
use open_pg_tde.Wal.Segments.Memory.{
  Settings, max_send_size, num_buffers, choose_num_buffers, encrypt_buff_size, smgr_shmem_size,
  encryption_buf, encryption_buf-smgr_shmem_size,
}
use open_pg_tde.Wal.Segments.Init.{read_last_wal_range, range_of_last, init_write}
use open_pg_tde.Wal.Segments.Ensure.{
  IsSettled, unset, ensure_xlog_key_location_lem, xlog_seg_write-IsSettled,
}
use open_pg_tde.Wal.Segments.Adopted.{init_write-adopts}
use open_pg_tde.Wal.Segments.ReadWrite.{
  IsFetched, IsCache, IsWriter, xlog_seg_read-xlog_seg_write, xlog_seg_read-xlog_seg_write_old_keys,
}
use open_pg_tde.Examples.Toy.{toy_aes, toy_gcm}
use open_pg_tde.Examples.Wals.{pk}

abbrev macros : SegmentMacros
macros = record {
  offset_to_rec_ptr = λ segno offset size. segno * size + offset;
  segment_offset = λ x size. x % size;
  offset_to_rec_ptr_lem = λ segno offset size h. refl;
  segment_offset_lem = λ x k. refl;
}

abbrev key_of : ℕ → InternalKey
key_of b = record { key_len = 16; cipher = 0; base_iv = zeros 16; key = b ∷ zeros 15 }

abbrev at : ℕ → WalLocation
at lsn = record { lsn = lsn; tli = 1 }

abbrev first_range : WalEncryptionRange
first_range = record { type = encrypted; key = key_of 1; start = at 5; end_loc = at 20 }

abbrev current_range : WalEncryptionRange
current_range = record { type = encrypted; key = key_of 2; start = at 20; end_loc = max_location }

abbrev part : ℕ → SegmentPart
part offset = record { offset = offset; tli = 1; segno = 1; seg_size = 16 }

abbrev bytes : Bytes
bytes = 1 ∷ 2 ∷ 3 ∷ 4 ∷ 5 ∷ 6 ∷ 7 ∷ 8 ∷ []

-- bytes 18 to 25 of the WAL, on both sides of the start of the second range
crossing : IsPart (part 2) (length bytes)
crossing = record {
  size_log = 4;
  is_power = refl;
  some_bytes = omega arith;
  inside = omega arith;
  size_limit = omega arith;
  lsn_limit = omega arith;
}

behind : IsPart (part 6) (length bytes)
behind = record {
  size_log = 4;
  is_power = refl;
  some_bytes = omega arith;
  inside = omega arith;
  size_limit = omega arith;
  lsn_limit = omega arith;
}

two_ranges-IsCache : IsCache (first_range ∷ current_range ∷ [])
unfolding wal_location_cmp
two_ranges-IsCache = record {
  chained = linked refl (last_range refl);
  in_order = ordered refl single;
  has_keys = one_more (inl refl) (one_more (inl refl) no_keys);
}

crypt_ranges-eq-crypt_each_example :
    crypt_ranges macros toy_aes builtin true (part 2) (first_range ∷ current_range ∷ []) bytes bytes
    ≡ ok (crypt_each toy_aes (part 2) (first_range ∷ current_range ∷ []) bytes)
crypt_ranges-eq-crypt_each_example =
    crypt_ranges-eq-crypt_each macros toy_aes (part 2) (first_range ∷ current_range ∷ [])
      two_ranges-IsCache.chained two_ranges-IsCache.in_order two_ranges-IsCache.has_keys true bytes
      crossing

abbrev env : WalEnv
env = record {
  macros = macros;
  aes = toy_aes;
  gcm = toy_gcm;
  ciphers = builtin;
  principal_key = some pk;
  crash_recovery = false;
}

abbrev cached : WalKeys
cached = record { entries = []; cache = first_range ∷ current_range ∷ []; rand = [] }

abbrev writer : XlogSmgr
writer = record {
  keys = record { entries = []; cache = []; rand = [] };
  enc_key = at 20;
  current = current_range;
}

abbrev reader : XlogSmgr
reader = record { keys = cached; enc_key = at 20; current = stub_range }

writer-IsWriter : IsWriter writer
unfolding wal_location_valid
writer-IsWriter = record {
  is_on = refl;
  sized = inl refl;
  valid = refl;
  open_end = refl;
  shared = refl;
}

reader-IsFetched : IsFetched reader
unfolding wal_location_cmp
reader-IsFetched = record { not_empty = refl; not_behind = refl }

xlog_seg_read-xlog_seg_write_example :
    (written : Bytes) × (xlog_seg_write env (part 6) bytes writer ≡ (ok written, writer))
    × (length written ≡ length bytes)
    × (xlog_seg_read env (part 6) (some 8) written reader ≡ (ok bytes, reader))
unfolding wal_location_cmp
xlog_seg_read-xlog_seg_write_example =
    xlog_seg_read-xlog_seg_write env refl (part 6) bytes writer reader (first_range ∷ []) 7 behind
      (omega arith) writer-IsWriter refl refl reader-IsFetched two_ranges-IsCache

-- a process in recovery: its current range has no start yet
abbrev recovering : XlogSmgr
recovering = record {
  keys = cached;
  enc_key = no_location;
  current = record current_range { start = no_location };
}

recovering-IsFetched : IsFetched recovering
unfolding wal_location_cmp
recovering-IsFetched = record { not_empty = refl; not_behind = refl }

abbrev recovery : WalEnv
recovery = record env { crash_recovery = true }

xlog_seg_read-xlog_seg_write_old_keys_example :
    (written : Bytes) × (xlog_seg_write recovery (part 2) bytes recovering
      ≡ (ok written, recovering))
    × (length written ≡ length bytes)
    × (xlog_seg_read recovery (part 2) (some 8) written reader ≡ (ok bytes, reader))
unfolding wal_location_cmp ensure_xlog_key_location
xlog_seg_read-xlog_seg_write_old_keys_example =
    xlog_seg_read-xlog_seg_write_old_keys recovery refl (part 2) bytes recovering reader 7 crossing
      refl refl recovering-IsFetched reader-IsFetched two_ranges-IsCache refl

-- a server before its first write
abbrev entry : ℕ → WalKeyFileEntry
entry b =
    seal_wal_entry toy_gcm pk (record current_range { key = key_of b; start = no_location })
      (zeros 16)

abbrev starting : XlogSmgr
starting = record {
  keys = record { entries = entry 1 ∷ entry 2 ∷ []; cache = []; rand = [] };
  enc_key = no_location;
  current = record current_range { start = no_location };
}

ensure_xlog_key_location_lem_example :
    (t : XlogSmgr) × (ensure_xlog_key_location env (at 22) starting ≡ (true, t))
    × (t.current ≡ record starting.current { start = at 22 })
    × (t.enc_key ≡ at 22)
    × (ensure_xlog_key_location env (at 30) t ≡ (true, t))
unfolding wal_location_cmp wal_location_valid
ensure_xlog_key_location_lem_example =
    ensure_xlog_key_location_lem env (at 22) (at 30) starting refl refl refl refl refl refl

xlog_seg_write-IsSettled_example : IsSettled (xlog_seg_write env (part 6) bytes starting).1
xlog_seg_write-IsSettled_example =
    xlog_seg_write-IsSettled env (part 6) bytes starting (unset (entry 2) refl refl)

abbrev stopped : XlogSmgr
stopped = record starting {
  keys = record {
    entries = [];
    cache = [];
    rand = (3 ∷ zeros 15) ∷ zeros 16 ∷ zeros 16 ∷ zeros 16 ∷ [];
  };
}

abbrev child : XlogSmgr
child = record starting { keys = (init_write env false true 16 stopped).1.keys }

init_write-adopts_example :
    (e : WalKeyFileEntry) × ((init_write env false true 16 stopped).1.keys.entries
      ≡ stopped.keys.entries ++ e ∷ [])
    × ((init_write env false true 16 stopped).1.current.type ≡ encrypted)
    × ((init_write env true true 16 child).1.current
        ≡ (init_write env false true 16 stopped).1.current)
    × ((init_write env true true 16 child).1.keys.entries ≡ child.keys.entries)
unfolding read_last_wal_range range_of_last
init_write-adopts_example =
    init_write-adopts env pk refl refl 16 (inl refl) (3 ∷ zeros 15) (zeros 16) (zeros 16) (zeros 16)
      [] refl stopped child true none refl refl refl

-- blocks of 8 kB, 16384 shared buffers and segments of 16 MB
abbrev settings : Settings
settings = record {
  xlog_blcksz = 8192;
  n_buffers = 16384;
  wal_segment_size = 16777216;
  xlog_buffers = none;
  io_align_size = 4096;
  type_align = λ address. (address + 4095) / 4096 * 4096;
  type_align_le = λ address. omega arith;
  le-type_align = λ address. omega arith;
  state_size = 16;
}

encryption_buf-smgr_shmem_size_example :
    (buff : ℕ) × (encrypt_buff_size settings ≡ some buff)
    × (max_send_size settings ≤ buff)
    × (settings.xlog_blcksz * num_buffers settings ≤ buff)
    × (1000 + settings.state_size ≤ encryption_buf settings 1000)
    × (encryption_buf settings 1000 + buff ≤ 1000 + 4198416)
unfolding smgr_shmem_size encrypt_buff_size choose_num_buffers
encryption_buf-smgr_shmem_size_example = encryption_buf-smgr_shmem_size settings 4198416 1000 refl
