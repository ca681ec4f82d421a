-- ===== src/Examples/WalFiles.antt =====
-- Small WAL key files, rotated and migrated.
use open_pg_tde.Base.{
  ℕ, ◌≡◌, ◌≢◌, refl, sym, ap, inl, true, false, some, none, List, [], ◌∷◌, arith, Bytes, zeros, ok,
  err, decryption_failed, no_random_bytes, if◌then◌else◌, Bool-cases, inr,
}
use open_pg_tde.Aes.{same_bytes}
use open_pg_tde.Aes.Cache.{same_bytes→eq}
use open_pg_tde.Cipher.{cipher_key_length}
use open_pg_tde.Keys.{
  PrincipalKey, signed_with, sign_principal_key_info, rand_bytes, aes_gcm_decrypt,
}
use open_pg_tde.Wal.Range.{WalKeyFileEntry, wal_range_from_entry, encrypted}
use open_pg_tde.Wal.File.{
  WalKeyFileHeader, WalKeyFileEntryV2, wal_entry_v2_aad, current, v2, keyed, WalDir,
  wal_key_file_magic,
}
use open_pg_tde.Wal.File.Server.{get_server_key_info, count_wal_ranges_in_file}
use open_pg_tde.Wal.File.Rewrite.{
  perform_rotate_server_key, update_wal_keys_file, wal_range_from_entry_v2, old_range,
  write_rotated_server,
}
use open_pg_tde.Wal.File.Rewritten.{IsStored, Opens, no_entries, opens, sealed_opens}
use open_pg_tde.Wal.File.Rotated.{rewritten_file, perform_rotate_server_key-Opens}
use open_pg_tde.Wal.File.Migrated.{is_v2, update_wal_keys_file-Opens}
use open_pg_tde.Wal.File.Safe.{perform_rotate_server_key-err}
use open_pg_tde.Wal.File.Blocked.{
  IsAuthentic, invalidated_entry, perform_rotate_server_key-invalidated,
}
use open_pg_tde.Examples.Toy.{toy_gcm, mask, same_bytes_refl}
use open_pg_tde.Examples.Wals.{pk, key-IsKey, range, entry, at}

abbrev new_pk : PrincipalKey
new_pk = record pk { key_data = 7 ∷ zeros 15 }

abbrev header : WalKeyFileHeader
header = record {
  file_version = wal_key_file_magic;
  signed_key_info = signed_with toy_gcm pk (zeros 16);
}

abbrev random : List Bytes
random = zeros 16 ∷ zeros 16 ∷ []

abbrev files : WalDir
files = record {
  keys = some (keyed header (current (entry 100 ∷ entry 200 ∷ [])));
  temporary = none;
  rand = zeros 16 ∷ random;
  xlog = [];
}

range-IsStored : (lsn : ℕ) → IsStored (range lsn)
range-IsStored lsn = record { is_key = key-IsKey; fits = omega arith; open_end = refl }

entry_opens : (lsn : ℕ) → wal_range_from_entry toy_gcm pk (entry lsn) ≡ ok (range lsn)
entry_opens lsn = sealed_opens toy_gcm pk (range lsn) (zeros 16) (range-IsStored lsn)

entries-Opens :
    Opens
      (wal_range_from_entry toy_gcm pk)
      (entry 100 ∷ entry 200 ∷ [])
      (range 100 ∷ range 200 ∷ [])
entries-Opens =
    opens (entry_opens 100) (range-IsStored 100)
      (opens (entry_opens 200) (range-IsStored 200) no_entries)

perform_rotate_server_key-Opens_example :
    let r = perform_rotate_server_key toy_gcm pk new_pk true files in
    (r.0 ≡ ok tt)
    × (out : List WalKeyFileEntry) × (r.1.keys
        ≡ some (rewritten_file toy_gcm new_pk (zeros 16) out))
    × Opens (wal_range_from_entry toy_gcm new_pk) out (range 100 ∷ range 200 ∷ [])
    × (get_server_key_info r.1.keys ≡ ok (some (signed_with toy_gcm new_pk (zeros 16))))
    × (count_wal_ranges_in_file r.1.keys ≡ count_wal_ranges_in_file files.keys)
    × (r.1.temporary ≡ none)
perform_rotate_server_key-Opens_example =
    perform_rotate_server_key-Opens toy_gcm pk new_pk header (entry 100 ∷ entry 200 ∷ []) (zeros 16)
      random (range 100 ∷ range 200 ∷ []) true files refl refl entries-Opens refl (omega arith)

-- without random bytes the rotation fails at once
abbrev no_bytes : WalDir
no_bytes = record files { rand = [] }

fails : (perform_rotate_server_key toy_gcm pk new_pk true no_bytes).0 ≡ err no_random_bytes
unfolding perform_rotate_server_key write_rotated_server sign_principal_key_info rand_bytes
fails = refl

perform_rotate_server_key-err_example :
    (perform_rotate_server_key toy_gcm pk new_pk true no_bytes).1.keys ≡ no_bytes.keys
perform_rotate_server_key-err_example =
    perform_rotate_server_key-err toy_gcm pk new_pk true no_bytes no_random_bytes fails

same_bytes_only : (xs ys : Bytes) → xs ≢ ys → same_bytes xs ys ≡ false
same_bytes_only xs ys h = elim (Bool-cases (same_bytes xs ys)) [
  | inl p ↦ absurd (h (same_bytes→eq xs ys p))
  | inr p ↦ p
]

toy-IsAuthentic : IsAuthentic toy_gcm
toy-IsAuthentic = record {
  rejects = λ b k iv aad other x h.
      ap (λ c. if c then some (mask k (mask k x)) else none)
        (same_bytes_only other aad λ e. h (sym e));
}

abbrev invalidated : WalDir
invalidated = record files {
  keys = some (
      keyed header (
        current (
          entry 100
          ∷ invalidated_entry toy_gcm pk (range 200) (zeros 16) (at 200)
          ∷ entry 150
          ∷ [])));
}

perform_rotate_server_key-invalidated_example :
    let result = perform_rotate_server_key toy_gcm pk new_pk true invalidated in
    (result.0 ≡ err decryption_failed) × (result.1.keys ≡ invalidated.keys)
perform_rotate_server_key-invalidated_example =
    perform_rotate_server_key-invalidated toy_gcm pk new_pk true invalidated header (entry 100 ∷ [])
      (entry 150 ∷ []) (range 100 ∷ []) (range 200) (zeros 16) (at 200) (zeros 16) random
      toy-IsAuthentic refl refl (opens (entry_opens 100) (range-IsStored 100) no_entries) refl
      (omega arith) (range-IsStored 200) refl (omega arith)

-- a file of version 2
abbrev old_header : WalKeyFileHeader
old_header = record header { file_version = 0x024B4557 }

abbrev blank_v2 : WalKeyFileEntryV2
blank_v2 = record {
  cipher = 0;
  range_type = encrypted;
  range_start = at 100;
  entry_iv = zeros 16;
  aead_tag = [];
  key_base_iv = zeros 16;
  encrypted_key_data = [];
}

abbrev entry_v2 : WalKeyFileEntryV2
entry_v2 = record blank_v2 {
  aead_tag = wal_entry_v2_aad blank_v2;
  encrypted_key_data = mask pk.key_data (range 100).key.key;
}

v2_opens : wal_range_from_entry_v2 toy_gcm pk entry_v2 ≡ ok (range 100)
unfolding wal_range_from_entry_v2 old_range cipher_key_length aes_gcm_decrypt
v2_opens =
    ap
      (λ c.
        old_range 16 0 encrypted (zeros 16) (at 100)
          (if c then some (mask pk.key_data (mask pk.key_data (range 100).key.key)) else none))
      (same_bytes_refl (wal_entry_v2_aad blank_v2))

abbrev old_files : WalDir
old_files = record files { keys = some (keyed old_header (v2 (entry_v2 ∷ []))) }

update_wal_keys_file-Opens_example :
    let r = update_wal_keys_file toy_gcm (some pk) 0 old_files in
    (r.0 ≡ ok tt)
    × (out : List WalKeyFileEntry) × (r.1.keys ≡ some (rewritten_file toy_gcm pk (zeros 16) out))
    × Opens (wal_range_from_entry toy_gcm pk) out (range 100 ∷ [])
    × (get_server_key_info r.1.keys ≡ ok (some (signed_with toy_gcm pk (zeros 16))))
    × (r.1.temporary ≡ none)
update_wal_keys_file-Opens_example =
    update_wal_keys_file-Opens toy_gcm pk old_header (v2 (entry_v2 ∷ [])) 1 (range 100 ∷ [])
      old_files 0 (zeros 16) random refl
      (is_v2 refl (opens v2_opens (range-IsStored 100) no_entries)) refl (omega arith)
