-- ===== src/Providers.antt =====
-- src/catalog/tde_keyring.c: the file of key providers of each database, "<oid>_providers". Its
-- records have one size, so a file offset is a number of records here. Ids are positive for the
-- providers of a database and negative for the global ones; the least int, of which abs() is undefined,
-- is not an id. Each function that writes holds an exclusive lock to its end and is one step.
pub mod Found
pub mod Saved
pub mod Replayed
pub mod Deleted
use open_pg_tde.Base.{
  ℕ, zero, suc, ◌+◌, ◌-◌, ◌^◌, Bool, true, false, ◌&&◌, Option, none, some, List, [], ◌∷◌, ◌++◌,
  ◌==◌, ltb, if◌then◌else◌, Bytes, length, zeros, Result, ok, err, duplicate_provider,
  provider_id_out_of_range, provider_missing, provider_id_mismatch, provider_in_use, Exec, pure, ℤ,
  pos, abs, minus, same_int, raise, lift, gets, modify, ◌>>=◌, ◌>>◌, and_then,
}
use open_pg_tde.Aes.{same_bytes}
use open_pg_tde.Keys.{global_data_tde_oid}

-- ProviderType
pub data ProviderType : Type 0 where
  unknown_key_provider file_key_provider kmip_key_provider openbao_key_provider : ProviderType

-- provider_type != UNKNOWN_KEY_PROVIDER; a deleted record has type 0
abbrev pub is_live : ProviderType → Bool
is_live unknown_key_provider = false
is_live file_key_provider = true
is_live kmip_key_provider = true
is_live openbao_key_provider = true

-- KeyringProviderRecord
pub record KeyringProviderRecord : Type 0 where
  pub provider_id : ℤ
  pub provider_name : Bytes
  pub options : Bytes
  pub provider_type : ProviderType

-- a record of zero bytes
abbrev pub zero_record : KeyringProviderRecord
zero_record = record {
  provider_id = pos 0;
  provider_name = [];
  options = [];
  provider_type = unknown_key_provider;
}

-- KeyringProviderRecordInFile, which is also the body of the WAL record XLOG_TDE_WRITE_KEY_PROVIDER
pub record KeyringProviderRecordInFile : Type 0 where
  pub database_id : ℕ
  pub offset_in_file : ℕ
  pub provider : KeyringProviderRecord

-- The files by database and the WAL records that were emitted. A missing file is an empty one here;
-- the code raises an error where it opens a missing file to change or remove a provider, as it does
-- for a provider that an empty file does not have.
pub record ProviderFiles : Type 0 where
  pub records : ℕ → List KeyringProviderRecord
  pub xlog : List KeyringProviderRecordInFile

-- pwrite of one record; a gap behind the end reads as zero bytes
unfoldable pub write_record :
    ℕ → KeyringProviderRecord → List KeyringProviderRecord → List KeyringProviderRecord
write_record zero r [] = r ∷ []
write_record zero r (x ∷ xs) = r ∷ xs
write_record (suc i) r [] = zero_record ∷ write_record i r []
write_record (suc i) r (x ∷ xs) = x ∷ write_record i r xs

-- write_key_provider_info
unfoldable pub write_key_provider_info :
    KeyringProviderRecordInFile → Bool → Exec ProviderFiles Unit
unfolding write_record
write_key_provider_info r write_xlog = modify (λ s. record {
  records = λ db.
      if db == r.database_id
      then write_record r.offset_in_file r.provider (s.records r.database_id)
      else s.records db;
  xlog = if write_xlog then s.xlog ++ r ∷ [] else s.xlog;
})

-- redo_key_provider_info
unfoldable pub redo_key_provider_info : KeyringProviderRecordInFile → Exec ProviderFiles Unit
unfolding write_key_provider_info
redo_key_provider_info r = write_key_provider_info r false

-- a live record with the name, compared by strcmp
unfoldable pub is_named : Bytes → KeyringProviderRecord → Bool
unfolding same_bytes
is_named name r = is_live r.provider_type && same_bytes r.provider_name name

-- the loop of get_keyring_info_file_record_by_name
unfoldable pub first_named :
    Bytes → List KeyringProviderRecord → ℕ → Option (ℕ × KeyringProviderRecord)
unfolding is_named
first_named name [] offset = none
first_named name (r ∷ rs) offset =
    let rest = first_named name rs (offset + 1) in
    if is_named name r then some (offset, r) else rest

-- get_keyring_info_file_record_by_name
unfoldable pub get_record_by_name : Bytes → ℕ → ProviderFiles → Option (ℕ × KeyringProviderRecord)
unfolding first_named
get_record_by_name name db s = first_named name (s.records db) 0

-- the loop of save_new_key_provider_info: the largest absolute value of an id, deleted records included
unfoldable pub max_id : Bytes → List KeyringProviderRecord → ℕ → Result ℕ
unfolding is_named
max_id name [] largest = ok largest
max_id name (r ∷ rs) largest =
    let rest =
      max_id name rs (if ltb largest (abs r.provider_id) then abs r.provider_id else largest) in
    if is_named name r then err duplicate_provider else rest

abbrev pub pg_int32_max : ℕ
pg_int32_max = 2 ^ 31 - 1

-- new_provider_id
unfoldable pub new_id : Bytes → List KeyringProviderRecord → Result ℕ
unfolding max_id
new_id name rs =
    and_then (max_id name rs 0)
      λ largest. if largest == pg_int32_max then err provider_id_out_of_range else ok (largest + 1)

-- provider_id of the new record: negative for a global provider
unfoldable pub signed_id : ℕ → ℕ → ℤ
signed_id db id = if db == global_data_tde_oid then minus id else pos id

-- save_new_key_provider_info. `checked` is the outcome of check_provider_record, which parses the
-- options and contacts the provider.
unfoldable pub save_new_key_provider_info :
    Result (Unit {0}) → KeyringProviderRecord → ℕ → Exec ProviderFiles Unit
unfolding new_id signed_id write_key_provider_info
save_new_key_provider_info checked provider db = do
  _ ← lift checked
  rs ← gets (λ s. s.records db)
  id ← lift (new_id provider.provider_name rs)
  write_key_provider_info
      (record {
        database_id = db;
        offset_in_file = length rs;
        provider = record provider { provider_id = signed_id db id };
      })
      true

-- the part of modify_key_provider_info behind the search
unfoldable pub modify_found :
    KeyringProviderRecord → ℕ → Option (ℕ × KeyringProviderRecord) → Exec ProviderFiles Unit
unfolding write_key_provider_info
modify_found provider db none = raise provider_missing
modify_found provider db (some (offset, r)) =
    if same_int provider.provider_id r.provider_id
    then write_key_provider_info
        (record { database_id = db; offset_in_file = offset; provider = provider }) true
    else raise provider_id_mismatch

-- modify_key_provider_info
unfoldable pub modify_key_provider_info :
    Result (Unit {0}) → KeyringProviderRecord → ℕ → Exec ProviderFiles Unit
unfolding get_record_by_name modify_found
modify_key_provider_info checked provider db = do
  _ ← lift checked
  found ← gets (get_record_by_name provider.provider_name db)
  modify_found provider db found

-- the part of delete_key_provider_info behind the search: the id stays in the file
unfoldable pub delete_found : ℕ → Option (ℕ × KeyringProviderRecord) → Exec ProviderFiles Unit
unfolding write_key_provider_info
delete_found db none = raise provider_missing
delete_found db (some (offset, r)) =
    write_key_provider_info
      (record {
        database_id = db;
        offset_in_file = offset;
        provider = record zero_record { provider_id = r.provider_id };
      })
      true

-- delete_key_provider_info
unfoldable pub delete_key_provider_info : Bytes → ℕ → Exec ProviderFiles Unit
unfolding get_record_by_name delete_found
delete_key_provider_info name db = do
  found ← gets (get_record_by_name name db)
  delete_found db found
