-- ===== src/Examples/Providers.antt =====
-- The file of global key providers, with two records, one of them removed.
use open_pg_tde.Base.{
  ℤ, pos, abs, minus, is_negative, true, suc, Bytes, ℕ, ◌≡◌, refl, false, none, some, [], ◌∷◌, ◌++◌,
  ◌==◌, if◌then◌else◌, arith, ok,
}
use open_pg_tde.Aes.{same_bytes}
use open_pg_tde.Providers.{
  KeyringProviderRecord, ProviderFiles, file_key_provider, unknown_key_provider, get_record_by_name,
  first_named, is_named, save_new_key_provider_info, modify_key_provider_info,
  delete_key_provider_info,
}
use open_pg_tde.Providers.Found.{AllBelow, no_records, id_below, ids, count_named}
use open_pg_tde.Providers.Saved.{get_record_by_name-save_new_key_provider_info}
use open_pg_tde.Providers.Deleted.{delete_key_provider_info-ids}
use open_pg_tde.Providers.Replayed.{Logged, redo_all-provider_info}

abbrev removed : KeyringProviderRecord
removed = record {
  provider_id = minus 1;
  provider_name = [];
  options = [];
  provider_type = unknown_key_provider;
}

abbrev live : KeyringProviderRecord
live = record {
  provider_id = minus 2;
  provider_name = 97 ∷ [];
  options = [];
  provider_type = file_key_provider;
}

abbrev added : KeyringProviderRecord
added = record {
  provider_id = pos 0;
  provider_name = 98 ∷ [];
  options = [];
  provider_type = file_key_provider;
}

abbrev two_records : ProviderFiles
two_records = record { records = λ db. if db == 1664 then removed ∷ live ∷ [] else []; xlog = [] }

not_there : get_record_by_name (98 ∷ []) 1664 two_records ≡ none
unfolding get_record_by_name first_named is_named same_bytes
not_there = refl

there : get_record_by_name (97 ∷ []) 1664 two_records ≡ some (1, live)
unfolding get_record_by_name first_named is_named same_bytes
there = refl

get_record_by_name-save_new_key_provider_info_example :
    let r = save_new_key_provider_info (ok tt) added 1664 two_records in
    (r.0 ≡ ok tt)
    × (id : ℤ) × AllBelow (abs id) (removed ∷ live ∷ [])
    × (is_negative id ≡ true)
    × (r.1.records 1664 ≡ (removed ∷ live ∷ []) ++ record added { provider_id = id } ∷ [])
    × (get_record_by_name (98 ∷ []) 1664 r.1 ≡ some (2, record added { provider_id = id }))
get_record_by_name-save_new_key_provider_info_example =
    get_record_by_name-save_new_key_provider_info added 1664 two_records refl not_there
      (id_below (omega arith) (id_below (omega arith) no_records))

delete_key_provider_info-ids_example :
    let r = delete_key_provider_info (97 ∷ []) 1664 two_records in
    (r.0 ≡ ok tt)
    × (suc (count_named (97 ∷ []) (r.1.records 1664)) ≡ count_named (97 ∷ []) (removed ∷ live ∷ []))
    × ((other : Bytes)
        → is_named other live ≡ false
        → get_record_by_name other 1664 r.1 ≡ get_record_by_name other 1664 two_records)
    × (ids (r.1.records 1664) ≡ minus 1 ∷ minus 2 ∷ [])
    × ((other : ℕ) → (other == 1664) ≡ false → r.1.records other ≡ two_records.records other)
delete_key_provider_info-ids_example =
    delete_key_provider_info-ids (97 ∷ []) 1664 1 live two_records there

redo_all-provider_info_example :
    Logged (save_new_key_provider_info (ok tt) added 1664)
    × Logged (modify_key_provider_info (ok tt) added 1664)
    × Logged (delete_key_provider_info (97 ∷ []) 1664)
redo_all-provider_info_example = redo_all-provider_info (ok tt) added (97 ∷ []) 1664
