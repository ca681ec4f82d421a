-- ===== src/Providers/Deleted.antt =====
-- Removing a key provider.
use open_pg_tde.Base.{
  ℕ, suc, ◌+◌, false, ◌≡◌, refl, ap, ◌∙◌, true, false, some, ◌==◌, if◌then◌else◌, arith, Bytes, ok,
}
use open_pg_tde.Providers.{
  KeyringProviderRecord, ProviderFiles, zero_record, is_named, first_named, get_record_by_name,
  write_record, write_key_provider_info, delete_found, delete_key_provider_info,
}
use open_pg_tde.Providers.Found.{
  ids, ids-write_record, count_named, count_named-write_record, first_named-write_record,
}

-- Removing a provider that is found by its name succeeds: one live provider fewer has the name, and a
-- search for any other name ends as before. No id of the file changes, since that of the removed one
-- stays. The files of other databases are as they were.
pub delete_key_provider_info-ids :
    (name : Bytes) (db offset : ℕ) (x : KeyringProviderRecord) (s : ProviderFiles)
    → get_record_by_name name db s ≡ some (offset, x)
    → let r = delete_key_provider_info name db s in
      (r.0 ≡ ok tt)
      × (suc (count_named name (r.1.records db)) ≡ count_named name (s.records db))
      × ((other : Bytes)
          → is_named other x ≡ false
          → get_record_by_name other db r.1 ≡ get_record_by_name other db s)
      × (ids (r.1.records db) ≡ ids (s.records db))
      × ((other : ℕ) → (other == db) ≡ false → r.1.records other ≡ s.records other)
unfolding delete_key_provider_info delete_found write_key_provider_info get_record_by_name is_named
delete_key_provider_info-ids name db offset x s found =
    let rs = s.records db in
    let y : KeyringProviderRecord = record zero_record { provider_id = x.provider_id } in
    let own : (db == db) ≡ true = ground arith in
    let stored : (if db == db then write_record offset y rs else rs) ≡ write_record offset y rs =
      ap (λ b. if b then write_record offset y rs else rs) own in
    let here : first_named name rs 0 ≡ some (0 + offset, x) =
      found ∙ ap (λ j. some (j, x)) (omega arith) in
    rw found (
      refl,
      ap (λ es. suc (count_named name es)) stored
          ∙ count_named-write_record name rs 0 offset x y here refl,
      λ other apart.
          ap (λ es. first_named other es 0) stored
          ∙ first_named-write_record name other rs 0 offset x y here apart refl,
      ap ids stored ∙ ids-write_record name rs 0 offset x y here refl,
      λ other apart. ap (λ b. if b then write_record offset y rs else s.records other) apart,
    )
