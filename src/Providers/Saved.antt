-- ===== src/Providers/Saved.antt =====
-- Adding a key provider.
use open_pg_tde.Base.{
  ℤ, abs, is_negative, inl, inr, Bool-cases, ◌<◌, ℕ, suc, ◌+◌, ◌≤◌, ◌≡◌, refl, ap, ◌∙◌, true, false,
  none, some, List, [], ◌∷◌, ◌++◌, ◌==◌, if◌then◌else◌, arith, Bytes, length, ok, err, and_then,
  provider_id_out_of_range,
}
use open_pg_tde.Aes.{same_bytes}
use open_pg_tde.Keys.{global_data_tde_oid}
use open_pg_tde.Providers.{
  KeyringProviderRecord, ProviderFiles, is_live, is_named, first_named, get_record_by_name, new_id,
  signed_id, pg_int32_max, write_record, write_key_provider_info, save_new_key_provider_info,
}
use open_pg_tde.Providers.Found.{AllBelow, max_id_lem, write_record_end, first_named-append}

same_bytes_refl : (xs : Bytes) → same_bytes xs xs ≡ true
unfolding same_bytes
same_bytes_refl [] = refl
same_bytes_refl (x ∷ xs) = ground (arith, same_bytes_refl xs)

new_id_lem :
    (name : Bytes) (rs : List KeyringProviderRecord)
    → first_named name rs 0 ≡ none
    → AllBelow pg_int32_max rs
    → (id : ℕ) × (new_id name rs ≡ ok id) × AllBelow id rs × (id ≤ pg_int32_max) × (0 < id)
unfolding new_id
new_id_lem name rs h below =
    let (m, p, bound, least, all) = max_id_lem name rs 0 0 h below (omega arith) in
    let left : (m == pg_int32_max) ≡ false = ground (arith, bound) in
    let chain : new_id name rs ≡ ok (suc m) =
      ap
        (λ c.
          and_then c λ n. if n == pg_int32_max then err provider_id_out_of_range else ok (n + 1))
        p
      ∙ ap (λ b. if b then err provider_id_out_of_range else ok (m + 1)) left
      ∙ ap ok (omega arith) in
    (suc m, chain, all, omega arith, omega arith)

signed_id_lem :
    (db id : ℕ)
    → 0 < id
    → (abs (signed_id db id) ≡ id) × (is_negative (signed_id db id) ≡ (db == global_data_tde_oid))
unfolding signed_id
signed_id_lem db id h = elim (Bool-cases (db == global_data_tde_oid)) [
  | inl p ↦ rw p (omega arith, refl)
  | inr p ↦ rw p (refl, refl)
]

-- Where the checks pass, no live provider has the name, and ids are left, adding a provider succeeds.
-- It is found under its name, with an id that is negative just for global providers, and whose absolute
-- value is above that of every other id of the file, deleted providers included; the records before it
-- are as they were.
pub get_record_by_name-save_new_key_provider_info :
    (provider : KeyringProviderRecord) (db : ℕ) (s : ProviderFiles)
    → is_live provider.provider_type ≡ true
    → get_record_by_name provider.provider_name db s ≡ none
    → AllBelow pg_int32_max (s.records db)
    → let r = save_new_key_provider_info (ok tt) provider db s in
      (r.0 ≡ ok tt)
      × (id : ℤ) × AllBelow (abs id) (s.records db)
      × (is_negative id ≡ (db == global_data_tde_oid))
      × (r.1.records db ≡ s.records db ++ record provider { provider_id = id } ∷ [])
      × (get_record_by_name provider.provider_name db r.1
          ≡ some (length (s.records db), record provider { provider_id = id }))
unfolding save_new_key_provider_info get_record_by_name write_key_provider_info is_named
get_record_by_name-save_new_key_provider_info provider db s live fresh below =
    let rs = s.records db in
    let (id, p, all, most, least) = new_id_lem provider.provider_name rs fresh below in
    let (size, sign) = signed_id_lem db id least in
    let r : KeyringProviderRecord = record provider { provider_id = signed_id db id } in
    let own : (db == db) ≡ true = ground arith in
    let named : is_named provider.provider_name r ≡ true =
      ground (arith, live, same_bytes_refl provider.provider_name) in
    let stored : (if db == db then write_record (length rs) r rs else rs) ≡ rs ++ r ∷ [] =
      ap (λ b. if b then write_record (length rs) r rs else rs) own ∙ write_record_end r rs in
    rw p (
      refl,
      signed_id db id,
      rw size all,
      sign,
      stored,
      ap (λ es. first_named provider.provider_name es 0) stored
          ∙ first_named-append provider.provider_name r rs 0 fresh named
          ∙ ap (λ j. some (j, r)) (omega arith),
    )
