-- ===== src/Principal/ProviderKeys.antt =====
-- What the check of a modified key provider ensures.
use open_pg_tde.Base.{
  ℕ, ◌≡◌, sym, ap, ◌∙◌, inl, inr, true, Bool-cases, Option-cases, Option, some, List, [], ◌∷◌, ◌++◌,
  ◌==◌, if◌then◌else◌, arith, Result, Result-cases, ok, err, lift, Exec, ◌>>◌, resume, and_then,
  key_mismatch, key_missing,
}
use open_pg_tde.Keys.{Gcms, SignedPrincipalKeyInfo, verify_principal_key_info, global_data_tde_oid}
use open_pg_tde.Principal.{Keyring, KeyInfo, Keyrings, Principals, key_info_of, required}
use open_pg_tde.Principal.Used.{verify_modified, verify_all, verify_provider_keys_in_use}
use open_pg_tde.Principal.Known.{same_info}
use open_pg_tde.Principal.Quiet.{read-AreQuiet}

module _ (gcm : Gcms) (keyrings : Keyrings) (modified : Keyring)
    (signed : SignedPrincipalKeyInfo) where
  -- the key server of the provider has the key that a description was signed with
  abbrev pub IsProvided : Type 0
  IsProvided =
      (k : KeyInfo) × (keyrings.get_key modified signed.info.name ≡ ok (some k))
      × (verify_principal_key_info gcm signed k.key_data k.len ≡ true)

  verify_modified_sound :
      signed.info.keyring_id ≡ modified.keyring_id
      → verify_modified gcm keyrings modified (some signed) ≡ ok tt
      → IsProvided
  unfolding verify_modified
  verify_modified_sound same passed =
      let mine : (signed.info.keyring_id == modified.keyring_id) ≡ true = ground (arith, same) in
      let test : KeyInfo → Result (Unit {0}) = λ k.
        if verify_principal_key_info gcm signed k.key_data k.len then ok tt else err key_mismatch in
      let check : Result (Option KeyInfo) → Result (Unit {0}) =
        λ r. and_then (and_then r required) test in
      let whole : check (keyrings.get_key modified signed.info.name) ≡ ok tt =
        ap (λ b. if b then check (keyrings.get_key modified signed.info.name) else ok tt) (sym mine)
        ∙ passed in
      elim (Result-cases (keyrings.get_key modified signed.info.name)) [
        | inr (e, p) ↦ let clash : err e ≡ ok tt = ap check (sym p) ∙ whole in absurd (cc clash)
        | inl (found, p) ↦ elim (Option-cases found) [
          | inl n ↦
              let clash : err key_missing ≡ ok tt =
                ap (λ o. check (ok o)) (sym n) ∙ ap check (sym p) ∙ whole in
              absurd (cc clash)
          | inr (k, n) ↦
              let tested : test k ≡ ok tt =
                ap (λ o. check (ok o)) (sym n) ∙ ap check (sym p) ∙ whole in
              elim (Bool-cases (verify_principal_key_info gcm signed k.key_data k.len)) [
                | inl fits ↦ (k, p ∙ ap ok n, fits)
                | inr differs ↦
                    let clash : err key_mismatch ≡ ok tt =
                      ap (λ b. if b then ok tt else err key_mismatch) (sym differs) ∙ tested in
                    absurd (cc clash)
              ]
        ]
      ]

  module _ (db : ℕ) (after : List ℕ) where
    -- one round that succeeds
    rounded :
        (d : ℕ) (ds : List ℕ) (s : Principals)
        → (verify_all gcm keyrings modified (d ∷ ds) s).0 ≡ ok tt
        → (found : Option SignedPrincipalKeyInfo) × ((key_info_of gcm keyrings d s).0 ≡ ok found)
          × (verify_modified gcm keyrings modified found ≡ ok tt)
          × ((verify_all gcm keyrings modified ds (key_info_of gcm keyrings d s).1).0 ≡ ok tt)
    unfolding verify_all
    rounded d ds s passed =
        let m = key_info_of gcm keyrings d in
        let t = (m s).1 in
        let rest = verify_all gcm keyrings modified ds in
        let go_on : Option SignedPrincipalKeyInfo → Exec Principals Unit =
          λ found. lift (verify_modified gcm keyrings modified found) >> rest in
        elim (Result-cases (m s).0) [
          | inr (e, p) ↦
              let clash : err e ≡ ok tt = ap (λ r. (resume r go_on t).0) (sym p) ∙ passed in
              absurd (cc clash)
          | inl (found, p) ↦
              let further : (go_on found t).0 ≡ ok tt =
                ap (λ r. (resume r go_on t).0) (sym p) ∙ passed in
              elim (Result-cases (verify_modified gcm keyrings modified found)) [
                | inr (e, q) ↦
                    let clash : err e ≡ ok tt =
                      ap (λ r. (resume r (λ u. rest) t).0) (sym q) ∙ further in
                    absurd (cc clash)
                | inl (u, q) ↦ (found, p, q, ap (λ r. (resume r (λ u. rest) t).0) (sym q) ∙ further)
              ]
        ]

    verify_all_sound :
        (before : List ℕ) (s : Principals)
        → (key_info_of gcm keyrings db s).0 ≡ ok (some signed)
        → signed.info.keyring_id ≡ modified.keyring_id
        → (verify_all gcm keyrings modified (before ++ (db ∷ after)) s).0 ≡ ok tt
        → IsProvided
    verify_all_sound [] s described same passed =
        let (found, p, q, rest) = rounded db after s passed in
        let it : found ≡ some signed = cc (p, described) in
        verify_modified_sound same (ap (verify_modified gcm keyrings modified) (sym it) ∙ q)
    verify_all_sound (d ∷ ds) s described same passed =
        let (found, p, q, rest) = rounded d (ds ++ (db ∷ after)) s passed in
        let t = (key_info_of gcm keyrings d s).1 in
        let kept = read-AreQuiet gcm keyrings d s in
        verify_all_sound ds t
          (same_info gcm keyrings db s t kept.same_dir kept.same_wal ∙ described) same rest

    -- If the check of a modified provider passes, then for the server and each database of the scan
    -- whose key file names a key of this provider, the modified provider gives a key under that name,
    -- and with this key the description in the key file verifies.
    pub verify_provider_keys_in_use_sound :
        (before dbs : List ℕ) (s : Principals)
        → global_data_tde_oid ∷ dbs ≡ before ++ (db ∷ after)
        → (key_info_of gcm keyrings db s).0 ≡ ok (some signed)
        → signed.info.keyring_id ≡ modified.keyring_id
        → (verify_provider_keys_in_use gcm keyrings dbs modified s).0 ≡ ok tt
        → (k : KeyInfo) × (keyrings.get_key modified signed.info.name ≡ ok (some k))
          × (verify_principal_key_info gcm signed k.key_data k.len ≡ true)
    unfolding verify_provider_keys_in_use
    verify_provider_keys_in_use_sound before dbs s place described same passed =
        verify_all_sound before s described same
          (ap (λ l. (verify_all gcm keyrings modified l s).0) (sym place) ∙ passed)
