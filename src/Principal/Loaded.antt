-- ===== src/Principal/Loaded.antt =====
-- Loading a principal key from the key file and its key server.
use open_pg_tde.Base.{
  ℕ, ◌≡◌, refl, ap, ◌∙◌, true, false, some, [], ◌==◌, Bytes, Result, ok, and_then, lift, resume,
}
use open_pg_tde.Keys.{
  Gcms, PrincipalKey, signed_with, sign_principal_key_info, rand_bytes, verify_principal_key_info,
  global_data_tde_oid,
}
use open_pg_tde.Keys.Signed.{verify-sign_principal_key_info}
use open_pg_tde.KeyMap.Lookup.{get_principal_key_info}
use open_pg_tde.Principal.{
  Keyring, KeyInfo, Keyrings, Principals, load_key, load_found, verified_key, key_info_of,
  get_from_keyring, required, required_keyring,
}

-- The key server that is configured for a key gives its data, under the name of the key.
pub record IsServed (keyrings : Keyrings) (db : ℕ) (pk : PrincipalKey) : Type 0 where
  pub keyring : Keyring
  pub found : keyrings.provider_by_id pk.key_info.keyring_id db ≡ some keyring
  pub given : KeyInfo
  pub gives : keyrings.get_key keyring pk.key_info.name ≡ ok (some given)
  pub same_data : given.key_data ≡ pk.key_data
  pub same_length : given.len ≡ pk.key_length

module _ (gcm : Gcms) (keyrings : Keyrings) (db : ℕ) (pk : PrincipalKey) (iv : Bytes) where
  -- A description verifies with the key that signed it.
  pub verify-signed_with :
      verify_principal_key_info gcm (signed_with gcm pk iv) pk.key_data pk.key_length ≡ true
  unfolding sign_principal_key_info rand_bytes
  verify-signed_with =
      let (signed, made, info, checks) = verify-sign_principal_key_info gcm pk iv [] in
      let same : signed ≡ signed_with gcm pk iv = cc made in rw same at checks

  -- What a file with the signed description of a key leads to is that key.
  pub load_key_lem :
      IsServed keyrings db pk → load_key gcm keyrings db (signed_with gcm pk iv) ≡ ok pk
  unfolding load_key verified_key signed_with
  load_key_lem k =
      let info = pk.key_info in
      let verify : Bytes → ℕ → Result PrincipalKey = λ bytes len.
        verified_key gcm (signed_with gcm pk iv)
          (record { name = k.given.name; key_data = bytes; len = len }) in
      ap
        (λ o. and_then (required_keyring o) λ r.
          and_then (and_then (keyrings.get_key r info.name) required)
            (verified_key gcm (signed_with gcm pk iv)))
        k.found
      ∙ ap (λ o. and_then (and_then o required) (verified_key gcm (signed_with gcm pk iv))) k.gives
      ∙ ap (λ d. verify d k.given.len) k.same_data
      ∙ ap (verify pk.key_data) k.same_length
      ∙ rw verify-signed_with refl

  pub get_from_keyring_lem :
      (s : Principals)
      → (db == global_data_tde_oid) ≡ false
      → (get_principal_key_info db s.dir).0 ≡ ok (some (signed_with gcm pk iv))
      → IsServed keyrings db pk
      → (get_from_keyring gcm keyrings db s).0 ≡ ok (some pk)
  unfolding get_from_keyring key_info_of load_found
  get_from_keyring_lem s d h k =
      let t : Principals = record s { dir = (get_principal_key_info db s.dir).1 } in
      rw d (
        ap (λ r. (resume r (λ found. lift (load_found gcm keyrings db found)) t).0) h
        ∙ ap (λ r. and_then r λ loaded. ok (some loaded)) (load_key_lem k))
