-- ===== src/Principal/Changed.antt =====
-- Changing the principal key of a database that has one.
use open_pg_tde.Base.{
  ℕ, ◌≤◌, ◌≡◌, refl, sym, ap, ◌∙◌, Bool, true, false, Option, none, some, List, ◌∷◌, ◌==◌, Bytes,
  length, ok, and_then, lift, Exec, bind_eq, ◌>>=◌, ◌>>◌, resume,
}
use open_pg_tde.Keys.{Gcms, PrincipalKey, global_data_tde_oid}
use open_pg_tde.KeyMap.Layout.{RelFileLocator, TdeFileHeader, TdeMapEntry, KeyDir}
use open_pg_tde.KeyMap.Lookup.{get_smgr_key, get_principal_key_info, count_keys}
use open_pg_tde.KeyMap.Rotate.{perform_rotate_key}
use open_pg_tde.KeyMap.Rotated.{get-perform_rotate_key}
use open_pg_tde.KeyMap.Resealed.{Ready}
use open_pg_tde.KeyMap.Stored.{Holds}
use open_pg_tde.Principal.{
  Keyring, KeyInfo, Keyrings, Principals, cached_key, push, clear, push_to_cache, clear_cache,
  required, get_principal_key_no_default, get_from_keyring,
}
use open_pg_tde.Principal.Manage.{
  new_principal_key, rotate_file, rotate_and_push, store_principal_key,
  set_principal_key_with_keyring,
}
use open_pg_tde.Principal.Cached.{cached_key-clear_cache, cached_key-push_to_cache, get_cached}
use open_pg_tde.Principal.Loaded.{IsServed, get_from_keyring_lem}
use open_pg_tde.Principal.Known.{HasKey, get_known}

-- After the step the database has this key: in the cache, and in the key file with the key servers.
-- Every relation key is what it was under the key before.
pub record HasMoved (gcm : Gcms) (keyrings : Keyrings) (db : ℕ) (old new_pk : PrincipalKey)
    (s t : Principals) : Type 0 where
  pub cached : (get_principal_key_no_default gcm keyrings db t).0 ≡ ok (some new_pk)
  pub loaded : (get_from_keyring gcm keyrings db t).0 ≡ ok (some new_pk)
  pub same_keys :
      (spc num : ℕ)
      → let rel : RelFileLocator = record { spc_oid = spc; db_oid = db; rel_number = num } in
        (get_smgr_key gcm (some new_pk) rel t.dir).0 ≡ (get_smgr_key gcm (some old) rel s.dir).0

module _ (gcm : Gcms) (keyrings : Keyrings) (db : ℕ) (h : TdeFileHeader) (es : List TdeMapEntry)
    (iv : Bytes) (rand : List Bytes) where
  -- the key file of the database, ready for a rotation
  pub record IsRotatable (pk : PrincipalKey) (s : Principals) : Type 0 where
    pub local_db : (db == global_data_tde_oid) ≡ false
    pub own : pk.key_info.database_id ≡ db
    pub holds : Holds s.dir db h es
    pub ready : Ready gcm pk es
    pub random : s.dir.rand ≡ iv ∷ rand
    pub enough : count_keys 0 es ≤ length rand

  -- The key files alone matter for a rotation.
  pub other_cache :
      (pk : PrincipalKey) (s : Principals) (ks : List PrincipalKey)
      → IsRotatable pk s
      → IsRotatable pk (record s { cache = ks })
  other_cache pk s ks k = record {
    local_db = k.local_db;
    own = k.own;
    holds = k.holds;
    ready = k.ready;
    random = k.random;
    enough = k.enough;
  }

  pub moved_from :
      (old new_pk : PrincipalKey) (s : Principals) (ks : List PrincipalKey) (t : Principals)
      → HasMoved gcm keyrings db old new_pk (record s { cache = ks }) t
      → HasMoved gcm keyrings db old new_pk s t
  moved_from old new_pk s ks t m = record {
    cached = m.cached;
    loaded = m.loaded;
    same_keys = m.same_keys;
  }

  rotated_state :
      (pk new_pk : PrincipalKey) (write_xlog : Bool) (s : Principals)
      → (db == global_data_tde_oid) ≡ false
      → (perform_rotate_key gcm pk new_pk write_xlog s.dir).0 ≡ ok tt
      → rotate_and_push gcm keyrings db pk new_pk write_xlog s ≡ (
        ok tt,
        record s {
          dir = (perform_rotate_key gcm pk new_pk write_xlog s.dir).1;
          cache = push_to_cache new_pk (clear_cache pk.key_info.database_id s.cache);
        },
      )
  unfolding rotate_and_push rotate_file
  rotated_state pk new_pk write_xlog s local done =
      let t : Principals = record s {
        dir = (perform_rotate_key gcm pk new_pk write_xlog s.dir).1;
      } in
      let step : rotate_file gcm keyrings db pk new_pk write_xlog s ≡ (ok tt, t) =
        rw local (ap (λ r. (r, t)) done) in
      bind_eq (rotate_file gcm keyrings db pk new_pk write_xlog)
        (λ u. clear pk.key_info.database_id >> push new_pk) s t tt step

  pub rotate_and_push-HasMoved :
      (pk new_pk : PrincipalKey) (write_xlog : Bool) (s : Principals)
      → IsRotatable pk s
      → new_pk.key_info.database_id ≡ db
      → IsServed keyrings db new_pk
      → ((rotate_and_push gcm keyrings db pk new_pk write_xlog s).0 ≡ ok tt)
        × HasMoved gcm keyrings db pk new_pk s
            (rotate_and_push gcm keyrings db pk new_pk write_xlog s).1
  rotate_and_push-HasMoved pk new_pk write_xlog s k own served =
      let (done, same, info, gone) =
        get-perform_rotate_key gcm pk new_pk write_xlog s.dir h es iv rand (rw k.own k.holds)
          k.ready k.random k.enough in
      let d : KeyDir = (perform_rotate_key gcm pk new_pk write_xlog s.dir).1 in
      let t : Principals = record s {
        dir = d;
        cache = push_to_cache new_pk (clear_cache pk.key_info.database_id s.cache);
      } in
      let whole : rotate_and_push gcm keyrings db pk new_pk write_xlog s ≡ (ok tt, t) =
        rotated_state pk new_pk write_xlog s k.local_db done in
      let empty : cached_key new_pk.key_info.database_id
            (clear_cache pk.key_info.database_id s.cache)
          ≡ none =
        ap (λ i. cached_key i (clear_cache pk.key_info.database_id s.cache)) (own ∙ sym k.own)
        ∙ cached_key-clear_cache pk.key_info.database_id s.cache in
      let cached : cached_key db t.cache ≡ some new_pk =
        ap (λ i. cached_key i t.cache) (sym own)
        ∙ cached_key-push_to_cache new_pk (clear_cache pk.key_info.database_id s.cache) empty in
      rw whole (
        refl,
        record {
          cached = ap (λ r. r.0) (get_cached gcm keyrings db new_pk t cached);
          loaded =
              get_from_keyring_lem gcm keyrings db new_pk iv t k.local_db
                (ap (λ i. (get_principal_key_info i d).0) (sym k.own) ∙ info) served;
          same_keys = λ spc num.
              let rel : ℕ → RelFileLocator =
                λ i. record { spc_oid = spc; db_oid = i; rel_number = num } in
              ap (λ i. (get_smgr_key gcm (some new_pk) (rel i) d).0) (sym k.own)
              ∙ same spc num
              ∙ ap (λ i. (get_smgr_key gcm (some pk) (rel i) s.dir).0) k.own;
        },
      )

  -- Where the server knows the principal key of a database, from its cache or from the key file and a
  -- key server, the key file can be read and that key opens its keys, random bytes are at hand, and the
  -- key servers know the new key: setting the new key succeeds. The database has the new key from then
  -- on, in the cache and, for a server that has lost its cache, from the key file and the key servers;
  -- and every relation key is what it was under the old one.
  pub set_principal_key_with_keyring-HasMoved :
      (key_name provider_name : Bytes) (provider_oid : ℕ) (now : ℕ × ℕ) (pk : PrincipalKey)
      (keyring : Keyring) (k : KeyInfo) (s : Principals)
      → HasKey gcm keyrings db pk s
      → IsRotatable pk s
      → keyrings.provider_by_name provider_name provider_oid ≡ ok keyring
      → keyrings.get_key keyring key_name ≡ ok (some k)
      → IsServed keyrings db (new_principal_key db keyring.keyring_id k now)
      → let new_pk = new_principal_key db keyring.keyring_id k now in
        let r =
          set_principal_key_with_keyring gcm keyrings key_name provider_name provider_oid db now
            s in
        (r.0 ≡ ok tt) × HasMoved gcm keyrings db pk new_pk s r.1
  unfolding set_principal_key_with_keyring store_principal_key
  set_principal_key_with_keyring-HasMoved key_name provider_name provider_oid now pk keyring k s has
        ready named given served =
      let new_pk : PrincipalKey = new_principal_key db keyring.keyring_id k now in
      let (ks, found, kept, others) = get_known gcm keyrings db pk s has in
      let t : Principals = record s { cache = ks } in
      let go_on : Option PrincipalKey → Exec Principals Unit = λ current.
        lift (keyrings.provider_by_name provider_name provider_oid) >>= λ r.
        lift (and_then (keyrings.get_key r key_name) required) >>= λ x.
        store_principal_key gcm keyrings db current (new_principal_key db r.keyring_id x now) in
      let store : Keyring → Exec Principals Unit = λ r.
        lift (and_then (keyrings.get_key r key_name) required) >>= λ x.
        store_principal_key gcm keyrings db (some pk) (new_principal_key db r.keyring_id x now) in
      let whole : set_principal_key_with_keyring gcm keyrings key_name provider_name provider_oid db
            now s
          ≡ rotate_and_push gcm keyrings db pk new_pk true t =
        bind_eq (get_principal_key_no_default gcm keyrings db) go_on s t (some pk) found
        ∙ bind_eq (lift (keyrings.provider_by_name provider_name provider_oid)) store t t keyring
            (ap (λ r. (r, t)) named)
        ∙ ap
            (λ r.
              resume (and_then r required)
                (λ x.
                  store_principal_key gcm keyrings db (some pk)
                    (new_principal_key db keyring.keyring_id x now))
                t)
            given in
      let (done, moved) =
        rotate_and_push-HasMoved pk new_pk true t (other_cache pk s ks ready) refl served in
      rw whole (done, moved_from pk new_pk s ks _ moved)
