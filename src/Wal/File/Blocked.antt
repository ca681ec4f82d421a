-- ===== src/Wal/File/Blocked.antt =====
-- Entries that open_pg_tde_wal_last_range_set_location has invalidated, and rotation: the type is one of
-- the bytes that GCM authenticates, and it was changed without sealing the key again.
use open_pg_tde.Base.{
  ℕ, suc, ◌≤◌, ◌<◌, ◌^◌, ◌≡◌, ◌≢◌, refl, ap, ◌∙◌, some, none, List, ◌∷◌, ◌++◌, arith, Bool, Bytes,
  length, Result, err, decryption_failed, Exec, resume, modify, ◌>>=◌, ◌>>◌, take, take_all,
  and_then, le_bytes-prefix,
}
use open_pg_tde.Keys.{Gcms, PrincipalKey, Random, signed_with, aes_gcm_encrypt, aes_gcm_decrypt}
use open_pg_tde.Keys.Signed.{length-aes_gcm_encrypt}
use open_pg_tde.KeyMap.RotateLoop.{another_buffer}
use open_pg_tde.Wal.Range.{
  WalEncryptionRange, WalKeyFileEntry, encrypted, invalid, wal_range_from_entry, seal_wal_entry,
  wal_entry_aad, opened_range, WalLocation, initialize_wal_key_file_entry,
}
use open_pg_tde.Wal.File.{
  WalKeyFileHeader, current, keyed, WalDir, wal_dir_random, put_entry, header_only,
  wal_key_file_magic,
}
use open_pg_tde.Wal.File.Rewrite.{rewrite_entries, write_rotated_server, perform_rotate_server_key}
use open_pg_tde.Wal.File.Rewritten.{IsStored, Opens, no_entries, opens, rewrite_round, round}
use open_pg_tde.Wal.File.Rotated.{rotation_start}
use open_pg_tde.Wal.File.Safe.{write_rotated_server-Keeps}

-- AES-GCM rejects a text that was sealed with other additional data.
pub record IsAuthentic (gcm : Gcms) : Type 0 where
  pub rejects :
      (b : Bool) (k iv aad other x : Bytes)
      → aad ≢ other
      → (gcm b).unseal k iv other ((gcm b).seal k iv aad x).0 ((gcm b).seal k iv aad x).1 ≡ none

-- an entry of an encrypted range, sealed and invalidated since
abbrev pub invalidated_entry :
    Gcms → PrincipalKey → WalEncryptionRange → Bytes → WalLocation → WalKeyFileEntry
invalidated_entry gcm pk r iv start = record (seal_wal_entry gcm pk r iv) {
  range_type = invalid;
  range_start = start;
}

other_aad :
    (gcm : Gcms) (pk : PrincipalKey) (r : WalEncryptionRange) (iv : Bytes) (start : WalLocation)
    → r.type ≡ encrypted
    → r.key.cipher < 2 ^ 32
    → wal_entry_aad (seal_wal_entry gcm pk r iv)
      ≢ wal_entry_aad (invalidated_entry gcm pk r iv start)
unfolding seal_wal_entry
other_aad gcm pk r iv start t c same =
    let cut = le_bytes-prefix 4 r.key.cipher r.key.cipher _ _ (omega arith) (omega arith) same in
    let types =
      le_bytes-prefix 4 2 0 r.key.base_iv r.key.base_iv (omega arith) (omega arith)
        (rw t at cut.1) in
    omega (arith, types.0)

rejected :
    (gcm : Gcms) (pk : PrincipalKey) (r : WalEncryptionRange) (iv : Bytes) (start : WalLocation)
    → IsAuthentic gcm
    → r.type ≡ encrypted
    → r.key.cipher < 2 ^ 32
    → IsStored r
    → wal_range_from_entry gcm pk (invalidated_entry gcm pk r iv start) ≡ err decryption_failed
unfolding wal_range_from_entry seal_wal_entry opened_range aes_gcm_encrypt aes_gcm_decrypt
rejected gcm pk r iv start auth t c k =
    let e : WalKeyFileEntry = invalidated_entry gcm pk r iv start in
    let aad = wal_entry_aad (seal_wal_entry gcm pk r iv) in
    let n = r.key.key_len in
    let x = take n r.key.key in
    let sealed = aes_gcm_encrypt gcm pk.key_data pk.key_length iv aad x in
    let whole : x ≡ r.key.key = take_all n r.key.key (omega (arith, k.is_key.sized)) in
    let short : take n sealed.0 ≡ sealed.0 = take_all n sealed.0 (
      omega (
        arith,
        ap length whole,
        k.is_key.sized,
        length-aes_gcm_encrypt gcm pk.key_data pk.key_length iv aad x,
      )) in
    let opened : Bytes → Result WalEncryptionRange = λ text.
      opened_range n e
        (aes_gcm_decrypt gcm pk.key_data pk.key_length iv (wal_entry_aad e) text sealed.1) in
    ap
      (λ l. and_then l λ m. opened_range m e (
        aes_gcm_decrypt gcm pk.key_data pk.key_length iv (wal_entry_aad e) (take m sealed.0)
          sealed.1))
      k.is_key.known
    ∙ ap opened short
    ∙ ap (opened_range n e)
        (auth.rejects _ _ iv aad (wal_entry_aad e) x (other_aad gcm pk r iv start t c))

blocked_loop :
    (gcm : Gcms) (pk new_pk : PrincipalKey) (front : List WalKeyFileEntry)
    (rs : List WalEncryptionRange) (bad : WalKeyFileEntry) (back : List WalKeyFileEntry) (pos : ℕ)
    (s : WalDir)
    → Opens (wal_range_from_entry gcm pk) front rs
    → wal_range_from_entry gcm pk bad ≡ err decryption_failed
    → length front ≤ length s.rand
    → (rewrite_entries gcm new_pk (wal_range_from_entry gcm pk) (front ++ bad ∷ back) pos s).0
      ≡ err decryption_failed
unfolding rewrite_entries
blocked_loop gcm pk new_pk _ _ bad back pos s no_entries h n =
    let copy : WalEncryptionRange → Exec WalDir Unit = λ range.
      wal_dir_random (initialize_wal_key_file_entry gcm new_pk range) >>= λ w.
      modify (λ t. record t { temporary = put_entry pos w t.temporary })
      >> rewrite_entries gcm new_pk (wal_range_from_entry gcm pk) back (suc pos) in
    ap (λ r. (resume r copy s).0) h
blocked_loop gcm pk new_pk _ _ bad back pos s (opens {e = e} {es = es} {r = r} {rs = rs} o k rest) h
      n =
    let (iv, rand, p, left) = another_buffer s.rand (length es) n in
    ap (λ x. x.0)
      (rewrite_round gcm new_pk (wal_range_from_entry gcm pk) e (es ++ bad ∷ back) r iv rand pos s o
        k p)
    ∙ blocked_loop gcm pk new_pk es rs bad back (suc pos)
        (round gcm new_pk (wal_range_from_entry gcm pk) r iv rand pos s) rest h left

stopped :
    (gcm : Gcms) (pk new_pk : PrincipalKey) (s : WalDir) (h : WalKeyFileHeader)
    (es : List WalKeyFileEntry) (iv : Bytes) (rest : Random)
    → s.keys ≡ some (keyed h (current es))
    → h.file_version ≡ wal_key_file_magic
    → s.rand ≡ iv ∷ rest
    → ((u : WalDir)
        → u.rand ≡ rest
        → (rewrite_entries gcm new_pk (wal_range_from_entry gcm pk) es 0 u).0
          ≡ err decryption_failed)
    → (write_rotated_server gcm pk new_pk s).0 ≡ err decryption_failed
stopped gcm pk new_pk s h es iv rest stored v p fails =
    let signed = signed_with gcm new_pk iv in
    let t : WalDir = record s { rand = rest; temporary = some (header_only signed) } in
    ap (λ x. x.0) (rotation_start gcm pk new_pk h es iv rest s stored v p) ∙ fails t refl

-- Where AES-GCM rejects changed additional data, and the key file holds an entry of an encrypted range
-- that was invalidated because a later range began before it, behind entries that can be opened:
-- rotating the server's principal key fails to decrypt, with the right keys and random bytes at hand,
-- and the key file stays as it was.
pub perform_rotate_server_key-invalidated :
    (gcm : Gcms) (pk new_pk : PrincipalKey) (write_xlog : Bool) (s : WalDir) (h : WalKeyFileHeader)
    (front back : List WalKeyFileEntry) (rs : List WalEncryptionRange) (r : WalEncryptionRange)
    (entry_iv : Bytes) (start : WalLocation) (iv : Bytes) (rest : Random)
    → IsAuthentic gcm
    → s.keys ≡ some (keyed h (current (front ++ invalidated_entry gcm pk r entry_iv start ∷ back)))
    → h.file_version ≡ wal_key_file_magic
    → Opens (wal_range_from_entry gcm pk) front rs
    → r.type ≡ encrypted
    → r.key.cipher < 2 ^ 32
    → IsStored r
    → s.rand ≡ iv ∷ rest
    → length front ≤ length rest
    → let result = perform_rotate_server_key gcm pk new_pk write_xlog s in
      (result.0 ≡ err decryption_failed) × (result.1.keys ≡ s.keys)
unfolding perform_rotate_server_key
perform_rotate_server_key-invalidated gcm pk new_pk write_xlog s h front back rs r entry_iv start iv
      rest auth stored v o t c k p n =
    let es : List WalKeyFileEntry = front ++ invalidated_entry gcm pk r entry_iv start ∷ back in
    let failed = stopped gcm pk new_pk s h es iv rest stored v p (λ u q.
      blocked_loop gcm pk new_pk front rs _ back 0 u o (rejected gcm pk r entry_iv start auth t c k)
        (omega (arith, ap length q, n))) in
    rw failed (refl, write_rotated_server-Keeps gcm pk new_pk s)
