-- ===== src/Wal/Entry.antt =====
-- One entry of the WAL key file.
use open_pg_tde.Base.{
  ◌≤◌, ◌≡◌, refl, ap, ◌∙◌, some, ◌∷◌, arith, Bytes, length, take, take_all, ok, and_then, ltb,
  false,
}
use open_pg_tde.Keys.{Gcms, PrincipalKey, Random, rand_bytes, aes_gcm_encrypt, aes_gcm_decrypt}
use open_pg_tde.Keys.Signed.{aes_gcm_undo, length-aes_gcm_encrypt}
use open_pg_tde.KeyMap.Entry.{IsKey}
use open_pg_tde.Wal.Range.{
  WalLocation, WalEncryptionRange, WalKeyFileEntry, max_location, wal_entry_aad, seal_wal_entry,
  initialize_wal_key_file_entry, opened_range, wal_range_from_entry,
}

-- what was sealed opens, whatever start the entry has by then
pub wal_range_from_entry_lem :
    (gcm : Gcms) (pk : PrincipalKey) (range : WalEncryptionRange) (iv : Bytes) (loc : WalLocation)
    → IsKey range.key
    → wal_range_from_entry gcm pk (record (seal_wal_entry gcm pk range iv) { range_start = loc })
      ≡ ok (record range { start = loc; end_loc = max_location })
unfolding wal_range_from_entry seal_wal_entry opened_range
wal_range_from_entry_lem gcm pk range iv loc h =
    let key = range.key in
    let e : WalKeyFileEntry = record (seal_wal_entry gcm pk range iv) { range_start = loc } in
    let aad = wal_entry_aad e in
    let x = take key.key_len key.key in
    let sealed = aes_gcm_encrypt gcm pk.key_data pk.key_length iv aad x in
    let whole : x ≡ key.key = take_all key.key_len key.key (omega arith) in
    let short : take key.key_len sealed.0 ≡ sealed.0 = take_all key.key_len sealed.0 (
      omega
        (arith, ap length whole, length-aes_gcm_encrypt gcm pk.key_data pk.key_length iv aad x)) in
    ap
      (λ c. and_then c λ n.
        opened_range n e
          (aes_gcm_decrypt gcm pk.key_data pk.key_length iv aad (take n sealed.0) sealed.1))
      h.known
    ∙ ap
        (λ t.
          opened_range key.key_len e
            (aes_gcm_decrypt gcm pk.key_data pk.key_length iv aad t sealed.1))
        short
    ∙ ap (opened_range key.key_len e) (aes_gcm_undo gcm pk.key_data pk.key_length iv aad x)
    ∙ ap (λ k. opened_range key.key_len e (some k)) whole

-- With random bytes at hand and a key of at most 32 bytes, writing an entry for a range succeeds, and
-- reading it with the same principal key gives the type, the key and the base IV of the range, with
-- whatever start was put into the entry since, and no end.
pub wal_range_from_entry-initialize_wal_key_file_entry :
    (gcm : Gcms) (pk : PrincipalKey) (range : WalEncryptionRange) (iv : Bytes) (rand : Random)
    → IsKey range.key
    → range.key.key_len ≤ 32
    → (e : WalKeyFileEntry) × (initialize_wal_key_file_entry gcm pk range (iv ∷ rand)
        ≡ ok (e, rand))
      × ((loc : WalLocation)
          → wal_range_from_entry gcm pk (record e { range_start = loc })
            ≡ ok (record range { start = loc; end_loc = max_location }))
unfolding initialize_wal_key_file_entry rand_bytes
wal_range_from_entry-initialize_wal_key_file_entry gcm pk range iv rand k h =
    let fits : ltb 32 range.key.key_len ≡ false = ground arith in
    (
      seal_wal_entry gcm pk range iv,
      rw fits refl,
      λ loc. wal_range_from_entry_lem gcm pk range iv loc k,
    )
