-- ===== src/Examples/Wals.antt =====
-- Ranges of the WAL, their entries and their cache.
use open_pg_tde.Base.{ℕ, ◌≡◌, ◌↔◌, refl, [], ◌∷◌, ◌%◌, ◌^◌, some, arith, zeros}
use open_pg_tde.Block.{InternalKey}
use open_pg_tde.Cipher.{cipher_key_length}
use open_pg_tde.Keys.{PrincipalKey}
use open_pg_tde.KeyMap.Entry.{IsKey}
use open_pg_tde.Wal.Range.{
  WalLocation, WalEncryptionRange, encrypted, WalKeyFileEntry, max_location, seal_wal_entry,
}
use open_pg_tde.Wal.Ranges.{WalKeys, fetch_wal_keys}
use open_pg_tde.Wal.Prefix.{calc_xlog_page_iv_prefix}
use open_pg_tde.Wal.Cached.{Chained, last_range, fetch_wal_keys-Chained}
use open_pg_tde.Wal.Prefix.{calc_xlog_page_iv_prefix-injective}
use open_pg_tde.Examples.Toy.{toy_gcm}

abbrev pub pk : PrincipalKey
pk = record {
  key_info = record { database_id = 1664; keyring_id = 1; creation_time = (0, 0); name = 112 ∷ [] };
  key_data = 9 ∷ zeros 15;
  key_length = 16;
}

abbrev pub key : InternalKey
key = record { key_len = 16; cipher = 0; base_iv = zeros 16; key = 1 ∷ 2 ∷ 3 ∷ zeros 13 }

pub key-IsKey : IsKey key
unfolding cipher_key_length
key-IsKey = record { known = refl; sized = refl }

abbrev pub at : ℕ → WalLocation
at lsn = record { lsn = lsn; tli = 1 }

abbrev pub range : ℕ → WalEncryptionRange
range lsn = record { type = encrypted; key = key; start = at lsn; end_loc = max_location }

abbrev pub entry : ℕ → WalKeyFileEntry
entry lsn = seal_wal_entry toy_gcm pk (range lsn) (zeros 16)

abbrev process : WalKeys
process = record { entries = entry 100 ∷ entry 200 ∷ []; cache = range 50 ∷ []; rand = [] }

fetch_wal_keys-Chained_example : Chained (fetch_wal_keys toy_gcm (some pk) (at 1) process).1.cache
fetch_wal_keys-Chained_example =
    fetch_wal_keys-Chained toy_gcm (some pk) (at 1) process (last_range refl)

calc_xlog_page_iv_prefix-injective_example :
    (calc_xlog_page_iv_prefix 1 7 (zeros 16) ≡ calc_xlog_page_iv_prefix 65537 7 (zeros 16))
    ↔ ((1 % 2 ^ 16 ≡ 65537 % 2 ^ 16) × ◌≡◌ {A = ℕ} 7 7)
calc_xlog_page_iv_prefix-injective_example =
    calc_xlog_page_iv_prefix-injective (zeros 16) 1 65537 7 7 (omega arith) (omega arith)
