-- ===== src/Examples/Migration.antt =====
-- A key file of version 5 with one key.
use open_pg_tde.Base.{ℕ, ◌≡◌, refl, ap, none, some, [], ◌∷◌, map, arith, zeros, ok}
use open_pg_tde.Block.{InternalKey}
use open_pg_tde.Cipher.{cipher_key_length}
use open_pg_tde.Keys.{PrincipalKey, aes_gcm_decrypt}
use open_pg_tde.KeyMap.Layout.{
  RelFileLocator, TdeFileHeader, TdeMapEntryV4, v5, keyed, KeyDir, filemagic_version, entry_v4_aad,
}
use open_pg_tde.KeyMap.Entry.{IsKey}
use open_pg_tde.KeyMap.Lookup.{get_smgr_key}
use open_pg_tde.KeyMap.Old.{
  old_key, ikey_from_map_entry_v4, map_from_disk_entry_v4, old_entries, migrate_file,
}
use open_pg_tde.KeyMap.OldKeys.{OldKey, Opens, no_entries, holds_key, first_old}
use open_pg_tde.KeyMap.Migrated.{get-migrate_file}
use open_pg_tde.Examples.Toy.{toy_gcm, toy_unseal_lem, mask}

abbrev pk : PrincipalKey
pk = record {
  key_info = record { database_id = 5; keyring_id = 1; creation_time = (0, 0); name = 112 ∷ [] };
  key_data = 9 ∷ zeros 15;
  key_length = 16;
}

abbrev key : InternalKey
key = record { key_len = 16; cipher = 0; base_iv = zeros 16; key = 1 ∷ 2 ∷ 3 ∷ zeros 13 }

key-IsKey : IsKey key
unfolding cipher_key_length
key-IsKey = record { known = refl; sized = refl }

abbrev blank : TdeMapEntryV4
blank = record {
  cipher = 0;
  spc_oid = 1663;
  rel_number = 16384;
  type = 1;
  entry_iv = zeros 16;
  aead_tag = [];
  key_base_iv = zeros 16;
  encrypted_key_data = [];
}

abbrev old_entry : TdeMapEntryV4
old_entry = record blank {
  aead_tag = entry_v4_aad blank;
  encrypted_key_data = mask pk.key_data key.key;
}

abbrev old_header : TdeFileHeader
old_header = record {
  file_version = 0x05454454;
  signed_key_info = record { info = pk.key_info; sign_iv = zeros 16; aead_tag = [] };
}

abbrev held : OldKey
held = record { spc_oid = 1663; rel_number = 16384; key = key }

opened : ikey_from_map_entry_v4 toy_gcm pk old_entry ≡ ok key
unfolding ikey_from_map_entry_v4 old_key aes_gcm_decrypt cipher_key_length
opened = ap (old_key 16 0 (zeros 16)) (toy_unseal_lem pk.key_data (entry_v4_aad blank) key.key)

old_file-Opens : Opens toy_gcm pk (old_entry ∷ []) (held ∷ [])
old_file-Opens = holds_key key refl opened key-IsKey no_entries

read_as_v5 :
    old_entries toy_gcm pk (filemagic_version 0x05454454) (v5 (old_entry ∷ []))
    ≡ ok (map (map_from_disk_entry_v4 toy_gcm pk) (old_entry ∷ []))
unfolding old_entries
read_as_v5 = refl

abbrev two_buffers : KeyDir
two_buffers = record { file = λ _. none; xlog = []; rand = zeros 16 ∷ zeros 16 ∷ [] }

get-migrate_file_example :
    let r =
      migrate_file toy_gcm
        (some pk)
        5
        (some (keyed old_header (v5 (old_entry ∷ []))))
        two_buffers in
    (r.0 ≡ ok tt)
    × ((spc num : ℕ)
        → let rel : RelFileLocator = record { spc_oid = spc; db_oid = 5; rel_number = num } in
          (get_smgr_key toy_gcm (some pk) rel r.1).0 ≡ ok (first_old spc num (held ∷ [])))
get-migrate_file_example =
    get-migrate_file toy_gcm pk old_header (v5 (old_entry ∷ [])) (old_entry ∷ []) (held ∷ [])
      two_buffers (zeros 16) (zeros 16 ∷ []) refl read_as_v5 old_file-Opens refl (omega arith)
