-- ===== src/Providers/Replayed.antt =====
-- Replaying the WAL records of key providers on a standby.
use open_pg_tde.Base.{
  same_int, ℕ, ◌≡◌, refl, ap, Bool, true, false, Option, none, some, List, [], ◌∷◌, ◌++◌,
  if◌then◌else◌, Bytes, Result, ok, err, Exec, pure, lift, ◌>>=◌, ◌>>◌,
}
use open_pg_tde.Providers.{
  KeyringProviderRecord, KeyringProviderRecordInFile, ProviderFiles, write_key_provider_info,
  redo_key_provider_info, get_record_by_name, new_id, save_new_key_provider_info, modify_found,
  modify_key_provider_info, delete_found, delete_key_provider_info,
}

-- redo of the records in their order
abbrev pub redo_all : List KeyringProviderRecordInFile → Exec ProviderFiles Unit
redo_all [] = pure tt
redo_all (r ∷ rs) = redo_key_provider_info r >> redo_all rs

-- A step that adds WAL records whose replay makes the same files.
abbrev pub Logged : {A : Type 0} → Exec ProviderFiles A → Type 0
Logged m =
    (s : ProviderFiles)
    → (rs : List KeyringProviderRecordInFile) × ((m s).1.xlog ≡ s.xlog ++ rs)
      × ((db : ℕ) → (redo_all rs s).1.records db ≡ (m s).1.records db)

append_nil : (rs : List KeyringProviderRecordInFile) → rs ≡ rs ++ []
append_nil [] = refl
append_nil (r ∷ rs) = ap (◌∷◌ r) (append_nil rs)

write-Logged : (r : KeyringProviderRecordInFile) → Logged (write_key_provider_info r true)
unfolding write_key_provider_info redo_key_provider_info
write-Logged r s = (r ∷ [], refl, λ db. refl)

quiet :
    (s : ProviderFiles)
    → (rs : List KeyringProviderRecordInFile) × (s.xlog ≡ s.xlog ++ rs)
      × ((db : ℕ) → (redo_all rs s).1.records db ≡ s.records db)
quiet s = ([], append_nil s.xlog, λ db. refl)

lift-Logged :
    {A B : Type 0} (c : Result A) (f : A → Exec ProviderFiles B)
    → ((a : A) → Logged (f a))
    → Logged (lift c >>= f)
lift-Logged (ok a) f p s = p a s
lift-Logged (err e) f p s = quiet s

if-Logged :
    {A : Type 0} (b : Bool) (m n : Exec ProviderFiles A)
    → Logged m
    → Logged n
    → Logged (if b then m else n)
if-Logged true m n p q = p
if-Logged false m n p q = q

modify_found-Logged :
    (provider : KeyringProviderRecord) (db : ℕ) (found : Option (ℕ × KeyringProviderRecord))
    → Logged (modify_found provider db found)
unfolding modify_found
modify_found-Logged provider db none = quiet
modify_found-Logged provider db (some (offset, r)) =
    if-Logged (same_int provider.provider_id r.provider_id) _ _ (write-Logged _) quiet

delete_found-Logged :
    (db : ℕ) (found : Option (ℕ × KeyringProviderRecord)) → Logged (delete_found db found)
unfolding delete_found
delete_found-Logged db none s = quiet s
delete_found-Logged db (some (offset, r)) s = write-Logged _ s

-- Saving, changing and deleting a provider each emit the WAL records whose replay on the state before
-- gives every database's file as the operation left it, errors included.
pub redo_all-provider_info :
    (checked : Result (Unit {0})) (provider : KeyringProviderRecord) (name : Bytes) (db : ℕ)
    → Logged (save_new_key_provider_info checked provider db)
      × Logged (modify_key_provider_info checked provider db)
      × Logged (delete_key_provider_info name db)
unfolding save_new_key_provider_info modify_key_provider_info delete_key_provider_info
redo_all-provider_info checked provider name db = (
  lift-Logged checked _ (λ _ s.
      lift-Logged (new_id provider.provider_name (s.records db)) _ (λ id. write-Logged _) s),
  lift-Logged checked _
      (λ _ s. modify_found-Logged provider db (get_record_by_name provider.provider_name db s) s),
  λ s. delete_found-Logged db (get_record_by_name name db s) s,
)
