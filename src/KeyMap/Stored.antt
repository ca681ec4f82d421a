-- ===== src/KeyMap/Stored.antt =====
-- What saving and freeing a relation's key mean for later lookups.
use open_pg_tde.Base.{
  ◌⊎◌, inl, inr, not, ℕ, ◌+◌, ◌≡◌, refl, ap, ◌∙◌, Bool, true, false, Option, some, List, ◌∷◌, ◌==◌,
  arith, Bytes, ok, Exec, bind_ok, bind_eq, ◌>>=◌, pure, not, ◌||◌,
}
use open_pg_tde.Block.{InternalKey}
use open_pg_tde.Keys.{
  Gcms, PrincipalKey, SignedPrincipalKeyInfo, Random, signed_with, sign_principal_key_info,
  rand_bytes,
}
use open_pg_tde.KeyMap.Layout.{
  RelFileLocator, TdeFileHeader, TdeMapEntry, current, keyed, KeyDir, FilePath, keys, temporary,
  path_eq, smgr_file_magic, header_size, entry_size,
}
use open_pg_tde.KeyMap.Entry.{seal_entry, initialize_map_entry}
use open_pg_tde.KeyMap.File.{
  OpenFile, open_file_read, read_found, start_file, open_file_write, file_header_read, write_at,
  write_one_map_entry, slot, with_random, update_entries,
}
use open_pg_tde.KeyMap.Save.{scan, store_key, save_smgr_key}
use open_pg_tde.KeyMap.Lookup.{first_key, find_map_entry, get_smgr_key, key_of_entry}
use open_pg_tde.KeyMap.Slots.{Fits, scan-Fits, scan-unlisted, listed, slot-offset_of, offset_of}

-- a readable key file of a database with its entries
pub record Holds (s : KeyDir) (db_oid : ℕ) (h : TdeFileHeader) (es : List TdeMapEntry)
    : Type 0 where
  pub stored : s.file (keys db_oid) ≡ some (keyed h (current es))
  pub version : (h.file_version == smgr_file_magic) ≡ true

pub path_eq_refl : (p : FilePath) → path_eq p p ≡ true
unfolding path_eq
path_eq_refl (keys a) = ground arith
path_eq_refl (temporary a) = ground arith

-- Opening a readable file to write gives its entries and leaves it as it is.
pub open_file_write_lem :
    (s : KeyDir) (db_oid : ℕ) (h : TdeFileHeader) (es : List TdeMapEntry)
    (signed : Option SignedPrincipalKeyInfo)
    → Holds s db_oid h es
    → let r = open_file_write (keys db_oid) signed false s in
      (r.0 ≡ ok (record { entries = es; curr_pos = header_size }))
      × Holds r.1 db_oid h es
      × (r.1.rand ≡ s.rand)
unfolding open_file_write file_header_read start_file
open_file_write_lem s db_oid h es signed w = rw w.stored (
    rw w.version
      (refl, record { stored = rw (path_eq_refl (keys db_oid)) refl; version = w.version }, refl))

pub write_one_map_entry_lem :
    (s : KeyDir) (db_oid : ℕ) (h : TdeFileHeader) (es : List TdeMapEntry) (i : ℕ) (e : TdeMapEntry)
    → Holds s db_oid h es
    → let r = write_one_map_entry (keys db_oid) e (offset_of i) s in
      (r.0 ≡ ok (offset_of i + entry_size)) × Holds r.1 db_oid h (write_at i e es)
unfolding write_one_map_entry
write_one_map_entry_lem s db_oid h es i e w = (
  refl,
  record {
    stored = rw (path_eq_refl (keys db_oid)) (
        ap (update_entries (write_at (slot (offset_of i)) e)) w.stored
        ∙ ap (λ j. some (keyed h (current (write_at j e es)))) (slot-offset_of i));
    version = w.version;
  },
)

-- A search in a readable file.
find_map_entry_lem :
    (s : KeyDir) (rel : RelFileLocator) (h : TdeFileHeader) (es : List TdeMapEntry)
    → Holds s rel.db_oid h es
    → find_map_entry rel s ≡ (ok (first_key rel es), s)
unfolding find_map_entry open_file_read read_found file_header_read
find_map_entry_lem s rel h es w = rw w.stored (rw w.version refl)

-- Reading a relation's key changes no file, and depends on the first entry in use for it.
pub get_smgr_key_lem :
    (gcm : Gcms) (pk : Option PrincipalKey) (s : KeyDir) (rel : RelFileLocator) (h : TdeFileHeader)
    (es : List TdeMapEntry)
    → Holds s rel.db_oid h es
    → get_smgr_key gcm pk rel s ≡ (key_of_entry gcm pk (first_key rel es), s)
unfolding get_smgr_key
get_smgr_key_lem gcm pk s rel h es w = rw w.stored (rw (find_map_entry_lem s rel h es w) refl)

pub sign_step :
    (gcm : Gcms) (pk : PrincipalKey) (s : KeyDir) (iv : Bytes) (rand : Random)
    → s.rand ≡ iv ∷ rand
    → with_random (sign_principal_key_info gcm pk) s
      ≡ (ok (signed_with gcm pk iv), record s { rand = rand })
unfolding sign_principal_key_info rand_bytes
sign_step gcm pk s iv rand p = rw p refl

pub seal_step :
    (gcm : Gcms) (pk : PrincipalKey) (rel : RelFileLocator) (key : InternalKey) (s : KeyDir)
    (iv : Bytes) (rand : Random)
    → s.rand ≡ iv ∷ rand
    → with_random (initialize_map_entry gcm pk rel key) s
      ≡ (ok (seal_entry gcm pk rel key iv), record s { rand = rand })
unfolding initialize_map_entry rand_bytes
seal_step gcm pk rel key s iv rand p = rw p refl

or_true : (b : Bool) → b || true ≡ true
or_true true = refl
or_true false = refl

-- a readable file in which the slot for the key is written
store_key_lem :
    (gcm : Gcms) (pk : PrincipalKey) (rel : RelFileLocator) (key : InternalKey) (replace : Bool)
    (s : KeyDir) (h : TdeFileHeader) (es : List TdeMapEntry) (iv : Bytes) (rand : Random)
    → Holds s rel.db_oid h es
    → s.rand ≡ iv ∷ rand
    → (not (scan rel es header_size 0).0 || replace) ≡ true
    → let r =
        store_key gcm pk rel key replace (record { entries = es; curr_pos = header_size }) s in
      (r.0 ≡ ok tt)
      × (i : ℕ) × Fits rel es i
      × Holds r.1 rel.db_oid h (write_at i (seal_entry gcm pk rel key iv) es)
unfolding store_key
store_key_lem gcm pk rel key replace s h es iv rand w p writes =
    let found = scan rel es header_size 0 in
    let (i, q, fits) = scan-Fits rel es 0 in
    let slot_offset : found.1 ≡ offset_of i = q ∙ ap offset_of (omega arith) in
    let e = seal_entry gcm pk rel key iv in
    let t : KeyDir = record s { rand = rand } in
    let rest : TdeMapEntry → Exec KeyDir Unit =
      λ entry. write_one_map_entry (keys rel.db_oid) entry found.1 >>= λ _. pure tt in
    let after =
      write_one_map_entry_lem t rel.db_oid h es i e
        (record { stored = w.stored; version = w.version }) in
    rw writes (
      rw
        (bind_eq (with_random (initialize_map_entry gcm pk rel key)) rest s t e
          (seal_step gcm pk rel key s iv rand p))
        (rw slot_offset (refl, i, fits, after.1)))

-- A key is written where it replaces another one, or where no entry has the relation's numbers.
pub writes_when :
    (rel : RelFileLocator) (es : List TdeMapEntry) (replace : Bool)
    → (replace ≡ true) ⊎ (listed rel es ≡ 0)
    → (not (scan rel es header_size 0).0 || replace) ≡ true
writes_when rel es replace (inl p) =
    ap (λ b. not (scan rel es header_size 0).0 || b) p ∙ or_true (not (scan rel es header_size 0).0)
writes_when rel es replace (inr p) =
    ap (λ b. not b || replace) (scan-unlisted rel es header_size 0 p)

-- A key that is not written leaves the state as it is.
pub store_key_kept :
    (gcm : Gcms) (pk : PrincipalKey) (rel : RelFileLocator) (key : InternalKey) (replace : Bool)
    (es : List TdeMapEntry) (s : KeyDir)
    → (not (scan rel es header_size 0).0 || replace) ≡ false
    → store_key gcm pk rel key replace (record { entries = es; curr_pos = header_size }) s
      ≡ (ok tt, s)
unfolding store_key
store_key_kept gcm pk rel key replace es s keeps = rw keeps refl

-- Saving, up to the opened file.
pub save_opened :
    (gcm : Gcms) (pk : PrincipalKey) (rel : RelFileLocator) (key : InternalKey) (replace : Bool)
    (s : KeyDir) (h : TdeFileHeader) (es : List TdeMapEntry) (iv : Bytes) (rand : Random)
    → Holds s rel.db_oid h es
    → s.rand ≡ iv ∷ rand
    → (u : KeyDir) × (save_smgr_key gcm (some pk) rel key replace s
        ≡ store_key gcm pk rel key replace (record { entries = es; curr_pos = header_size }) u)
      × Holds u rel.db_oid h es
      × (u.rand ≡ rand)
unfolding save_smgr_key
save_opened gcm pk rel key replace s h es iv rand w p =
    let signed = signed_with gcm pk iv in
    let t : KeyDir = record s { rand = rand } in
    let f : OpenFile = record { entries = es; curr_pos = header_size } in
    let open_file = open_file_write (keys rel.db_oid) (some signed) false in
    let (opens, holds, same_rand) =
      open_file_write_lem t rel.db_oid h es (some signed)
        (record { stored = w.stored; version = w.version }) in
    let store = store_key gcm pk rel key replace in
    (
      (open_file t).1,
      bind_eq (with_random (sign_principal_key_info gcm pk))
            (λ signed. open_file_write (keys rel.db_oid) (some signed) false >>= store) s t signed
            (sign_step gcm pk s iv rand p)
          ∙ bind_ok open_file store t f opens,
      holds,
      same_rand,
    )

-- The key file after a relation's key was saved: one slot that fits was written with the key, sealed
-- under the principal key.
pub save_smgr_key_lem :
    (gcm : Gcms) (pk : PrincipalKey) (rel : RelFileLocator) (key : InternalKey) (replace : Bool)
    (s : KeyDir) (h : TdeFileHeader) (es : List TdeMapEntry) (iv1 iv2 : Bytes) (rand : Random)
    → Holds s rel.db_oid h es
    → s.rand ≡ iv1 ∷ iv2 ∷ rand
    → (not (scan rel es header_size 0).0 || replace) ≡ true
    → let r = save_smgr_key gcm (some pk) rel key replace s in
      (r.0 ≡ ok tt)
      × (i : ℕ) × Fits rel es i
      × Holds r.1 rel.db_oid h (write_at i (seal_entry gcm pk rel key iv2) es)
save_smgr_key_lem gcm pk rel key replace s h es iv1 iv2 rand w p writes =
    let (u, whole, holds, same_rand) =
      save_opened gcm pk rel key replace s h es iv1 (iv2 ∷ rand) w p in
    rw whole (store_key_lem gcm pk rel key replace u h es iv2 rand holds same_rand writes)
