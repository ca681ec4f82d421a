-- ===== src/Wal/Segments/Ensure.antt =====
-- The start of the current range: set once, by the first write that may set it, in the process, in
-- the shared location and in the file.
use open_pg_tde.Base.{
  ◌≡◌, refl, sym, ap, ◌∙◌, inl, inr, Bool, true, false, ◌&&◌, not, arith, ◌==◌, Bytes, Bool-cases,
  Option, none, some, List, [], ◌∷◌, Result, ok, err, Result-cases, Exec, resume, ◌>>=◌,
}
use open_pg_tde.Keys.{Gcms, PrincipalKey}
use open_pg_tde.Wal.Range.{
  WalLocation, wal_location_cmp, wal_location_valid, is_invalid, WalKeyFileEntry,
  wal_range_from_entry, no_location,
}
use open_pg_tde.Wal.Ranges.{
  WalKeys, is_wanted, fetch_entries, fetch_found, fetch_wal_keys, last_range_set_location,
  add_wal_range_to_cache,
}
use open_pg_tde.Wal.Crypt.{SegmentPart, is_after, is_encrypted, data_start}
use open_pg_tde.Wal.Segments.{
  WalEnv, XlogSmgr, get_last_wal_key, none_or_before, no_keys, first_location, with_keys, prefetch,
  fetch_written, crypt_buffer, is_first_write, set_location, ensure_xlog_key_location, write_pages,
  write_encrypted_pages, write_encrypted_pages_old_keys, xlog_seg_write, starts_before,
}
use open_pg_tde.Wal.Segments.Init.{last_entry}
use open_pg_tde.Wal.Segments.Current.{reached}

-- The shared location is still unset, or it is the start of the current range and of the last entry of
-- the file.
pub data IsSettled (s : XlogSmgr) : Type 0 where
  unset :
      (e : WalKeyFileEntry) → last_entry s.keys.entries ≡ some e → s.enc_key.lsn ≡ 0 → IsSettled s
  settled :
      (e : WalKeyFileEntry)
      → last_entry s.keys.entries ≡ some e
      → e.range_start ≡ s.enc_key
      → s.current.start ≡ s.enc_key
      → IsSettled s

pub last_entry-set_location :
    (loc : WalLocation) (es : List WalKeyFileEntry) (e : WalKeyFileEntry)
    → last_entry es ≡ some e
    → (e' : WalKeyFileEntry) × (last_entry (last_range_set_location loc es) ≡ some e')
      × (e'.range_start ≡ loc)
unfolding last_range_set_location
last_entry-set_location loc [] e h = cc h
last_entry-set_location loc (d ∷ []) e h = (record d { range_start = loc }, refl, refl)
last_entry-set_location loc (d ∷ x ∷ []) e h = (record x { range_start = loc }, refl, refl)
last_entry-set_location loc (d ∷ x ∷ y ∷ []) e h = (record y { range_start = loc }, refl, refl)
last_entry-set_location loc (d ∷ x ∷ y ∷ z ∷ es) e h =
    last_entry-set_location loc (x ∷ y ∷ z ∷ es) e h

fetch_entries-entries :
    (gcm : Gcms) (pk : PrincipalKey) (start : WalLocation) (es : List WalKeyFileEntry) (s : WalKeys)
    → (fetch_entries gcm pk start es s).1.entries ≡ s.entries
unfolding fetch_entries
fetch_entries-entries gcm pk start [] s = refl
fetch_entries-entries gcm pk start (e ∷ es) s = elim (Bool-cases (is_wanted start e)) [
  | inr p ↦ rw (p, fetch_entries) (fetch_entries-entries gcm pk start es s)
  | inl p ↦ elim (Result-cases (wal_range_from_entry gcm pk e)) [
    | inl (r, q) ↦
        let t : WalKeys = record s { cache = add_wal_range_to_cache r s.cache } in
        rw (p, fetch_entries) (rw q (fetch_entries-entries gcm pk start es t))
    | inr (x, q) ↦ rw (p, fetch_entries) (rw q refl)
  ]
]

found-entries :
    (gcm : Gcms) (pk : PrincipalKey) (start : WalLocation) (es : List WalKeyFileEntry) (s : WalKeys)
    → (fetch_found gcm pk start es s).1.entries ≡ s.entries
unfolding fetch_found
found-entries gcm pk start [] s = refl
found-entries gcm pk start (e ∷ es) s = fetch_entries-entries gcm pk start (e ∷ es) s

fetch_wal_keys-entries :
    (gcm : Gcms) (pk : Option PrincipalKey) (start : WalLocation) (s : WalKeys)
    → (fetch_wal_keys gcm pk start s).1.entries ≡ s.entries
unfolding fetch_wal_keys
fetch_wal_keys-entries gcm none start s = refl
fetch_wal_keys-entries gcm (some pk) start s = found-entries gcm pk start s.entries s

-- A step that changes the cache at most keeps what is settled.
abbrev pub Caches : {A : Type 0} → Exec XlogSmgr A → Type 0
Caches m =
    (s : XlogSmgr)
    → ((m s).1.keys.entries ≡ s.keys.entries)
      × ((m s).1.enc_key ≡ s.enc_key)
      × ((m s).1.current ≡ s.current)

pub started : (loc : WalLocation) → wal_location_valid loc ≡ true → (loc.lsn == 0) ≡ false
unfolding wal_location_valid
started loc h = ground arith

pub not_after :
    (start loc : WalLocation)
    → reached start loc ≡ true
    → is_after (wal_location_cmp start loc) ≡ false
unfolding wal_location_cmp
not_after start loc h = ground arith

origin_first : (loc : WalLocation) → is_after (wal_location_cmp no_location loc) ≡ false
unfolding wal_location_cmp
origin_first loc = ground arith

keeps_resumed :
    {A B : Type 0} (r : Result A) (f : A → Exec XlogSmgr B)
    → ((a : A) → Caches (f a))
    → Caches (resume r f)
keeps_resumed (ok a) f h s = h a s
keeps_resumed (err e) f h s = (refl, refl, refl)

bind-Caches :
    {A B : Type 0} (m : Exec XlogSmgr A) (f : A → Exec XlogSmgr B)
    → Caches m
    → ((a : A) → Caches (f a))
    → Caches (m >>= f)
bind-Caches m f h k s =
    let (a, b, c) = h s in
    let (x, y, z) = keeps_resumed (m s).0 f k (m s).1 in (x ∙ a, y ∙ b, z ∙ c)

module _ (env : WalEnv) where
  fetch-Caches :
      (start : WalLocation) → Caches (with_keys (fetch_wal_keys env.gcm env.principal_key start))
  fetch-Caches start s = (fetch_wal_keys-entries env.gcm env.principal_key start s.keys, refl, refl)

  pub prefetch-Caches : Caches (prefetch env)
  unfolding prefetch
  prefetch-Caches s = elim (Bool-cases (no_keys s.keys.cache)) [
    | inl h ↦ rw h (fetch-Caches first_location s)
    | inr h ↦ rw h (refl, refl, refl)
  ]

  fetch_written-Caches : Caches (fetch_written env)
  unfolding fetch_written
  fetch_written-Caches s =
      elim (Bool-cases
        (not (s.enc_key.lsn == 0) && starts_before (get_last_wal_key s.keys.cache) s.enc_key)) [
          | inl h ↦ rw h (fetch-Caches s.enc_key s)
          | inr h ↦ rw h (refl, refl, refl)
        ]

  Caches-IsSettled :
      (s t : XlogSmgr)
      → (t.keys.entries ≡ s.keys.entries) × (t.enc_key ≡ s.enc_key) × (t.current ≡ s.current)
      → IsSettled s
      → IsSettled t
  Caches-IsSettled s t (a, b, c) (unset e h z) =
      unset e (ap last_entry a ∙ h) (ap (λ l. l.lsn) b ∙ z)
  Caches-IsSettled s t (a, b, c) (settled e h x y) =
      settled e (ap last_entry a ∙ h) (x ∙ sym b) (ap (λ r. r.start) c ∙ y ∙ sym b)

  crypt_buffer-Caches :
      (in_place : Bool) (part : SegmentPart) (buf out : Bytes)
      → Caches (crypt_buffer env in_place part buf out)
  unfolding crypt_buffer
  crypt_buffer-Caches in_place part buf out =
      bind-Caches (prefetch env) _ prefetch-Caches
        λ a. bind-Caches (fetch_written env) _ fetch_written-Caches λ b s. (refl, refl, refl)

  write_pages-Caches :
      (usable : Bool) (part : SegmentPart) (buf : Bytes) → Caches (write_pages env usable part buf)
  unfolding write_pages write_encrypted_pages_old_keys write_encrypted_pages
  write_pages-Caches usable part buf s =
      elim (Bool-cases (not usable && not (is_invalid s.current.type))) [
        | inl h ↦ rw h (crypt_buffer-Caches false part buf buf s)
        | inr h ↦ elim (Bool-cases (is_encrypted s.current.type)) [
          | inl k ↦ rw (h, k) (refl, refl, refl)
          | inr k ↦ rw (h, k) (refl, refl, refl)
        ]
      ]

  set_location-IsSettled :
      (loc : WalLocation) (s : XlogSmgr) → IsSettled s → IsSettled (set_location loc s)
  unfolding set_location
  set_location-IsSettled loc s (unset e h z) =
      let (e', a, b) = last_entry-set_location loc s.keys.entries e h in settled e' a b refl
  set_location-IsSettled loc s (settled e h x y) =
      let (e', a, b) = last_entry-set_location loc s.keys.entries e h in settled e' a b refl

  ensure-IsSettled :
      (loc : WalLocation) (s : XlogSmgr)
      → IsSettled s
      → IsSettled (ensure_xlog_key_location env loc s).1
  unfolding ensure_xlog_key_location
  ensure-IsSettled loc s h = elim (Bool-cases (is_first_write env loc s)) [
    | inl k ↦ rw k (set_location-IsSettled loc s h)
    | inr k ↦ rw k h
  ]

  -- A write of a segment part, with whatever outcome, keeps the three places of the start in step: the
  -- shared location is still unset, or the current range and the last entry of the key file have it as
  -- their start.
  pub xlog_seg_write-IsSettled :
      (part : SegmentPart) (buf : Bytes) (s : XlogSmgr)
      → IsSettled s
      → IsSettled (xlog_seg_write env part buf s).1
  unfolding xlog_seg_write
  xlog_seg_write-IsSettled part buf s h =
      let r : Bool × XlogSmgr = ensure_xlog_key_location env (data_start env.macros part) s in
      Caches-IsSettled r.1 (write_pages env r.0 part buf r.1).1
        (write_pages-Caches r.0 part buf r.1) (ensure-IsSettled (data_start env.macros part) s h)

  -- A location that the writer has already passed leaves the state as it is.
  pub ensure_passed :
      (loc : WalLocation) (s : XlogSmgr)
      → (s.enc_key.lsn == 0) ≡ false
      → is_after (wal_location_cmp s.enc_key loc) ≡ false
      → ensure_xlog_key_location env loc s ≡ (true, s)
  unfolding ensure_xlog_key_location
  ensure_passed loc s h k = rw (h, k) (ground arith)

  first_write :
      (loc : WalLocation) (s : XlogSmgr)
      → env.crash_recovery ≡ false
      → is_invalid s.current.type ≡ false
      → s.enc_key ≡ no_location
      → none_or_before (get_last_wal_key s.keys.cache) loc ≡ true
      → ensure_xlog_key_location env loc s ≡ (true, set_location loc s)
  unfolding ensure_xlog_key_location
  first_write loc s c i z n =
      let unset : (s.enc_key.lsn == 0) ≡ true = rw z refl in
      let behind : is_after (wal_location_cmp s.enc_key loc) ≡ false = rw z (origin_first loc) in
      rw (i, unset) (rw (behind, c) (rw n refl))

  -- Outside crash recovery, with a current range whose start is not set yet and no cached key from the
  -- location on: the first write at a valid location may use the current key, the range starts there
  -- from then on, and every later call for this location or one behind it gives the same answer and
  -- changes nothing.
  pub ensure_xlog_key_location_lem :
      (loc later : WalLocation) (s : XlogSmgr)
      → env.crash_recovery ≡ false
      → is_invalid s.current.type ≡ false
      → s.enc_key ≡ no_location
      → none_or_before (get_last_wal_key s.keys.cache) loc ≡ true
      → wal_location_valid loc ≡ true
      → reached loc later ≡ true
      → (t : XlogSmgr) × (ensure_xlog_key_location env loc s ≡ (true, t))
        × (t.current ≡ record s.current { start = loc })
        × (t.enc_key ≡ loc)
        × (ensure_xlog_key_location env later t ≡ (true, t))
  unfolding set_location
  ensure_xlog_key_location_lem loc later s c i z n v h =
      let t : XlogSmgr = set_location loc s in
      (
        t,
        first_write loc s c i z n,
        refl,
        refl,
        ensure_passed later t (started loc v) (not_after loc later h),
      )
