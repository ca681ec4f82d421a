-- ===== src/Wal/File/Rewritten.antt =====
-- The loop that rewrites the entries of a WAL key file under another principal key.
use open_pg_tde.Base.{
  ℕ, suc, ◌≤◌, ◌≡◌, refl, sym, ap, ◌∙◌, some, List, [], ◌∷◌, ◌++◌, arith, ltb, false, Bytes, length,
  Result, ok, Exec, lift, modify, bind_eq, ◌>>=◌, ◌>>◌,
}
use open_pg_tde.Keys.{
  Gcms, PrincipalKey, Random, rand_bytes, SignedPrincipalKeyInfo, signed_with,
  sign_principal_key_info,
}
use open_pg_tde.KeyMap.Entry.{IsKey}
use open_pg_tde.KeyMap.RotateLoop.{another_buffer}
use open_pg_tde.Wal.Range.{
  WalEncryptionRange, WalKeyFileEntry, max_location, seal_wal_entry, initialize_wal_key_file_entry,
  wal_range_from_entry,
}
use open_pg_tde.Wal.Entry.{wal_range_from_entry_lem}
use open_pg_tde.Wal.File.{
  WalKeyFileHeader, current, keyed, WalDir, wal_dir_random, write_entry_at, put_entry, header_only,
  open_wal_key_file_write, opened_for_write, wal_key_file_header_read,
}
use open_pg_tde.Wal.File.Rewrite.{rewrite_entries, open_temporary}

-- A range with a key as the code makes it, that fits an entry of the file, and no end.
pub record IsStored (r : WalEncryptionRange) : Type 0 where
  pub is_key : IsKey r.key
  pub fits : r.key.key_len ≤ 32
  pub open_end : r.end_loc ≡ max_location

-- The entries open to these ranges, one for one and in their order.
pub data Opens {E : Type 0} (open_entry : E → Result WalEncryptionRange)
    : List E → List WalEncryptionRange → Type 0 where
  no_entries : Opens open_entry [] []
  opens :
      {e : E} {es : List E} {r : WalEncryptionRange} {rs : List WalEncryptionRange}
      → open_entry e ≡ ok r
      → IsStored r
      → Opens open_entry es rs
      → Opens open_entry (e ∷ es) (r ∷ rs)

put_at_end :
    (es : List WalKeyFileEntry) (e : WalKeyFileEntry)
    → write_entry_at (length es) e es ≡ es ++ e ∷ []
unfolding write_entry_at
put_at_end [] e = refl
put_at_end (x ∷ es) e = ap (◌∷◌ x) (put_at_end es e)

append_nil : (es : List WalKeyFileEntry) → es ++ [] ≡ es
append_nil [] = refl
append_nil (x ∷ es) = ap (◌∷◌ x) (append_nil es)

append_one :
    (es : List WalKeyFileEntry) (e : WalKeyFileEntry) (fs : List WalKeyFileEntry)
    → (es ++ e ∷ []) ++ fs ≡ es ++ e ∷ fs
append_one [] e fs = refl
append_one (x ∷ es) e fs = ap (◌∷◌ x) (append_one es e fs)

length_append_one :
    (es : List WalKeyFileEntry) (e : WalKeyFileEntry) → length (es ++ e ∷ []) ≡ suc (length es)
length_append_one [] e = refl
length_append_one (x ∷ es) e = ap suc (length_append_one es e)

pub sealed_opens :
    (gcm : Gcms) (pk : PrincipalKey) (r : WalEncryptionRange) (iv : Bytes)
    → IsStored r
    → wal_range_from_entry gcm pk (seal_wal_entry gcm pk r iv) ≡ ok r
unfolding seal_wal_entry
sealed_opens gcm pk r iv k =
    wal_range_from_entry_lem gcm pk r iv r.start k.is_key
    ∙ ap (λ l. ok (record r { end_loc = l })) (sym k.open_end)

sealed_step :
    (gcm : Gcms) (pk : PrincipalKey) (r : WalEncryptionRange) (iv : Bytes) (rest : Random)
    (s : WalDir)
    → IsStored r
    → s.rand ≡ iv ∷ rest
    → wal_dir_random (initialize_wal_key_file_entry gcm pk r) s
      ≡ (ok (seal_wal_entry gcm pk r iv), record s { rand = rest })
unfolding initialize_wal_key_file_entry rand_bytes
sealed_step gcm pk r iv rest s k h =
    let fits : ltb 32 r.key.key_len ≡ false = ground (arith, k.fits) in
    rw (h, wal_dir_random) (rw (fits, initialize_wal_key_file_entry) refl)

module _ {E : Type 0} (gcm : Gcms) (pk : PrincipalKey)
    (open_entry : E → Result WalEncryptionRange) where
  -- the state after one round
  abbrev pub round : WalEncryptionRange → Bytes → Random → ℕ → WalDir → WalDir
  round r iv rest pos s = record s {
    rand = rest;
    temporary = put_entry pos (seal_wal_entry gcm pk r iv) s.temporary;
  }

  pub rewrite_round :
      (e : E) (es : List E) (r : WalEncryptionRange) (iv : Bytes) (rest : Random) (pos : ℕ)
      (s : WalDir)
      → open_entry e ≡ ok r
      → IsStored r
      → s.rand ≡ iv ∷ rest
      → rewrite_entries gcm pk open_entry (e ∷ es) pos s
        ≡ rewrite_entries gcm pk open_entry es (suc pos) (round r iv rest pos s)
  unfolding rewrite_entries
  rewrite_round e es r iv rest pos s o k h =
      let write : WalKeyFileEntry → Exec WalDir Unit = λ w.
        modify (λ t. record t { temporary = put_entry pos w t.temporary })
        >> rewrite_entries gcm pk open_entry es (suc pos) in
      bind_eq (lift (open_entry e))
        (λ x. wal_dir_random (initialize_wal_key_file_entry gcm pk x) >>= write) s s r
        (ap (λ x. (x, s)) o)
      ∙ bind_eq (wal_dir_random (initialize_wal_key_file_entry gcm pk r)) write s
          (record s { rand = rest }) (seal_wal_entry gcm pk r iv)
          (sealed_step gcm pk r iv rest s k h)

  -- With random bytes for each entry the loop succeeds; it adds entries that open, under the new key, to
  -- the ranges that the old ones held.
  pub rewrite_entries-Opens :
      (es : List E) (rs : List WalEncryptionRange) (h : WalKeyFileHeader)
      (done : List WalKeyFileEntry) (s : WalDir)
      → Opens open_entry es rs
      → s.temporary ≡ some (keyed h (current done))
      → length es ≤ length s.rand
      → let r = rewrite_entries gcm pk open_entry es (length done) s in
        (r.0 ≡ ok tt)
        × (out : List WalKeyFileEntry) × Opens (wal_range_from_entry gcm pk) out rs
        × (r.1.temporary ≡ some (keyed h (current (done ++ out))))
  rewrite_entries-Opens _ _ h done s no_entries stored n =
      unfold rewrite_entries in
      (
        refl,
        [],
        no_entries,
        stored ∙ ap (λ es. some (keyed h (current es))) (sym (append_nil done)),
      )
  rewrite_entries-Opens _ _ h done s (opens {e = e} {es = es} {r = r} {rs = rs} o k rest) stored n =
      let (iv, rand, p, left) = another_buffer s.rand (length es) n in
      let x = seal_wal_entry gcm pk r iv in
      let t = round r iv rand (length done) s in
      let file : t.temporary ≡ some (keyed h (current (done ++ x ∷ []))) =
        ap (put_entry (length done) x) stored
        ∙ ap (λ es. some (keyed h (current es))) (put_at_end done x) in
      let (ended, out, reopened, last) =
        rewrite_entries-Opens es rs h (done ++ x ∷ []) t rest file left in
      let whole : rewrite_entries gcm pk open_entry (e ∷ es) (length done) s
          ≡ rewrite_entries gcm pk open_entry es (length (done ++ x ∷ [])) t =
        rewrite_round e es r iv rand (length done) s o k p
        ∙ ap (λ j. rewrite_entries gcm pk open_entry es j t) (sym (length_append_one done x)) in
      rw whole (
        ended,
        x ∷ out,
        opens (sealed_opens gcm pk r iv k) k reopened,
        last ∙ ap (λ es. some (keyed h (current es))) (append_one done x out),
      )

-- the temporary file as it is opened
pub open_temporary_lem :
    (signed : SignedPrincipalKeyInfo) (s : WalDir)
    → open_temporary signed s ≡ (ok tt, record s { temporary = some (header_only signed) })
unfolding open_temporary open_wal_key_file_write opened_for_write wal_key_file_header_read
open_temporary_lem signed s = refl

pub sign_step :
    (gcm : Gcms) (pk : PrincipalKey) (s : WalDir) (iv : Bytes) (rest : Random)
    → s.rand ≡ iv ∷ rest
    → wal_dir_random (sign_principal_key_info gcm pk) s
      ≡ (ok (signed_with gcm pk iv), record s { rand = rest })
unfolding sign_principal_key_info rand_bytes
sign_step gcm pk s iv rest h = rw (h, wal_dir_random) refl
