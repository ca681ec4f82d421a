-- ===== src/KeyMap/RotateLoop.antt =====
-- The loop of open_pg_tde_perform_rotate_key.
use open_pg_tde.Base.{
  ℕ, suc, ◌≤◌, ◌≡◌, refl, sym, ap, ◌∙◌, true, false, some, List, [], ◌∷◌, ◌++◌, ◌==◌, arith, Bytes,
  ok, length, Exec, lift, bind_eq, ◌>>=◌,
}
use open_pg_tde.Block.{InternalKey}
use open_pg_tde.Keys.{Gcms, PrincipalKey}
use open_pg_tde.KeyMap.Layout.{
  TdeFileHeader, TdeMapEntry, map_entry_type_empty, map_entry_type_key, current, keyed, KeyDir,
  FilePath,
}
use open_pg_tde.KeyMap.Entry.{seal_entry, initialize_map_entry, decrypt_rel_key}
use open_pg_tde.KeyMap.File.{with_random, slot, write_at, write_one_map_entry, update_entries}
use open_pg_tde.KeyMap.Lookup.{count_keys}
use open_pg_tde.KeyMap.Rotate.{rotate_entries, locator}
use open_pg_tde.KeyMap.Slots.{offset_of, slot-offset_of, next_offset}
use open_pg_tde.KeyMap.Stored.{path_eq_refl, seal_step}
use open_pg_tde.KeyMap.Resealed.{
  Ready, no_entries, unused, opens, Resealed, finished, skipped, sealed,
}

pub write_at_end :
    (es : List TdeMapEntry) (e : TdeMapEntry) → write_at (length es) e es ≡ es ++ e ∷ []
unfolding write_at
write_at_end [] e = refl
write_at_end (x ∷ es) e = ap (◌∷◌ x) (write_at_end es e)

pub append_nil : (es : List TdeMapEntry) → es ++ [] ≡ es
append_nil [] = refl
append_nil (x ∷ es) = ap (◌∷◌ x) (append_nil es)

pub append_one :
    (es : List TdeMapEntry) (e : TdeMapEntry) (fs : List TdeMapEntry)
    → (es ++ e ∷ []) ++ fs ≡ es ++ e ∷ fs
append_one [] e fs = refl
append_one (x ∷ es) e fs = ap (◌∷◌ x) (append_one es e fs)

pub length_append_one :
    (es : List TdeMapEntry) (e : TdeMapEntry) → length (es ++ e ∷ []) ≡ suc (length es)
length_append_one [] e = refl
length_append_one (x ∷ es) e = ap suc (length_append_one es e)

-- one round of the loop on a used entry
rotate_round :
    (gcm : Gcms) (pk new_pk : PrincipalKey) (path : FilePath) (e : TdeMapEntry)
    (es done : List TdeMapEntry) (h : TdeFileHeader) (s : KeyDir) (key : InternalKey) (iv : Bytes)
    (rand : List Bytes)
    → e.type ≡ map_entry_type_key
    → decrypt_rel_key gcm pk e ≡ ok key
    → s.file path ≡ some (keyed h (current done))
    → s.rand ≡ iv ∷ rand
    → (t : KeyDir) × (rotate_entries gcm pk new_pk path (e ∷ es) (offset_of (length done)) s
        ≡ rotate_entries gcm pk new_pk path es (offset_of (suc (length done))) t)
      × (t.file path
          ≡ some (keyed h (current (done ++ seal_entry gcm new_pk (locator pk e) key iv ∷ []))))
      × (t.rand ≡ rand)
unfolding rotate_entries write_one_map_entry
rotate_round gcm pk new_pk path e es done h s key iv rand used opened stored p =
    let rel = locator pk e in
    let x = seal_entry gcm new_pk rel key iv in
    let pos = offset_of (length done) in
    let s1 : KeyDir = record s { rand = rand } in
    let t = (write_one_map_entry path x pos s1).1 in
    let go_on : TdeMapEntry → Exec KeyDir Unit =
      λ y. write_one_map_entry path y pos >>= rotate_entries gcm pk new_pk path es in
    let in_use : (e.type == map_entry_type_empty) ≡ false = ground arith in
    let chain : (lift (decrypt_rel_key gcm pk e) >>= λ k.
    with_random (initialize_map_entry gcm new_pk rel k) >>= go_on)
          s
        ≡ rotate_entries gcm pk new_pk path es (offset_of (suc (length done))) t =
      bind_eq (lift (decrypt_rel_key gcm pk e))
        (λ k. with_random (initialize_map_entry gcm new_pk rel k) >>= go_on) s s key
        (ap (λ r. (r, s)) opened)
      ∙ bind_eq (with_random (initialize_map_entry gcm new_pk rel key)) go_on s s1 x
          (seal_step gcm new_pk rel key s iv rand p)
      ∙ ap (λ o. rotate_entries gcm pk new_pk path es o t) (next_offset (length done)) in
    (
      t,
      rw (in_use, rotate_entries) chain,
      rw (path_eq_refl path) (
          ap (update_entries (write_at (slot pos) x)) stored
          ∙ ap (λ j. some (keyed h (current (write_at j x done)))) (slot-offset_of (length done))
          ∙ ap (λ es. some (keyed h (current es))) (write_at_end done x)),
      refl,
    )

rotate_skip :
    (gcm : Gcms) (pk new_pk : PrincipalKey) (path : FilePath) (e : TdeMapEntry)
    (es : List TdeMapEntry) (pos : ℕ) (s : KeyDir)
    → e.type ≡ map_entry_type_empty
    → rotate_entries gcm pk new_pk path (e ∷ es) pos s ≡ rotate_entries gcm pk new_pk path es pos s
unfolding rotate_entries
rotate_skip gcm pk new_pk path e es pos s free =
    let unused_entry : (e.type == map_entry_type_empty) ≡ true = ground arith in
    rw (unused_entry, rotate_entries) refl

count_used :
    (e : TdeMapEntry) (es : List TdeMapEntry)
    → e.type ≡ map_entry_type_key
    → count_keys 0 (e ∷ es) ≡ suc (count_keys 0 es)
unfolding count_keys
count_used e es used = ground arith

count_unused :
    (e : TdeMapEntry) (es : List TdeMapEntry)
    → e.type ≡ map_entry_type_empty
    → count_keys 0 (e ∷ es) ≡ count_keys 0 es
unfolding count_keys
count_unused e es free = ground arith

pub another_buffer :
    (rs : List Bytes) (n : ℕ)
    → suc n ≤ length rs
    → (iv : Bytes) × (rest : List Bytes) × (rs ≡ iv ∷ rest) × (n ≤ length rest)
another_buffer [] n h = absurd (omega arith)
another_buffer (iv ∷ rest) n h = (iv, rest, refl, omega arith)

-- The loop on a whole file, with random bytes for each key: the entries written are the used ones,
-- resealed.
pub rotate_entries-Resealed :
    (gcm : Gcms) (pk new_pk : PrincipalKey) (path : FilePath) (es done : List TdeMapEntry)
    (h : TdeFileHeader) (s : KeyDir)
    → Ready gcm pk es
    → s.file path ≡ some (keyed h (current done))
    → count_keys 0 es ≤ length s.rand
    → let r = rotate_entries gcm pk new_pk path es (offset_of (length done)) s in
      (r.0 ≡ ok tt)
      × (out : List TdeMapEntry) × Resealed gcm pk new_pk es out
      × (r.1.file path ≡ some (keyed h (current (done ++ out))))
rotate_entries-Resealed gcm pk new_pk path _ done h s no_entries stored n =
    unfold rotate_entries in
    (refl, [], finished, stored ∙ ap (λ es. some (keyed h (current es))) (sym (append_nil done)))
rotate_entries-Resealed gcm pk new_pk path _ done h s (unused {e = e} {es = es} free r) stored n =
    let fewer : count_keys 0 es ≤ length s.rand = omega (arith, count_unused e es free, n) in
    let (ended, out, resealed, file) =
      rotate_entries-Resealed gcm pk new_pk path es done h s r stored fewer in
    rw (rotate_skip gcm pk new_pk path e es (offset_of (length done)) s free)
      (ended, out, skipped free resealed, file)
rotate_entries-Resealed gcm pk new_pk path _ done h s (opens {e = e} {es = es} key used opened k r)
      stored n =
    let some_left : suc (count_keys 0 es) ≤ length s.rand =
      omega (arith, count_used e es used, n) in
    let (iv, rand, p, left) = another_buffer s.rand (count_keys 0 es) some_left in
    let x = seal_entry gcm new_pk (locator pk e) key iv in
    let (t, round, file, q) =
      rotate_round gcm pk new_pk path e es done h s key iv rand used opened stored p in
    let left' : count_keys 0 es ≤ length t.rand = omega (arith, ap length q, left) in
    let (ended, out, resealed, last) =
      rotate_entries-Resealed gcm pk new_pk path es (done ++ x ∷ []) h t r file left' in
    let whole : rotate_entries gcm pk new_pk path (e ∷ es) (offset_of (length done)) s
        ≡ rotate_entries gcm pk new_pk path es (offset_of (length (done ++ x ∷ []))) t =
      round
      ∙ ap (λ j. rotate_entries gcm pk new_pk path es (offset_of j) t)
          (sym (length_append_one done x)) in
    rw whole (
      ended,
      x ∷ out,
      sealed key iv used opened k resealed,
      last ∙ ap (λ es. some (keyed h (current es))) (append_one done x out),
    )
