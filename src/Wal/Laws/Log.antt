-- ===== src/Wal/Laws/Log.antt =====
-- The log that writer and store hold together: which entries are numbered, and which are written.
use astra_sync.Prelude.{
  ℕ, suc, pos, ◌+◌, ◌≤◌, ◌≡◌, ◌≢◌, refl, sym, ap, ◌∙◌, subst, List, [], ◌∷◌, ◌++◌, length, All,
  Text, text_eq_iff, text_eq_refl, some, max_int64, ok, err, Result-cases, inl, inr, ◌⊎◌, arith,
}
use astra_sync.Wal.Entry.{Entry, WalError, marshal}
use astra_sync.Wal.Keys.{entry_key}
use astra_sync.Wal.Storage.{Store, find_object, put_object}
use astra_sync.Wal.Writer.{flush_entry, flush_entries, Outcome}
use astra_sync.Wal.Laws.Names.{entry_key-injective}

-- Consecutive sequence numbers, from the one after `n` on.
abbrev pub Numbered : ℕ → List Entry → Type 0
Numbered n [] = Unit {0}
Numbered n (e ∷ es) = (e.sequence ≡ pos (suc n)) × Numbered (suc n) es

pub Numbered-append :
    (n : ℕ) (es fs : List Entry)
    → Numbered n es
    → Numbered (n + length es) fs
    → Numbered n (es ++ fs)
Numbered-append n [] fs h k = subst (λ m. Numbered m fs) (omega arith) k
Numbered-append n (e ∷ es) fs h k =
    (h.0, Numbered-append (suc n) es fs h.1 (subst (λ m. Numbered m fs) (omega arith) k))

pub Numbered-split :
    (n : ℕ) (es fs : List Entry)
    → Numbered n (es ++ fs)
    → Numbered n es × Numbered (n + length es) fs
Numbered-split n [] fs h = (tt, subst (λ m. Numbered m fs) (omega arith) h)
Numbered-split n (e ∷ es) fs h =
    let (p, q) = Numbered-split (suc n) es fs h.1 in
    ((h.0, p), subst (λ m. Numbered m fs) (omega arith) q)

pub err≢ok : (e : WalError) → ◌≡◌ {A = Outcome} (err e) (ok tt) → ⊥
err≢ok e h = cc

pub Outcome-cases :
    (o : Outcome × Store)
    → ((s : Store) × (o ≡ (ok tt, s))) ⊎ ((e : WalError) × (s : Store) × (o ≡ (err e, s)))
Outcome-cases (ok tt, s) = inl (s, refl)
Outcome-cases (err e, s) = inr (e, s, refl)

module _ (prefix region : Text) where
  -- The encoding of an entry stands under its key.
  abbrev pub Written : Store → Entry → Type 0
  Written s e =
      (bytes : List ℕ) × (full : Entry) × (marshal e ≡ ok (bytes, full))
      × (find_object (entry_key prefix region e.sequence) s.objects ≡ some bytes)

  abbrev pub AllWritten : Store → List Entry → Type 0
  AllWritten s = All (Written s)

  find_object-put_object_ne :
      (k i : Text) (d : List ℕ) (s : Store)
      → k ≢ i
      → find_object i (put_object k d s).1.objects ≡ find_object i s.objects
  unfolding put_object find_object
  find_object-put_object_ne k i d s ne = ground (arith, text_eq_iff k i)

  find_object-put_object :
      (k : Text) (d : List ℕ) (s : Store)
      → (put_object k d s).0 ≡ ok tt
      → find_object k (put_object k d s).1.objects ≡ some d
  unfolding put_object find_object
  find_object-put_object k d s h = ground (arith, text_eq_refl k)

  keys_ne :
      (i j : ℕ)
      → i ≤ max_int64
      → j ≤ max_int64
      → i ≢ j
      → entry_key prefix region (pos i) ≢ entry_key prefix region (pos j)
  keys_ne i j hi hj ne e = ne (entry_key-injective prefix region i j hi hj e)

  -- Flushing one entry leaves what stands under other numbers, and writes the entry if it succeeds.
  flush_entry-keeps :
      (e : Entry) (s : Store) (x : Entry) (i j : ℕ)
      → e.sequence ≡ pos i
      → x.sequence ≡ pos j
      → i ≤ max_int64
      → j ≤ max_int64
      → i ≢ j
      → Written s x
      → Written (flush_entry prefix region e s).1 x
  unfolding flush_entry
  flush_entry-keeps e s x i j ei xj hi hj ne w =
      let distinct : entry_key prefix region e.sequence ≢ entry_key prefix region x.sequence =
        rw (ei, xj) (keys_ne i j hi hj ne) in
      elim (Result-cases (marshal e)) [
        | inl ((bytes, full), m) ↦ (
          w.0,
          w.1,
          w.2,
          rw m (
              find_object-put_object_ne (entry_key prefix region e.sequence)
                (entry_key prefix region x.sequence) bytes s distinct
              ∙ w.3),
        )
        | inr (bad, m) ↦ (w.0, w.1, w.2, rw m w.3)
      ]

  flush_entry-writes :
      (e : Entry) (s : Store)
      → (flush_entry prefix region e s).0 ≡ ok tt
      → Written (flush_entry prefix region e s).1 e
  unfolding flush_entry
  flush_entry-writes e s h = elim (Result-cases (marshal e)) [
    | inl ((bytes, full), m) ↦ (
      bytes,
      full,
      m,
      rw m (find_object-put_object (entry_key prefix region e.sequence) bytes s (rw m at h)),
    )
    | inr (bad, m) ↦ absurd (err≢ok bad (rw m at h))
  ]

  -- `x` has a number before those of `es`.
  flush_entries-keeps :
      (n : ℕ) (es : List Entry) (s : Store) (x : Entry) (j : ℕ)
      → Numbered n es
      → n + length es ≤ max_int64
      → x.sequence ≡ pos j
      → j ≤ n
      → Written s x
      → Written (flush_entries prefix region es s).1 x
  unfolding flush_entries
  flush_entries-keeps n [] s x j num room xj le w = w
  flush_entries-keeps n (e ∷ es) s x j num room xj le w =
      let kept =
        flush_entry-keeps e s x (suc n) j num.0 xj (omega arith) (omega arith) (omega arith) w in
      elim (Outcome-cases (flush_entry prefix region e s)) [
        | inl (s', done) ↦ rw done (
            flush_entries-keeps (suc n) es s' x j num.1 (omega arith) xj (omega arith)
              (rw done at kept))
        | inr (bad, s', stop) ↦ rw stop (rw stop at kept)
      ]

  flush_entries-cons :
      (e : Entry) (es : List Entry) (s s' : Store)
      → flush_entry prefix region e s ≡ (ok tt, s')
      → flush_entries prefix region (e ∷ es) s ≡ flush_entries prefix region es s'
  unfolding flush_entries
  flush_entries-cons e es s s' done = rw done

  pub flush_entries-writes :
      (n : ℕ) (es : List Entry) (s : Store)
      → Numbered n es
      → n + length es ≤ max_int64
      → (flush_entries prefix region es s).0 ≡ ok tt
      → AllWritten (flush_entries prefix region es s).1 es
  unfolding flush_entries
  flush_entries-writes n [] s num room h = tt
  flush_entries-writes n (e ∷ es) s num room h =
      elim (Outcome-cases (flush_entry prefix region e s)) [
        | inl (s', done) ↦
            let wrote : Written s' e =
              rw done at (flush_entry-writes e s (ap (λ (o : Outcome × Store). o.0) done)) in
            subst (λ (o : Outcome × Store). AllWritten o.1 (e ∷ es))
              (sym (flush_entries-cons e es s s' done))
              (
                flush_entries-keeps (suc n) es s' e (suc n) num.1 (omega arith) num.0 (omega arith)
                    wrote,
                flush_entries-writes (suc n) es s' num.1 (omega arith) (rw done at h),
              )
        | inr (bad, s', stop) ↦ absurd (err≢ok bad (rw stop at h))
      ]

  -- A flush, complete or not, leaves all that was written before in place.
  pub flush_entries-AllWritten :
      (m : ℕ) (xs : List Entry) (n : ℕ) (es : List Entry) (s : Store)
      → Numbered m xs
      → m + length xs ≤ n
      → Numbered n es
      → n + length es ≤ max_int64
      → AllWritten s xs
      → AllWritten (flush_entries prefix region es s).1 xs
  flush_entries-AllWritten m [] n es s before le num room w = tt
  flush_entries-AllWritten m (x ∷ xs) n es s before le num room w = (
    flush_entries-keeps n es s x (suc m) num room before.0 (omega arith) w.0,
    flush_entries-AllWritten (suc m) xs n es s before.1 (omega arith) num room w.1,
  )
