-- ===== src/Replicator/Laws/Progress.antt =====
-- What is sent and acknowledged, in which order, and what counts as done.
use astra_sync.Prelude.{
  ℕ, ℤ, ◌≡◌, inl, inr, refl, sym, ap, ◌∙◌, subst, List, [], ◌∷◌, ◌++◌, take, Text, Bool, true,
  false, Option, none, some, is_set, is_neg, int_lt, Result, ok, err, Result-cases, Bool-cases,
  Option-cases, arith,
}
use astra_sync.Prelude.Exec.{◌>>◌, after_calls}
use astra_sync.Replicator.Send.{
  LogEntry, World, Sent, sent, acknowledged, ReplicatorError, Replicate, send_loop, send_with_retry,
}
use astra_sync.Replicator.Loop.{
  acknowledge, advance_since, sort_entries, has_gap, send_entry, send_entries, replicate_batch,
  on_read, present, run_loop, run,
}

-- From a number that is done to another, with what is listed in between: each entry that is sent has a
-- larger number than the one that is done, an acknowledgement follows at once, where there is a
-- callback (`calls`), and only then the entry is done. The last Boolean is false if the last entry was
-- sent and not acknowledged.
pub data Progress (calls : Bool) : ℤ → List Sent → ℤ → Bool → Type 0 where
  idle : {n : ℤ} → Progress calls n [] n true
  confirmed :
      {n k : ℤ} {t : List Sent} {c : Bool} (e : ℤ)
      → calls ≡ true
      → int_lt n e ≡ true
      → Progress calls e t k c
      → Progress calls n (sent e ∷ acknowledged e ∷ t) k c
  unasked :
      {n k : ℤ} {t : List Sent} {c : Bool} (e : ℤ)
      → calls ≡ false
      → int_lt n e ≡ true
      → Progress calls e t k c
      → Progress calls n (sent e ∷ t) k c
  unconfirmed :
      {n : ℤ} (e : ℤ) → calls ≡ true → int_lt n e ≡ true → Progress calls n (sent e ∷ []) n false

Progress-append :
    (calls : Bool) {n k m : ℤ} {t u : List Sent} {c : Bool}
    → Progress calls n t k true
    → Progress calls k u m c
    → Progress calls n (t ++ u) m c
Progress-append calls idle q = q
Progress-append calls (confirmed e asks more p) q =
    confirmed e asks more (Progress-append calls p q)
Progress-append calls (unasked e asks more p) q = unasked e asks more (Progress-append calls p q)

-- A run from `w` has made progress, and all of it is confirmed if it returns without an error.
abbrev pub Advances : Bool → World → Result ReplicatorError (Unit {0}) × World × List Sent → Type 0
Advances calls w out =
    (c : Bool) × Progress calls w.since out.2 out.1.since c
    × (is_set out.1.acks ≡ calls)
    × (out.0 ≡ ok tt → c ≡ true)

still :
    (calls : Bool) (w : World) (o : Result ReplicatorError (Unit {0}))
    → is_set w.acks ≡ calls
    → Advances calls w (o, w, [])
still calls w o h = (true, idle, h, λ _. refl)

then-Advances :
    (calls : Bool) (f g : Replicate) (w : World)
    → Advances calls w (f w)
    → ((v : World) → is_set v.acks ≡ calls → Advances calls v (g v))
    → Advances calls w ((f >> g) w)
then-Advances calls f g w (c, first, kept, clean) next = elim (Result-cases (f w).0) [
  | inr (e, stops) ↦ rw stops (c, first, kept, λ h. absurd (cc))
  | inl (u, good) ↦
      let (d, second, kept', clean') = next (f w).1 kept in
      let whole =
        subst (λ (x : Bool). Progress calls w.since (f w).2 (f w).1.since x)
          (clean (ground (arith, good))) first in
      rw good (d, Progress-append calls whole second, kept', clean')
]

acknowledge-asked :
    (e : LogEntry) (w : World) (answers : List Bool)
    → w.acks ≡ some answers
    → int_lt w.since e.log_sequence ≡ true
    → Advances true w
        (after_calls (sent e.log_sequence ∷ []) ((acknowledge e >> advance_since e.log_sequence) w))
unfolding acknowledge
acknowledge-asked e w [] asks later =
    rw asks (true, confirmed e.log_sequence refl later idle, refl, λ h. refl)
acknowledge-asked e w (true ∷ more) asks later =
    rw asks (true, confirmed e.log_sequence refl later idle, refl, λ h. refl)
acknowledge-asked e w (false ∷ more) asks later =
    rw asks (false, unconfirmed e.log_sequence refl later, refl, λ h. absurd (cc))

-- Once an entry is sent: the callback, and the number that is done.
acknowledge-Advances :
    (calls : Bool) (e : LogEntry) (w : World)
    → is_set w.acks ≡ calls
    → int_lt w.since e.log_sequence ≡ true
    → Advances calls w
        (after_calls (sent e.log_sequence ∷ []) ((acknowledge e >> advance_since e.log_sequence) w))
unfolding acknowledge
acknowledge-Advances calls e w kept later = elim (Option-cases w.acks) [
  | inl unset ↦ rw unset (
    true,
    unasked e.log_sequence (sym kept ∙ ap is_set unset) later idle,
    sym (ap is_set unset) ∙ kept,
    λ h. refl,
  )
  | inr (answers, asks) ↦
      subst
        (λ (c : Bool). Advances c w (
          after_calls (sent e.log_sequence ∷ [])
            ((acknowledge e >> advance_since e.log_sequence) w)))
        (sym (ap is_set asks) ∙ kept) (acknowledge-asked e w answers asks later)
]

module _ {Event : Type 0} (encode : LogEntry → Result Text (Option Event)) where
  send_entry-Advances :
      (calls : Bool) (e : LogEntry) (w : World)
      → is_set w.acks ≡ calls
      → Advances calls w (send_entry encode e w)
  unfolding send_entry send_with_retry
  send_entry-Advances calls e w kept = elim (Bool-cases (int_lt w.since e.log_sequence)) [
    | inr old ↦ rw old (still calls w _ kept)
    | inl later ↦ elim (Result-cases (encode e)) [
      | inr (msg, unencoded) ↦ rw (later, unencoded) (still calls w _ kept)
      | inl (o, encoded) ↦ elim (Option-cases o) [
        | inl nothing ↦ rw (later, encoded, nothing) (still calls w _ kept)
        | inr (event, given) ↦ elim (Result-cases (send_loop e.log_sequence w.attempts).0) [
          | inr (x, refused) ↦ rw (later, encoded, given, refused) (true, idle, kept, λ h. refl)
          | inl (u, went) ↦
              rw (later, encoded, given, went)
                (acknowledge-Advances calls e
                  (record w { attempts = (send_loop e.log_sequence w.attempts).1 }) kept later)
        ]
      ]
    ]
  ]

  send_entries-Advances :
      (calls : Bool) (es : List LogEntry) (w : World)
      → is_set w.acks ≡ calls
      → Advances calls w (send_entries encode es w)
  unfolding send_entries
  send_entries-Advances calls [] w kept = still calls w _ kept
  send_entries-Advances calls (e ∷ es) w kept =
      then-Advances calls (send_entry encode e) (send_entries encode es) w
        (send_entry-Advances calls e w kept) (λ v kept'. send_entries-Advances calls es v kept')

  replicate_batch-Advances :
      (calls : Bool) (batch : ℕ) (entries : List LogEntry) (w : World)
      → is_set w.acks ≡ calls
      → Advances calls w (replicate_batch encode batch entries w)
  unfolding replicate_batch
  replicate_batch-Advances calls batch entries w kept =
      elim (Bool-cases (has_gap w.since none (sort_entries entries))) [
        | inl gap ↦ rw gap (still calls w _ kept)
        | inr whole ↦
            rw whole (send_entries-Advances calls (take batch (sort_entries entries)) w kept)
      ]

  on_read-Advances :
      (calls : Bool) (batch : ℕ) (r : Result Text (List (Option LogEntry))) (w : World)
      → is_set w.acks ≡ calls
      → Advances calls w (on_read encode batch r w)
  on_read-Advances calls batch (err msg) w kept = still calls w _ kept
  on_read-Advances calls batch (ok entries) w kept = elim (Option-cases (present entries)) [
    | inl nil ↦ rw nil (still calls w _ kept)
    | inr (found, all) ↦ rw all (replicate_batch-Advances calls batch found w kept)
  ]

  run_loop-Advances :
      (calls : Bool) (batch : ℕ) (reads : List (Result Text (List (Option LogEntry)))) (w : World)
      → is_set w.acks ≡ calls
      → Advances calls w (run_loop encode batch reads w)
  unfolding run_loop
  run_loop-Advances calls batch [] w kept = still calls w _ kept
  run_loop-Advances calls batch (r ∷ rs) w kept =
      then-Advances calls (on_read encode batch r) (run_loop encode batch rs) w
        (on_read-Advances calls batch r w kept)
        (λ v kept'. run_loop-Advances calls batch rs v kept')

  -- Whatever the reader returns, nil entries included, and however often the sender, the callback or the encoder fails, a run
  -- sends entries with ever larger numbers, each after the one before is done; where there is an
  -- acknowledge callback, an entry is done when the callback has taken its number right after it was
  -- sent; and at most the last entry was sent and is not done when the run ends.
  pub run-Advances :
      (batch : ℕ) (reads : List (Result Text (List (Option LogEntry)))) (w : World)
      → Advances (is_set w.acks) w (run encode batch reads w)
  unfolding run
  run-Advances batch reads w = elim (Bool-cases (is_neg w.since)) [
    | inl low ↦ rw low (still (is_set w.acks) w _ refl)
    | inr high ↦ rw high (run_loop-Advances (is_set w.acks) batch reads w refl)
  ]
