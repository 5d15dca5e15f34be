-- ===== src/Replicator/Loop.antt =====
-- `Run` of control-plane/replication/runtime/replicator.go. A nil entry is `none`. The
-- reads to come are a list; where it ends, the context does.
use astra_sync.Prelude.{
  ℕ, ℤ, List, [], ◌∷◌, take, Text, Bool, true, false, not, ◌||◌, Option, none, some, is_neg, int_eq,
  int_lt, inc64, if◌then◌else◌, Result, ok, err,
}
use astra_sync.Prelude.Exec.{◌>>◌, pure, throw}
use astra_sync.Replicator.Send.{
  LogEntry, World, Sent, acknowledged, ReplicatorError, negative_start, unreadable, sequence_gap,
  not_increasing, nil_dereference, wait_ended, acknowledge_failed, Replicate, send_with_retry,
}

-- `sort.Slice` by sequence number; equal numbers are refused afterwards, in whatever order they stand.
unfoldable pub insert_entry : LogEntry → List LogEntry → List LogEntry
insert_entry e [] = e ∷ []
insert_entry e (f ∷ fs) =
    let rest = insert_entry e fs in
    if int_lt f.log_sequence e.log_sequence then f ∷ rest else e ∷ f ∷ fs

unfoldable pub sort_entries : List LogEntry → List LogEntry
sort_entries [] = []
sort_entries (e ∷ es) = insert_entry e (sort_entries es)

-- The entries of a read, if none of them is nil.
unfoldable pub present : List (Option LogEntry) → Option (List LogEntry)
present [] = some []
present (none ∷ es) = none
present (some e ∷ es) = elim (present es) [ none ↦ none | some rest ↦ some (e ∷ rest) ]

-- What a nil entry leads to: one that is alone is met by the check of the loop, and of several the
-- sort compares each.
abbrev nil_error : ℤ → List (Option LogEntry) → ReplicatorError
nil_error since (e ∷ f ∷ es) = nil_dereference
nil_error since es = sequence_gap since

-- The check of the loop over the sorted entries; `last` is the number before, if there is one.
unfoldable pub has_gap : ℤ → Option ℤ → List LogEntry → Bool
has_gap since last [] = false
has_gap since none (e ∷ es) =
    not (int_lt since e.log_sequence) || has_gap since (some e.log_sequence) es
has_gap since (some n) (e ∷ es) =
    not (int_lt since e.log_sequence)
    || (not (int_eq e.log_sequence (inc64 n)) || has_gap since (some e.log_sequence) es)

abbrev pub advance_since : ℤ → Replicate
advance_since n w = (ok tt, record w { since = n }, [])

-- The acknowledge callback, if there is one; a call that succeeds is listed.
abbrev acknowledge_with :
    LogEntry → World → Option (List Bool) → Result ReplicatorError (Unit {0}) × World × List Sent
acknowledge_with e w none = (ok tt, w, [])
acknowledge_with e w (some []) = (ok tt, w, acknowledged e.log_sequence ∷ [])
acknowledge_with e w (some (true ∷ more)) =
    (ok tt, record w { acks = some more }, acknowledged e.log_sequence ∷ [])
acknowledge_with e w (some (false ∷ more)) =
    (err (acknowledge_failed e.log_sequence), record w { acks = some more }, [])

unfoldable pub acknowledge : LogEntry → Replicate
acknowledge e w = acknowledge_with e w w.acks

abbrev refuse_if : Bool → ReplicatorError → Replicate
refuse_if true e = throw e
refuse_if false e = pure tt

abbrev not_after : LogEntry → Replicate
not_after e w = refuse_if (not (int_lt w.since e.log_sequence)) not_increasing w

module _ {Event : Type 0} (encode : LogEntry → Result Text (Option Event)) where
  unfoldable pub send_entry : LogEntry → Replicate
  unfolding acknowledge
  send_entry e =
      not_after e >> (send_with_retry encode e >> (acknowledge e >> advance_since e.log_sequence))

  unfoldable pub send_entries : List LogEntry → Replicate
  send_entries [] = pure tt
  send_entries (e ∷ es) = send_entry e >> send_entries es

  -- What `Run` does with the entries of one read.
  unfoldable pub replicate_batch : ℕ → List LogEntry → Replicate
  replicate_batch batch entries w =
      let sorted = sort_entries entries in
      if has_gap w.since none sorted
      then (err (sequence_gap w.since), w, [])
      else send_entries (take batch sorted) w

  -- No entries: `Run` waits and reads again, which is the same here as an empty batch.
  abbrev replicate_found :
      ℕ
      → List (Option LogEntry)
      → World
      → Option (List LogEntry)
      → Result ReplicatorError (Unit {0}) × World × List Sent
  replicate_found batch entries w none = (err (nil_error w.since entries), w, [])
  replicate_found batch entries w (some found) = replicate_batch batch found w

  abbrev pub on_read : ℕ → Result Text (List (Option LogEntry)) → Replicate
  on_read batch (err msg) w = (err (unreadable msg), w, [])
  on_read batch (ok entries) w = replicate_found batch entries w (present entries)

  unfoldable pub run_loop : ℕ → List (Result Text (List (Option LogEntry))) → Replicate
  run_loop batch [] = throw wait_ended
  run_loop batch (r ∷ rs) = on_read batch r >> run_loop batch rs

  unfoldable pub run : ℕ → List (Result Text (List (Option LogEntry))) → Replicate
  run batch reads w = if is_neg w.since then (err negative_start, w, []) else run_loop batch reads w
