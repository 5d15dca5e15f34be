-- ===== src/Replicator/Tests.antt =====
-- The theorems on a replicator at a concrete run, and a run of the code.
use astra_sync.Prelude.{
  ℕ, ℤ, pos, ◌≡◌, ◌↔◌, List, [], ◌∷◌, Text, codes, true, false, Option, none, some, is_set, Result,
  ok, err, refl,
}
use astra_sync.Replicator.Send.{
  LogEntry, World, nil_dereference, sent, acknowledged, accepted, refused, unavailable,
  acknowledge_failed, retryable, send_loop, send_with_retry,
}
use astra_sync.Replicator.Loop.{
  run, run_loop, replicate_batch, send_entries, send_entry, has_gap, sort_entries, insert_entry,
  present,
}
use astra_sync.Replicator.Laws.Progress.{Advances, run-Advances}
use astra_sync.Replicator.Laws.Gaps.{AllAfter, Consecutive, has_gap_iff}

abbrev numbered : ℕ → LogEntry
numbered n = record {
  log_sequence = pos n;
  log_region = codes "east";
  log_epoch = pos 1;
  log_uri = codes "s3://b/1";
  log_job = codes "orders";
  log_time = 10;
  log_crc = 0;
}

abbrev as_number : LogEntry → Result Text (Option ℤ)
as_number e = ok (some e.log_sequence)

-- The first attempt fails and is repeated; the second number is not taken by the callback.
abbrev shaky_world : World
shaky_world = record {
  since = pos 4;
  attempts = refused unavailable false ∷ accepted ∷ [];
  acks = some (true ∷ false ∷ []);
}

abbrev one_read : List (Result Text (List (Option LogEntry)))
one_read = ok (some (numbered 6) ∷ some (numbered 5) ∷ some (numbered 7) ∷ []) ∷ []

shaky_run : run as_number 2 one_read shaky_world ≡ (
  err (acknowledge_failed (pos 6)),
  record { since = pos 5; attempts = []; acks = some [] },
  sent (pos 5) ∷ acknowledged (pos 5) ∷ sent (pos 6) ∷ [],
)
unfolding run run_loop present replicate_batch has_gap sort_entries insert_entry send_entries
    send_entry send_with_retry send_loop retryable
shaky_run = refl

-- Of two entries one is nil.
nil_panics :
    run as_number 2 (ok (some (numbered 5) ∷ none ∷ []) ∷ []) shaky_world
    ≡ (err nil_dereference, shaky_world, [])
unfolding run run_loop present
nil_panics = refl

run-Advances_example :
    Advances (is_set shaky_world.acks) shaky_world (run as_number 2 one_read shaky_world)
run-Advances_example = run-Advances as_number 2 one_read shaky_world

has_gap_iff_example :
    (has_gap (pos 4) none (numbered 6 ∷ numbered 7 ∷ []) ≡ false)
    ↔ (AllAfter (pos 4) (numbered 6 ∷ numbered 7 ∷ []) × Consecutive (numbered 6 ∷ numbered 7 ∷ []))
has_gap_iff_example = has_gap_iff (pos 4) (numbered 6 ∷ numbered 7 ∷ [])
