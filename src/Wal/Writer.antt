-- ===== src/Wal/Writer.antt =====
-- The writer of control-plane/replication/wal/wal.go. A method takes and returns the writer and the
-- store; the mutex makes each one step, except that `Close` gives it up while the flusher ends, so it
-- is two. An entry is a value: what a caller does to it after `Append` is not modelled.
use astra_sync.Prelude.{
  ℕ, ℤ, pos, List, [], ◌∷◌, ◌++◌, length, Text, text_eq, is_empty, Bool, true, false, not, ◌&&◌,
  ◌||◌, ltb, Option, none, some, is_positive, inc64, int_lt, if◌then◌else◌, Result, ok, err,
}
use astra_sync.Wal.Entry.{Entry, WalError, closed, nil_entry, mismatched_region, marshal}
use astra_sync.Wal.Keys.{entry_key}
use astra_sync.Wal.Storage.{Store, put_object}

pub record Writer : Type 0 where
  pub writer_region : Text
  pub wal_prefix : Text
  pub batch_size : ℤ
  pub is_closed : Bool
  pub is_closing : Bool
  pub last_sequence : ℤ
  pub pending : List Entry

abbrev pub Outcome : Type 0
Outcome = Result WalError (Unit {0})

-- One round of the loop of `flushLocked`: an encoding that fails stops it before the store is called.
abbrev pub put_marshalled : Text → Store → Result WalError (List ℕ × Entry) → Outcome × Store
put_marshalled key s (err e) = (err e, s)
put_marshalled key s (ok (bytes, e)) = put_object key bytes s

unfoldable pub flush_entry : Text → Text → Entry → Store → Outcome × Store
flush_entry prefix region e s = put_marshalled (entry_key prefix region e.sequence) s (marshal e)

-- The rest of the loop runs only after a round that succeeded.
abbrev pub and_then : Outcome × Store → (Store → Outcome × Store) → Outcome × Store
and_then (ok u, s) f = f s
and_then (err e, s) f = (err e, s)

unfoldable pub flush_entries : Text → Text → List Entry → Store → Outcome × Store
flush_entries prefix region [] s = (ok tt, s)
flush_entries prefix region (e ∷ es) s =
    and_then (flush_entry prefix region e s) (flush_entries prefix region es)

-- The entries stay pending unless all of them were written.
abbrev pub emptied : Writer → Outcome × Store → Outcome × Writer × Store
emptied w (ok u, s) = (ok u, record w { pending = [] }, s)
emptied w (err e, s) = (err e, w, s)

unfoldable pub flush_locked : Writer → Store → Outcome × Writer × Store
flush_locked w s = emptied w (flush_entries w.wal_prefix w.writer_region w.pending s)

-- The entry as `append` stamps it before it is encoded.
abbrev pub stamped : Writer → ℕ → Entry → Entry
stamped w now e = record e {
  sequence = inc64 w.last_sequence;
  region = w.writer_region;
  timestamp = now;
}

-- The writer once an entry is accepted.
abbrev pub accepted : Writer → ℕ → Entry → Writer
accepted w now e = record w {
  last_sequence = inc64 w.last_sequence;
  pending = w.pending ++ stamped w now e ∷ [];
}

abbrev pub must_flush : Writer → Bool → Bool
must_flush w durable =
    durable
    || (not (is_positive w.batch_size) || not (int_lt (pos (length w.pending)) w.batch_size))

abbrev pub after_marshal :
    Writer → ℕ → Bool → Entry → Store → Result WalError (List ℕ × Entry) → Outcome × Writer × Store
after_marshal w now durable e s (err x) = (err x, w, s)
after_marshal w now durable e s (ok r) =
    let next = accepted w now e in
    if must_flush next durable then flush_locked next s else (ok tt, next, s)

-- `now` is the time of the call. An encoding that fails leaves the writer as it was.
unfoldable pub append_entry : Writer → ℕ → Bool → Entry → Store → Outcome × Writer × Store
append_entry w now durable e s =
    if not (is_empty e.region) && not (text_eq e.region w.writer_region)
    then (err (mismatched_region e.region w.writer_region), w, s)
    else after_marshal w now durable e s (marshal (stamped w now e))

abbrev pub append_pointer : Writer → ℕ → Bool → Option Entry → Store → Outcome × Writer × Store
append_pointer w now durable none s = (err nil_entry, w, s)
append_pointer w now durable (some e) s = append_entry w now durable e s

unfoldable pub append : Writer → ℕ → Bool → Option Entry → Store → Outcome × Writer × Store
append w now durable e s =
    if w.is_closed || w.is_closing then (err closed, w, s) else append_pointer w now durable e s

-- One tick of the flusher; an error is only logged.
unfoldable pub tick : Writer → Store → Writer × Store
tick w s =
    let flushed = flush_locked w s in
    if not w.is_closed && ltb 0 (length w.pending) then (flushed.1, flushed.2) else (w, s)

-- `Close` up to the point where it gives up the lock: whether it goes on, and the writer.
unfoldable pub close_begin : Writer → Bool × Writer
close_begin w =
    if w.is_closed || w.is_closing then (false, w) else (true, record w { is_closing = true })

abbrev pub close_after : Outcome × Writer × Store → Outcome × Writer × Store
close_after (ok u, w, s) = (ok u, record w { is_closed = true; is_closing = false }, s)
close_after (err e, w, s) = (err e, record w { is_closing = false }, s)

-- `Close` from there on.
unfoldable pub close_finish : Writer → Store → Outcome × Writer × Store
close_finish w s =
    let flushed = flush_locked w s in
    if ltb 0 (length w.pending) then close_after flushed else close_after (ok tt, w, s)

-- A writer of an empty log, as `NewWriter` makes it.
abbrev pub new_state : Text → Text → ℤ → Writer
new_state region prefix batch = record {
  writer_region = region;
  wal_prefix = prefix;
  batch_size = batch;
  is_closed = false;
  is_closing = false;
  last_sequence = pos 0;
  pending = [];
}
