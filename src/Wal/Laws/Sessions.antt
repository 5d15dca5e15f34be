-- ===== src/Wal/Laws/Sessions.antt =====
-- Any sequence of calls of one writer, its flusher's ticks among them.
use mathlib.Core.List.{append_assoc, append-nil}
use astra_sync.Prelude.{
  ℕ, suc, ℤ, ◌+◌, ◌≤◌, ◌<◌, ◌≡◌, refl, sym, ap, ◌∙◌, List, [], ◌∷◌, ◌++◌, length, length-append,
  Text, Bool, true, false, not, ◌&&◌, ◌||◌, ltb, Option, max_int64, ok, err, inl, inr, Bool-cases,
  arith,
}
use astra_sync.Wal.Entry.{Entry}
use astra_sync.Wal.Storage.{Store}
use astra_sync.Wal.Writer.{
  Writer, Outcome, flush_locked, stamped, append, tick, close_begin, close_after, close_finish,
  new_state,
}
use astra_sync.Wal.Laws.Writing.{Logs, LogsAs, flush_locked-LogsAs, append-LogsAs}

pub data Call : Type 0 where
  appends : (now : ℕ) (durable : Bool) (e : Option Entry) → Call
  ticks begins_close finishes_close : Call

pub perform : Call → Writer → Store → Writer × Store
perform (appends now durable e) w s = let r = append w now durable e s in (r.1, r.2)
perform ticks w s = tick w s
perform begins_close w s = ((close_begin w).1, s)
perform finishes_close w s = let r = close_finish w s in (r.1, r.2)

pub perform_all : List Call → Writer → Store → Writer × Store
perform_all [] w s = (w, s)
perform_all (c ∷ cs) w s = let r = perform c w s in perform_all cs r.0 r.1

-- The log has grown at its end, by `most` entries at most.
abbrev pub Extends : List Entry → ℕ → Writer → Store → Type 0
Extends whole most w s =
    (after : List Entry) × Logs w s after
    × (new : List Entry) × (after ++ w.pending ≡ whole ++ new)
    × (length new ≤ most)

same_log :
    (whole : List Entry) (w : Writer) (s : Store) (C : Type 0)
    → LogsAs whole C w s
    → Extends whole 1 w s
same_log whole w s C (after, logs, e, clean) =
    (after, logs, [], e ∙ sym (append-nil whole), omega arith)

-- What is closing or closed does not bear on the log.
marked :
    (w : Writer) (s : Store) (flushed : List Entry) (a b : Bool)
    → Logs w s flushed
    → Logs (record w { is_closed = a; is_closing = b }) s flushed
marked w s flushed a b l = record {
  numbered = l.numbered;
  counted = l.counted;
  room = l.room;
  written = l.written;
  local = l.local;
}

close_after-LogsAs :
    (whole : List Entry) (C : Type 0) (r : Outcome × Writer × Store)
    → LogsAs whole C r.1 r.2
    → let q = close_after r in LogsAs whole C q.1 q.2
close_after-LogsAs whole C (ok u, w, s) (after, logs, e, clean) =
    (after, marked w s after true false logs, e, clean)
close_after-LogsAs whole C (err x, w, s) (after, logs, e, clean) =
    (after, marked w s after w.is_closed false logs, e, clean)

perform-Extends :
    (c : Call) (w : Writer) (s : Store) (flushed : List Entry)
    → Logs w s flushed
    → length (flushed ++ w.pending) < max_int64
    → let r = perform c w s in Extends (flushed ++ w.pending) 1 r.0 r.1
unfolding perform tick close_begin close_finish
perform-Extends (appends now durable e) w s flushed l more =
    elim (append-LogsAs w s flushed now durable e l more) [
      | inl (x, same) ↦
          rw same (same_log (flushed ++ w.pending) w s ⊥ (flushed, l, refl, λ b. absurd b))
      | inr (entry, _, (after, logs, grown, clean)) ↦
          (after, logs, stamped w now entry ∷ [], grown, omega arith)
    ]
perform-Extends ticks w s flushed l more =
    elim (Bool-cases (not w.is_closed && ltb 0 (length w.pending))) [
      | inl due ↦ rw due (same_log (flushed ++ w.pending) _ _ _ (flush_locked-LogsAs w s flushed l))
      | inr idle ↦ rw idle (same_log (flushed ++ w.pending) w s ⊥ (flushed, l, refl, λ b. absurd b))
    ]
perform-Extends begins_close w s flushed l more = elim (Bool-cases (w.is_closed || w.is_closing)) [
  | inl shut ↦ rw shut (same_log (flushed ++ w.pending) w s ⊥ (flushed, l, refl, λ b. absurd b))
  | inr free ↦ rw free (
      same_log (flushed ++ w.pending) _ s ⊥
        (flushed, marked w s flushed w.is_closed true l, refl, λ b. absurd b))
]
perform-Extends finishes_close w s flushed l more = elim (Bool-cases (ltb 0 (length w.pending))) [
  | inl due ↦ rw due (
      same_log (flushed ++ w.pending) _ _ _ (
        close_after-LogsAs (flushed ++ w.pending) _ (flush_locked w s)
          (flush_locked-LogsAs w s flushed l)))
  | inr idle ↦ rw idle (
      same_log (flushed ++ w.pending) _ _ ⊥ (
        close_after-LogsAs (flushed ++ w.pending) ⊥ (ok tt, w, s)
          (flushed, l, refl, λ b. absurd b)))
]

Extends-trans :
    (whole middle : List Entry) (n : ℕ) (w : Writer) (s : Store) (new : List Entry)
    → middle ≡ whole ++ new
    → length new ≤ 1
    → Extends middle n w s
    → Extends whole (suc n) w s
Extends-trans whole middle n w s new e le (after, logs, more, grown, le') = (
  after,
  logs,
  new ++ more,
  grown ∙ ap (λ (x : List Entry). x ++ more) e ∙ append_assoc whole new more,
  omega (arith, length-append new more),
)

perform_all-Extends :
    (cs : List Call) (w : Writer) (s : Store) (flushed : List Entry)
    → Logs w s flushed
    → length (flushed ++ w.pending) + length cs ≤ max_int64
    → let r = perform_all cs w s in Extends (flushed ++ w.pending) (length cs) r.0 r.1
unfolding perform_all
perform_all-Extends [] w s flushed l room =
    (flushed, l, [], sym (append-nil (flushed ++ w.pending)), omega arith)
perform_all-Extends (c ∷ cs) w s flushed l room =
    let r = perform c w s in
    let (after, logs, new, grown, le) = perform-Extends c w s flushed l (omega arith) in
    let size : length (after ++ r.0.pending) + length cs ≤ max_int64 =
      omega (arith, ap length grown, length-append (flushed ++ w.pending) new) in
    Extends-trans (flushed ++ w.pending) (after ++ r.0.pending) (length cs)
      (perform_all cs r.0 r.1).0 (perform_all cs r.0 r.1).1 new grown le
      (perform_all-Extends cs r.0 r.1 after logs size)

new_state-Logs :
    (region prefix : Text) (batch : ℤ) (s : Store) → Logs (new_state region prefix batch) s []
new_state-Logs region prefix batch s = record {
  numbered = tt;
  counted = refl;
  room = omega arith;
  written = tt;
  local = tt;
}

-- Whatever calls a writer of an empty log gets, in whatever order and however often the store fails,
-- it ends with a log that is numbered from 1 without gaps, of which all that is not pending is
-- written under its key, and which a call makes longer by one entry at most.
pub perform_all-Logs :
    (cs : List Call) (region prefix : Text) (batch : ℤ) (s : Store)
    → length cs ≤ max_int64
    → let r = perform_all cs (new_state region prefix batch) s in
      (flushed : List Entry) × Logs r.0 r.1 flushed × (length (flushed ++ r.0.pending) ≤ length cs)
perform_all-Logs cs region prefix batch s room =
    let (after, logs, new, grown, le) =
      perform_all-Extends cs (new_state region prefix batch) s []
        (new_state-Logs region prefix batch s) (omega arith) in
    (after, logs, omega (arith, ap length grown))
