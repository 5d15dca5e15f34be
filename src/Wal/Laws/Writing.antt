-- ===== src/Wal/Laws/Writing.antt =====
-- The writer and the log: the invariant, and the methods of the writer one by one.
use mathlib.Core.List.{append_assoc, append-nil}
use astra_sync.Prelude.{
  ℕ, suc, pos, ◌+◌, ◌≤◌, ◌<◌, ◌≡◌, refl, sym, ap, ◌∙◌, subst, List, [], ◌∷◌, ◌++◌, length, All,
  All-append, length-append, text_eq, is_empty, Bool, true, not, ◌&&◌, ◌||◌, Option, none, some,
  max_int64, inc64, ok, err, Result-cases, inl, inr, ◌⊎◌, Bool-cases, arith,
}
use astra_sync.Wal.Entry.{Entry, WalError, closed, nil_entry, mismatched_region, marshal}
use astra_sync.Wal.Storage.{Store}
use astra_sync.Wal.Writer.{
  Writer, Outcome, flush_entries, flush_locked, stamped, accepted, must_flush, after_marshal,
  append_entry, append,
}
use astra_sync.Wal.Laws.Log.{
  Numbered, Numbered-append, Numbered-split, Written, AllWritten, Outcome-cases, err≢ok,
  flush_entries-AllWritten, flush_entries-writes,
}

-- `flushed` and the pending entries make up the log. The number of the last entry is its length.
pub record Logs (w : Writer) (s : Store) (flushed : List Entry) : Type 0 where
  pub numbered : Numbered 0 (flushed ++ w.pending)
  pub counted : w.last_sequence ≡ pos (length (flushed ++ w.pending))
  pub room : length (flushed ++ w.pending) ≤ max_int64
  pub written : AllWritten w.wal_prefix w.writer_region s flushed
  pub local : All (λ (e : Entry). e.region ≡ w.writer_region) (flushed ++ w.pending)

-- After a call the log is `whole`, and all of it is written if `clean` holds.
abbrev pub LogsAs : List Entry → Type 0 → Writer → Store → Type 0
LogsAs whole clean w s =
    (after : List Entry) × Logs w s after × (after ++ w.pending ≡ whole) × (clean → w.pending ≡ [])

emptied-Logs :
    (w : Writer) (s' : Store) (flushed : List Entry)
    → Numbered 0 (flushed ++ w.pending)
    → w.last_sequence ≡ pos (length (flushed ++ w.pending))
    → length (flushed ++ w.pending) ≤ max_int64
    → AllWritten w.wal_prefix w.writer_region s' (flushed ++ w.pending)
    → All (λ (e : Entry). e.region ≡ w.writer_region) (flushed ++ w.pending)
    → Logs (record w { pending = [] }) s' (flushed ++ w.pending)
emptied-Logs w s' flushed num count room written local = record {
  numbered = rw (append-nil (flushed ++ w.pending)) num;
  counted = rw (append-nil (flushed ++ w.pending)) count;
  room = rw (append-nil (flushed ++ w.pending)) room;
  written = written;
  local = rw (append-nil (flushed ++ w.pending)) local;
}

pub flush_locked-LogsAs :
    (w : Writer) (s : Store) (flushed : List Entry)
    → Logs w s flushed
    → let r = flush_locked w s in LogsAs (flushed ++ w.pending) (r.0 ≡ ok tt) r.1 r.2
unfolding flush_locked
flush_locked-LogsAs w s flushed l =
    let (before, num) = Numbered-split 0 flushed w.pending l.numbered in
    let p = w.wal_prefix in
    let g = w.writer_region in
    let room : 0 + length flushed + length w.pending ≤ max_int64 =
      omega (arith, l.room, length-append flushed w.pending) in
    let kept =
      flush_entries-AllWritten p g 0 flushed (0 + length flushed) w.pending s before (omega arith)
        num room l.written in
    elim (Outcome-cases (flush_entries p g w.pending s)) [
      | inl (s', done) ↦
          let wrote =
            flush_entries-writes p g (0 + length flushed) w.pending s num room
              (ap (λ (o : Outcome × Store). o.0) done) in
          let all =
            All-append (Written p g s') flushed w.pending (rw done at kept) (rw done at wrote) in
          rw done (
            flushed ++ w.pending,
            emptied-Logs w s' flushed l.numbered l.counted l.room all l.local,
            append-nil (flushed ++ w.pending),
            λ _. refl,
          )
      | inr (bad, s', stop) ↦ rw stop (
        flushed,
        record {
          numbered = l.numbered;
          counted = l.counted;
          room = l.room;
          written = rw stop at kept;
          local = l.local;
        },
        refl,
        λ e. absurd (err≢ok bad e),
      )
    ]

-- An entry that the writer accepts goes to the end of the log under the next number.
accepted-Logs :
    (w : Writer) (s : Store) (flushed : List Entry) (now : ℕ) (e : Entry)
    → Logs w s flushed
    → length (flushed ++ w.pending) < max_int64
    → Logs (accepted w now e) s flushed
accepted-Logs w s flushed now e l more =
    let last : inc64 w.last_sequence ≡ pos (suc (length (flushed ++ w.pending))) =
      ground (arith, l.counted) in
    let grown : length (flushed ++ (w.pending ++ stamped w now e ∷ []))
        ≡ suc (length (flushed ++ w.pending)) =
      omega (
        arith,
        ap length (append_assoc flushed w.pending (stamped w now e ∷ [])),
        length-append (flushed ++ w.pending) (stamped w now e ∷ []),
      ) in
    record {
      numbered = subst (Numbered 0) (append_assoc flushed w.pending (stamped w now e ∷ [])) (
          Numbered-append 0 (flushed ++ w.pending) (stamped w now e ∷ []) l.numbered
            (last ∙ ap pos (omega arith), tt));
      counted = last ∙ ap pos (sym grown);
      room = omega (arith, grown);
      written = l.written;
      local =
          subst (All (λ (x : Entry). x.region ≡ w.writer_region))
            (append_assoc flushed w.pending (stamped w now e ∷ []))
            (All-append (λ (x : Entry). x.region ≡ w.writer_region) (flushed ++ w.pending)
              (stamped w now e ∷ []) l.local (refl, tt));
    }

after_marshal-LogsAs :
    (w : Writer) (s : Store) (flushed : List Entry) (now : ℕ) (durable : Bool) (e : Entry)
    (r : List ℕ × Entry)
    → Logs w s flushed
    → length (flushed ++ w.pending) < max_int64
    → let out = after_marshal w now durable e s (ok r) in
      LogsAs
        ((flushed ++ w.pending) ++ stamped w now e ∷ [])
        ((durable ≡ true) × (out.0 ≡ ok tt))
        out.1
        out.2
after_marshal-LogsAs w s flushed now durable e r l more =
    let next = accepted w now e in
    let ln = accepted-Logs w s flushed now e l more in
    let regroup = append_assoc flushed w.pending (stamped w now e ∷ []) in
    elim (Bool-cases (must_flush next durable)) [
      | inl flushes ↦
          let (after, logs, whole, clean) = flush_locked-LogsAs next s flushed ln in
          rw flushes (after, logs, whole ∙ sym regroup, λ c. clean c.1)
      | inr waits ↦ rw waits (flushed, ln, sym regroup, λ c. ground arith)
    ]

-- `Append`, durable or not, either reports an error and changes nothing, or adds the stamped entry
-- to the log; the entry is numbered next, entries are never lost or reordered by a flush that fails
-- midway, and after a durable append that succeeds the whole log is in the store.
pub append-LogsAs :
    (w : Writer) (s : Store) (flushed : List Entry) (now : ℕ) (durable : Bool) (e : Option Entry)
    → Logs w s flushed
    → length (flushed ++ w.pending) < max_int64
    → let r = append w now durable e s in
      ((x : WalError) × (r ≡ (err x, w, s)))
      ⊎ ((entry : Entry) × (e ≡ some entry)
          × LogsAs
              ((flushed ++ w.pending) ++ stamped w now entry ∷ [])
              ((durable ≡ true) × (r.0 ≡ ok tt))
              r.1
              r.2)
unfolding append append_entry
append-LogsAs w s flushed now durable none l more =
    elim (Bool-cases (w.is_closed || w.is_closing)) [
      | inl shut ↦ inl (closed, rw shut)
      | inr free ↦ inl (nil_entry, rw free)
    ]
append-LogsAs w s flushed now durable (some e) l more =
    elim (Bool-cases (w.is_closed || w.is_closing)) [
      | inl shut ↦ inl (closed, rw shut)
      | inr free ↦
          elim (Bool-cases (not (is_empty e.region) && not (text_eq e.region w.writer_region))) [
            | inl foreign ↦ inl (mismatched_region e.region w.writer_region, rw (free, foreign))
            | inr local ↦ elim (Result-cases (marshal (stamped w now e))) [
              | inl (r, m) ↦ inr (
                e,
                refl,
                rw (free, local, m) (after_marshal-LogsAs w s flushed now durable e r l more),
              )
              | inr (x, m) ↦ inl (x, rw (free, local, m))
            ]
          ]
    ]
