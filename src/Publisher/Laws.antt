-- ===== src/Publisher/Laws.antt =====
-- What a publication does to the log.
use astra_sync.Prelude.{
  ℕ, ℤ, ◌<◌, ◌≡◌, ◌≢◌, subst, ◌⊎◌, inl, inr, refl, sym, ap, ◌∙◌, List, [], ◌∷◌, ◌++◌, length, Text,
  Bool, true, Option, some, int_eq, int_eq_iff, Result, ok, err, Result-cases, Bool-cases,
  max_int64, arith,
}
use astra_sync.Wal.Entry.{Entry, WalError}
use astra_sync.Wal.Storage.{Store}
use astra_sync.Wal.Writer.{Writer, Outcome, stamped, append}
use astra_sync.Wal.Laws.Writing.{Logs, LogsAs, append-LogsAs}
use astra_sync.Publisher.Publish.{
  CheckpointRecord, PublishError, invalid_record, context_ended, epoch_unreadable, epoch_fenced,
  append_failed, invalid, entry_of, published, Published, after_append, publish,
}

-- The log after a publication: the entry is at its end, and if it is returned, with its number, all of
-- the log is in the store.
abbrev pub Publishes : Writer → Store → List Entry → ℕ → CheckpointRecord → Published → Type 0
Publishes w s flushed now c out =
    ((x : WalError) × (out ≡ (err (append_failed x), w, s)))
    ⊎ LogsAs ((flushed ++ w.pending) ++ stamped w now (entry_of c) ∷ [])
        (out.0 ≡ ok (published w now (entry_of c))) out.1 out.2

some-injective : {a b : Entry} → ◌≡◌ {A = Option Entry} (some a) (some b) → a ≡ b
some-injective h = cc

after_append-LogsAs :
    (e : Entry) (whole : List Entry) (out : Outcome × Writer × Store)
    → LogsAs whole ((◌≡◌ {A = Bool} true true) × (out.0 ≡ ok tt)) out.1 out.2
    → let r = after_append e out in LogsAs whole (r.0 ≡ ok e) r.1 r.2
after_append-LogsAs e whole (ok u, w, s) (after, logs, grown, clean) =
    (after, logs, grown, λ h. clean (refl, refl))
after_append-LogsAs e whole (err x, w, s) (after, logs, grown, clean) =
    (after, logs, grown, λ h. absurd (cc))

append-Publishes :
    (w : Writer) (s : Store) (flushed : List Entry) (now : ℕ) (c : CheckpointRecord)
    → Logs w s flushed
    → length (flushed ++ w.pending) < max_int64
    → Publishes w s flushed now c
        (after_append (published w now (entry_of c)) (append w now true (some (entry_of c)) s))
append-Publishes w s flushed now c l room =
    elim (append-LogsAs w s flushed now true (some (entry_of c)) l room) [
      | inl (x, refused) ↦ inl (x, rw refused refl)
      | inr (e, same, logs) ↦ inr (
          after_append-LogsAs (published w now (entry_of c))
            ((flushed ++ w.pending) ++ stamped w now (entry_of c) ∷ [])
            (append w now true (some (entry_of c)) s)
            (subst
              (λ (x : Entry).
                LogsAs ((flushed ++ w.pending) ++ stamped w now x ∷ [])
                  ((◌≡◌ {A = Bool} true true)
                    × ((append w now true (some (entry_of c)) s).0 ≡ ok tt))
                  (append w now true (some (entry_of c)) s).1
                  (append w now true (some (entry_of c)) s).2)
              (some-injective (sym same)) logs))
    ]

-- Why a record is not published.
pub data Rejects (answer : Result Text ℤ) (ended : Bool) (c : CheckpointRecord)
    : PublishError → Type 0 where
  not_valid : invalid c ≡ true → Rejects answer ended c invalid_record
  too_late : ended ≡ true → Rejects answer ended c context_ended
  unread : (msg : Text) → answer ≡ err msg → Rejects answer ended c (epoch_unreadable msg)
  fenced :
      (current : ℤ)
      → answer ≡ ok current
      → current ≢ c.record_epoch
      → Rejects answer ended c (epoch_fenced c.record_epoch current)

-- On a log that is not full, a publication is rejected for one of four reasons and changes nothing; or
-- its epoch is the current one, and either the writer refuses the entry and nothing changes, or the
-- entry is at the end of the log, and all of the log is in the store if the entry is returned.
pub publish-Publishes :
    (w : Writer) (s : Store) (flushed : List Entry) (now : ℕ) (ended : Bool)
    (answer : Result Text ℤ) (c : CheckpointRecord)
    → Logs w s flushed
    → length (flushed ++ w.pending) < max_int64
    → let out = publish w now ended answer c s in
      ((x : PublishError) × Rejects answer ended c x × (out ≡ (err x, w, s)))
      ⊎ ((answer ≡ ok c.record_epoch) × Publishes w s flushed now c out)
unfolding publish
publish-Publishes w s flushed now ended answer c l room = elim (Bool-cases (invalid c)) [
  | inl bad ↦ inl (invalid_record, not_valid bad, rw bad refl)
  | inr good ↦ elim (Bool-cases ended) [
    | inl late ↦ inl (context_ended, too_late late, rw (good, late) refl)
    | inr early ↦ elim (Result-cases answer) [
      | inr (msg, lost) ↦ inl (epoch_unreadable msg, unread msg lost, rw (good, early, lost) refl)
      | inl (current, read) ↦ elim (Bool-cases (int_eq current c.record_epoch)) [
        | inr other ↦ inl (
          epoch_fenced c.record_epoch current,
          fenced current read (λ e. ground (arith, int_eq_iff current c.record_epoch)),
          rw (good, early, read, other) refl,
        )
        | inl same ↦ inr (
          read ∙ ap ok ((int_eq_iff current c.record_epoch).0 same),
          rw (good, early, read, same) (append-Publishes w s flushed now c l room),
        )
      ]
    ]
  ]
]
