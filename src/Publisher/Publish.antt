-- ===== src/Publisher/Publish.antt =====
-- `WALPublisher.Publish` of control-plane/replication/checkpoint/publisher.go. `ended` is whether the
-- context has ended, and `answer` what `EpochReader.GetEpoch` returns.
use astra_sync.Prelude.{
  ℕ, ℤ, pos, [], Text, is_blank, Bool, true, not, ◌||◌, some, is_neg, int_eq, if◌then◌else◌, Result,
  ok, err,
}
use astra_sync.Wal.Crc.{checksum}
use astra_sync.Wal.Entry.{Entry, WalError, body}
use astra_sync.Wal.Storage.{Store}
use astra_sync.Wal.Writer.{Writer, Outcome, stamped, append}

pub record CheckpointRecord : Type 0 where
  pub record_job : Text
  pub record_epoch : ℤ
  pub record_uri : Text
  pub completed_at : ℕ

pub data PublishError : Type 0 where
  invalid_record context_ended : PublishError
  epoch_unreadable : Text → PublishError
  epoch_fenced : ℤ → ℤ → PublishError
  append_failed : WalError → PublishError

abbrev pub invalid : CheckpointRecord → Bool
invalid c = is_blank c.record_job || (is_blank c.record_uri || is_neg c.record_epoch)

-- The entry that is appended.
abbrev pub entry_of : CheckpointRecord → Entry
entry_of c = record {
  sequence = pos 0;
  region = [];
  epoch = c.record_epoch;
  checkpoint_uri = c.record_uri;
  job_id = c.record_job;
  timestamp = c.completed_at;
  crc = 0;
}

-- The entry once the writer has stamped and encoded it.
abbrev pub published : Writer → ℕ → Entry → Entry
published w now e = record (stamped w now e) { crc = checksum (body (stamped w now e)) }

abbrev pub Published : Type 0
Published = Result PublishError Entry × Writer × Store

abbrev pub after_append : Entry → Outcome × Writer × Store → Published
after_append e (ok u, w, s) = (ok e, w, s)
after_append e (err x, w, s) = (err (append_failed x), w, s)

abbrev pub publish_in_epoch : Writer → ℕ → CheckpointRecord → Result Text ℤ → Store → Published
publish_in_epoch w now c (err msg) s = (err (epoch_unreadable msg), w, s)
publish_in_epoch w now c (ok current) s =
    if not (int_eq current c.record_epoch)
    then (err (epoch_fenced c.record_epoch current), w, s)
    else after_append (published w now (entry_of c)) (append w now true (some (entry_of c)) s)

unfoldable pub publish : Writer → ℕ → Bool → Result Text ℤ → CheckpointRecord → Store → Published
publish w now ended answer c s =
    if invalid c
    then (err invalid_record, w, s)
    else (if ended then (err context_ended, w, s) else publish_in_epoch w now c answer s)
