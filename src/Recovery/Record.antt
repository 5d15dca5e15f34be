-- ===== src/Recovery/Record.antt =====
-- The recovery record of control-plane/replication/recovery/recovery.go and its state machine. A method
-- under the record's mutex is one step; `now` is the time of the call. `ErrorMessage` is kept as the
-- error whose text it holds.
use astra_sync.Prelude.{
  ℕ, ℤ, pos, List, Text, codes, Bool, ◌||◌, int_eq, int_le, Option, none, some, if◌then◌else◌,
  Result, ok, err,
}

pub record CheckpointFile : Type 0 where
  pub file_name : Text
  pub file_uri : Text
  pub file_size : ℤ
  pub file_crc : ℕ

pub record Manifest : Type 0 where
  pub manifest_job : Text
  pub manifest_epoch : ℤ
  pub manifest_sequence : ℤ
  pub manifest_uri : Text
  pub files : List CheckpointFile
  pub manifest_created : ℕ
  pub manifest_crc : ℕ

-- An `int`: the constants name eight of its values, and a record may hold any other.
abbrev pub RecoveryState : Type 0
RecoveryState = ℤ

abbrev pub recovery_pending : RecoveryState
recovery_pending = pos 0

abbrev pub checkpoint_located : RecoveryState
checkpoint_located = pos 1

abbrev pub checkpoint_validated : RecoveryState
checkpoint_validated = pos 2

abbrev pub files_downloading : RecoveryState
files_downloading = pos 3

abbrev pub files_downloaded : RecoveryState
files_downloaded = pos 4

abbrev pub restoring : RecoveryState
restoring = pos 5

abbrev pub recovery_complete : RecoveryState
recovery_complete = pos 6

abbrev pub recovery_failed : RecoveryState
recovery_failed = pos 7

-- `String`.
unfoldable pub recovery_state_text : RecoveryState → Text
recovery_state_text s =
    if int_eq s recovery_pending
    then codes "recovery_pending"
    else (if int_eq s checkpoint_located
        then codes "checkpoint_located"
        else (if int_eq s checkpoint_validated
            then codes "checkpoint_validated"
            else (if int_eq s files_downloading
                then codes "files_downloading"
                else (if int_eq s files_downloaded
                    then codes "files_downloaded"
                    else (if int_eq s restoring
                        then codes "restoring"
                        else (if int_eq s recovery_complete
                            then codes "recovery_complete"
                            else (if int_eq s recovery_failed
                                then codes "recovery_failed"
                                else codes "unknown")))))))

pub data RecoveryError : Type 0 where
  aborted incomplete_dependencies : RecoveryError
  latest_unreadable : Text → RecoveryError
  checkpoint_not_found : RecoveryError
  epoch_mismatch : ℤ → ℤ → RecoveryError
  other_job sequence_mismatch : RecoveryError
  manifest_unfetched manifest_unparsed : Text → RecoveryError
  manifest_differs : RecoveryError
  checkpoint_invalid : Text → RecoveryError
  file_uri_blank : Text → RecoveryError
  file_unfetched : Text → Text → RecoveryError
  file_size_differs file_crc_differs : Text → RecoveryError
  restore_failed : Text → RecoveryError
  from_failed_state : RecoveryError
  not_a_later_state : RecoveryState → RecoveryState → RecoveryError

pub record Recovery : Type 0 where
  pub recovered_job : Text
  pub target_epoch : ℤ
  pub checkpoint : Option Manifest
  pub recovery_state : RecoveryState
  pub recovery_error : Option RecoveryError
  pub recovery_started : ℕ
  pub recovery_completed : Option ℕ

unfoldable pub new_recovery : Text → ℤ → ℕ → Recovery
new_recovery job epoch now = record {
  recovered_job = job;
  target_epoch = epoch;
  checkpoint = none;
  recovery_state = recovery_pending;
  recovery_error = none;
  recovery_started = now;
  recovery_completed = none;
}

abbrev is_failed_state : RecoveryState → Bool
is_failed_state s = int_eq s recovery_failed

abbrev is_end_state : RecoveryState → Bool
is_end_state s = int_eq s recovery_complete || int_eq s recovery_failed

abbrev or_else : Option RecoveryError → Option RecoveryError → Option RecoveryError
or_else (some e) old = some e
or_else none old = old

abbrev pub entered : Recovery → RecoveryState → Option RecoveryError → ℕ → Recovery
entered r s e now = record r {
  recovery_state = s;
  recovery_error = or_else e r.recovery_error;
  recovery_completed = if is_end_state s then some now else r.recovery_completed;
}

-- An error leaves the record as it is.
unfoldable pub enter_state :
    Recovery → RecoveryState → Option RecoveryError → ℕ → Result RecoveryError (Unit {0}) × Recovery
enter_state r s e now =
    if is_failed_state r.recovery_state
    then (err from_failed_state, r)
    else (if int_le s r.recovery_state
        then (err (not_a_later_state r.recovery_state s), r)
        else (ok tt, entered r s e now))

unfoldable pub recovery_is_complete : Recovery → Bool
recovery_is_complete r = is_end_state r.recovery_state

unfoldable pub recovery_is_failed : Recovery → Bool
recovery_is_failed r = is_failed_state r.recovery_state
