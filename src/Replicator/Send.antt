-- ===== src/Replicator/Send.antt =====
-- `sendWithRetry` of control-plane/replication/runtime/replicator.go. `attempts` says how the sender
-- answers the calls to come; past its end every call succeeds. The durations of the waits are left
-- out; a wait that the context ends is part of the attempt.
use astra_sync.Prelude.{
  ℕ, ℤ, List, [], ◌∷◌, Text, Bool, true, false, Option, none, some, if◌then◌else◌, Result, ok, err,
}
use astra_sync.Prelude.Exec.{Exec}

pub record LogEntry : Type 0 where
  pub log_sequence : ℤ
  pub log_region : Text
  pub log_epoch : ℤ
  pub log_uri : Text
  pub log_job : Text
  pub log_time : ℕ
  pub log_crc : ℕ

-- The status codes of gRPC that the code names, and the others.
pub data Code : Type 0 where
  unknown canceled invalid_argument already_exists permission_denied unauthenticated
        failed_precondition :
      Code
  resource_exhausted aborted deadline_exceeded unavailable : Code
  other_code : ℕ → Code

unfoldable pub retryable : Code → Bool
retryable unknown = true
retryable resource_exhausted = true
retryable aborted = true
retryable deadline_exceeded = true
retryable unavailable = true
retryable _ = false

-- A refused attempt, and whether the wait after it is cut off.
pub data Attempt : Type 0 where
  accepted : Attempt
  refused : Code → Bool → Attempt

pub data ReplicatorError : Type 0 where
  negative_start : ReplicatorError
  unreadable : Text → ReplicatorError
  sequence_gap : ℤ → ReplicatorError
  not_increasing : ReplicatorError
  nil_dereference : ReplicatorError
  encoding_failed : ℤ → Text → ReplicatorError
  nil_event : ℤ → ReplicatorError
  send_failed : ℤ → Code → ReplicatorError
  wait_ended : ReplicatorError
  acknowledge_failed : ℤ → ReplicatorError

-- The loop of `sendWithRetry`; the attempts that are left.
unfoldable pub send_loop : ℤ → List Attempt → Result ReplicatorError (Unit {0}) × List Attempt
send_loop n [] = (ok tt, [])
send_loop n (accepted ∷ more) = (ok tt, more)
send_loop n (refused c ends ∷ more) =
    let again = send_loop n more in
    if retryable c
    then (if ends then (err wait_ended, more) else again)
    else (err (send_failed n c), more)

-- `waiting` and `acks` are what is to come: the sender's answers, and whether each call of the
-- acknowledge callback, if there is one, succeeds.
pub record World : Type 0 where
  pub since : ℤ
  pub attempts : List Attempt
  pub acks : Option (List Bool)

pub data Sent : Type 0 where
  sent : ℤ → Sent
  acknowledged : ℤ → Sent

abbrev pub Replicate : Type 0
Replicate = Exec ReplicatorError World Sent (Unit {0})

-- A delivery is listed once the sender has accepted it.
abbrev pub delivery :
    LogEntry
    → World
    → Result ReplicatorError (Unit {0}) × List Attempt
    → Result ReplicatorError (Unit {0}) × World × List Sent
delivery e w (ok u, more) = (ok u, record w { attempts = more }, sent e.log_sequence ∷ [])
delivery e w (err x, more) = (err x, record w { attempts = more }, [])

module _ {Event : Type 0} (encode : LogEntry → Result Text (Option Event)) where
  abbrev pub send_encoded : LogEntry → Result Text (Option Event) → Replicate
  send_encoded e (err msg) w = (err (encoding_failed e.log_sequence msg), w, [])
  send_encoded e (ok none) w = (err (nil_event e.log_sequence), w, [])
  send_encoded e (ok (some event)) w = delivery e w (send_loop e.log_sequence w.attempts)

  unfoldable pub send_with_retry : LogEntry → Replicate
  send_with_retry e w = send_encoded e (encode e) w
