-- ===== src/Promotion/Record.antt =====
-- The promotion record of control-plane/replication/promotion/promotion.go and its state machine. A
-- method under the record's mutex is one step; `now` is the time of the call.
use astra_sync.Prelude.{
  ℕ, ℤ, pos, [], Text, is_empty, codes, Bool, ◌||◌, int_eq, int_le, Option, none, some, inc64,
  if◌then◌else◌, Result, ok, err,
}

-- An `int`: the constants name seven of its values, and a record may hold any other.
abbrev pub PromotionState : Type 0
PromotionState = ℤ

abbrev pub pending : PromotionState
pending = pos 0

abbrev pub epoch_bumped : PromotionState
epoch_bumped = pos 1

abbrev pub epoch_written : PromotionState
epoch_written = pos 2

abbrev pub capability_revalidating : PromotionState
capability_revalidating = pos 3

abbrev pub capability_confirmed : PromotionState
capability_confirmed = pos 4

abbrev pub failover_complete : PromotionState
failover_complete = pos 5

abbrev pub promotion_failed : PromotionState
promotion_failed = pos 6

-- `String`.
unfoldable pub state_text : PromotionState → Text
state_text s =
    if int_eq s pending
    then codes "promotion_pending"
    else (if int_eq s epoch_bumped
        then codes "epoch_bumped"
        else (if int_eq s epoch_written
            then codes "epoch_written"
            else (if int_eq s capability_revalidating
                then codes "capability_revalidating"
                else (if int_eq s capability_confirmed
                    then codes "capability_confirmed"
                    else (if int_eq s failover_complete
                        then codes "failover_complete"
                        else (if int_eq s promotion_failed
                            then codes "promotion_failed"
                            else codes "unknown"))))))

pub record Promotion : Type 0 where
  pub id : Text
  pub job_id : Text
  pub previous_region : Text
  pub target_region : Text
  pub idempotency_key : Text
  pub previous_epoch : ℤ
  pub new_epoch : ℤ
  pub state : PromotionState
  pub error_message : Text
  pub started_at : ℕ
  pub completed_at : Option ℕ

unfoldable pub new_promotion : Text → Text → Text → Text → ℤ → ℕ → Promotion
new_promotion job previous target key epoch now = record {
  id = key;
  job_id = job;
  previous_region = previous;
  target_region = target;
  idempotency_key = key;
  previous_epoch = epoch;
  new_epoch = inc64 epoch;
  state = pending;
  error_message = [];
  started_at = now;
  completed_at = none;
}

pub data TransitionError : Type 0 where
  already_failed : TransitionError
  not_later : PromotionState → PromotionState → TransitionError

abbrev pub is_promotion_failed : PromotionState → Bool
is_promotion_failed s = int_eq s promotion_failed

abbrev pub ends : PromotionState → Bool
ends s = int_eq s promotion_failed || int_eq s failover_complete

abbrev pub moved : Promotion → PromotionState → Text → ℕ → Promotion
moved p s msg now = record p {
  state = s;
  error_message = if is_empty msg then p.error_message else msg;
  completed_at = if ends s then some now else p.completed_at;
}

-- An error leaves the record as it is.
unfoldable pub transition_to :
    Promotion → PromotionState → Text → ℕ → Result TransitionError (Unit {0}) × Promotion
transition_to p s msg now =
    if is_promotion_failed p.state
    then (err already_failed, p)
    else (if int_le s p.state then (err (not_later p.state s), p) else (ok tt, moved p s msg now))

unfoldable pub is_complete : Promotion → Bool
is_complete p = ends p.state

unfoldable pub is_failed : Promotion → Bool
is_failed p = is_promotion_failed p.state

unfoldable pub set_epoch : Promotion → ℤ → Promotion
set_epoch p e = record p { new_epoch = e }
