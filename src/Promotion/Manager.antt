-- ===== src/Promotion/Manager.antt =====
-- `Promote` of control-plane/replication/promotion/promotion.go. The components that a deployment
-- injects are `Services`: what each of their calls returns, in the run at hand. A call that is made is
-- listed with its arguments. Metrics and log lines are left out.
use astra_sync.Prelude.{
  ℕ, ℤ, List, [], ◌∷◌, length, Text, text_eq, is_empty, codes, Bool, false, not, ◌||◌, ltb, Option,
  none, some, is_neg, int_eq, if◌then◌else◌, Result, ok, err,
}
use astra_sync.Prelude.Exec.{Exec, ◌>>=◌, ◌>>◌, pure, throw}
use astra_sync.Promotion.Record.{
  Promotion, PromotionState, TransitionError, epoch_bumped, epoch_written, capability_revalidating,
  capability_confirmed, failover_complete, promotion_failed, new_promotion, transition_to,
  is_complete, set_epoch,
}

pub data PromotionError : Type 0 where
  invalid_request not_standby_region already_promoting epoch_conflict capability_failed :
      PromotionError
  transition_failed : TransitionError → PromotionError
  epoch_unreadable create_failed fence_failed assign_failed update_epoch_failed revalidate_failed
        recover_failed :
      Text → PromotionError

-- What `err.Error()` gives for the error of an injected component, and for the sentinel.
abbrev capability_failed_text : Text
capability_failed_text = codes "promotion: sink capability revalidation failed"

pub data Call : Type 0 where
  created updated : Promotion → Call
  fenced : ℤ → Call
  assigned : Call
  wrote_epoch : ℤ → ℤ → Call
  revalidated : Call
  recovered : ℤ → Text → Call

-- `none` is a component that is nil, where the code allows that; `some e` of an outcome is an error.
pub record Services : Type 0 where
  pub standby : Option (Text → Bool)
  pub known : Result Text (Option Promotion)
  pub current_epoch : Result Text ℤ
  pub creation : Option Text
  pub fencer : Option (Option Text)
  pub assignment : Result Text ℤ
  pub epoch_update : Option Text
  pub revalidator : Option (Option Text)
  pub recovery : Option (Option Text)

abbrev pub Step : Type 0 → Type 0
Step A = Exec PromotionError Promotion Call A

-- A call is listed whether it succeeds or not.
abbrev pub listed_call : Call → Step (Unit {0})
listed_call c p = (ok tt, p, c ∷ [])

abbrev moved_result :
    Result TransitionError (Unit {0}) × Promotion
    → Result PromotionError (Unit {0}) × Promotion × List Call
moved_result (ok u, p) = (ok u, p, [])
moved_result (err e, p) = (err (transition_failed e), p, [])

unfoldable pub to_state : PromotionState → ℕ → Step (Unit {0})
unfolding transition_to
to_state s now p = moved_result (transition_to p s [] now)

-- The record is marked as failed and stored, and the error goes to the caller.
unfoldable pub fail_with : {A : Type 0} → Text → PromotionError → ℕ → Step A
fail_with msg e now p =
    let q = (transition_to p promotion_failed msg now).1 in (err e, q, updated q ∷ [])

abbrev must : Option Text → (Text → PromotionError) → ℕ → Step (Unit {0})
must none e now = pure tt
must (some msg) e now = fail_with msg (e msg) now

abbrev fence_with : Option (Option Text) → ℤ → ℕ → Step (Unit {0})
fence_with none current now = pure tt
fence_with (some outcome) current now =
    listed_call (fenced current) >> must outcome fence_failed now

abbrev assign_with : Result Text ℤ → ℕ → Step ℤ
assign_with (ok e) now = listed_call assigned >> pure e
assign_with (err msg) now = listed_call assigned >> fail_with msg (assign_failed msg) now

abbrev revalidate_with : Option (Option Text) → ℕ → Step (Unit {0})
revalidate_with none now = fail_with capability_failed_text capability_failed now
revalidate_with (some outcome) now = listed_call revalidated >> must outcome revalidate_failed now

abbrev recover_with : Option (Option Text) → ℤ → ℕ → Step (Unit {0})
recover_with none epoch now p = (ok tt, p, [])
recover_with (some outcome) epoch now p =
    (listed_call (recovered epoch p.id) >> must outcome recover_failed now) p

abbrev record_epoch : ℤ → Step (Unit {0})
record_epoch e p = (ok tt, set_epoch p e, [])

abbrev list_created : Step (Unit {0})
list_created p = (ok tt, p, created p ∷ [])

-- The store's answer to the last update is only logged.
abbrev list_updated : Step (Unit {0})
list_updated p = (ok tt, p, updated p ∷ [])

-- An error of `store.Create` returns at once: the record is neither failed nor stored.
abbrev create_with : Option Text → Step (Unit {0})
create_with none = list_created
create_with (some msg) = list_created >> throw (create_failed msg)

-- `Promote` once the record exists.
unfoldable pub promote_record : Services → ℤ → ℕ → Step (Unit {0})
unfolding to_state fail_with set_epoch
promote_record v current now = do
  create_with v.creation
  to_state epoch_bumped now
  fence_with v.fencer current now
  epoch ← assign_with v.assignment now
  record_epoch epoch
  to_state epoch_written now
  listed_call (wrote_epoch current epoch)
  must v.epoch_update update_epoch_failed now
  to_state capability_revalidating now
  revalidate_with v.revalidator now
  to_state capability_confirmed now
  recover_with v.recovery epoch now
  to_state failover_complete now
  list_updated

-- The records by job: the record of the latest promotion of each.
abbrev pub Manager : Type 0
Manager = List (Text × Promotion)

unfoldable pub find_promotion : Text → Manager → Option Promotion
find_promotion j [] = none
find_promotion j ((i, p) ∷ m) = if text_eq i j then some p else find_promotion j m

abbrev pub busy : Option Promotion → Bool
busy none = false
busy (some p) = not (is_complete p)

abbrev pub answered : Result Text (Option Promotion) → Option Promotion
answered (ok found) = found
answered (err msg) = none

abbrev pub refused_target : Option (Text → Bool) → Text → Bool
refused_target none target = false
refused_target (some standby) target = not (standby target)

abbrev pub bad_request : Text → Text → Text → ℤ → Bool
bad_request job target key expected =
    is_empty job
    || (is_empty target || (ltb (length key) 16 || (ltb 128 (length key) || is_neg expected)))

abbrev pub Answer : Type 0
Answer = Result PromotionError Promotion × Manager × List Call

abbrev pub with_record :
    Manager → Text → Result PromotionError (Unit {0}) × Promotion × List Call → Answer
with_record m job (ok u, p, calls) = (ok p, (job, p) ∷ m, calls)
with_record m job (err e, p, calls) = (err e, (job, p) ∷ m, calls)

abbrev pub start_promotion :
    Manager → Services → Text → Text → Text → Text → ℤ → ℕ → ℕ → Result Text ℤ → Answer
start_promotion m v region job target key expected started ended (err msg) =
    (err (epoch_unreadable msg), m, [])
start_promotion m v region job target key expected started ended (ok current) =
    if not (int_eq current expected)
    then (err epoch_conflict, m, [])
    else with_record m job
        (promote_record v current ended (new_promotion job region target key current started))

abbrev pub resume_or_start :
    Manager → Services → Text → Text → Text → Text → ℤ → ℕ → ℕ → Option Promotion → Answer
resume_or_start m v region job target key expected started ended (some existing) =
    (ok existing, m, [])
resume_or_start m v region job target key expected started ended none =
    start_promotion m v region job target key expected started ended v.current_epoch

-- `region` is the configured current region; `started` and `ended` are the times that the record keeps.
unfoldable pub promote : Manager → Services → Text → Text → Text → Text → ℤ → ℕ → ℕ → Answer
promote m v region job target key expected started ended =
    if bad_request job target key expected
    then (err invalid_request, m, [])
    else (if refused_target v.standby target
        then (err not_standby_region, m, [])
        else (if busy (find_promotion job m)
            then (err already_promoting, m, [])
            else resume_or_start m v region job target key expected started ended
                (answered v.known)))
