-- ===== src/Job/Laws/Transitions.antt =====
-- What each operation of the lifecycle does to a well-formed job.
use astra_sync.Prelude.{
  ℤ, pos, ◌≢◌, Bool, true, false, Option, is_set, int_lt, int_eq_iff, inc64, max_int64, max_int32,
  ok, err, ◌≡◌, ◌↔◌, ◌⊎◌, arith, sym, subst, refl, inl, inr, text_eq_iff,
}
use astra_sync.Job.Error.{
  Error, State, created, initializing, running, canceling, canceled, finished, failed, unsupported,
  cannot_start,
}
use astra_sync.Job.Status.{
  Failure, stopped, executes, terminal, failure_bad, Time, state_eq, active,
}
use astra_sync.Job.Model.{Job}
use astra_sync.Job.Lifecycle.{
  request_start, request_stop, advance, advanced, canceling_job, allowed_transition,
}
use astra_sync.Job.Laws.Validity.{IsWellFormed}

-- The counters have not reached the top of their machine type.
abbrev pub HasRoom : Job → Type 0
HasRoom j =
    (int_lt j.epoch (pos max_int64) ≡ true) × (int_lt j.restart_count (pos max_int32) ≡ true)

-- A well-formed job refuses a start exactly while it is being canceled.
pub request_start-err_iff :
    (j : Job) (now : Time) (e : Error)
    → IsWellFormed j.status
    → (request_start j now ≡ err e) ↔ ((j.state ≡ canceling) × (e ≡ cannot_start canceling))
unfolding request_start
request_start-err_iff j now e w = ground arith

-- A start keeps the status well formed, as long as the counters have room.
pub request_start-IsWellFormed :
    (j : Job) (now : Time) (k : Job) (changed : Bool)
    → IsWellFormed j.status
    → HasRoom j
    → request_start j now ≡ ok (k, changed)
    → IsWellFormed k.status
unfolding request_start terminal
request_start-IsWellFormed j now k changed w room h = ground arith

-- A start that changes the job opens the next epoch.
pub request_start-opens_epoch :
    (j : Job) (now : Time) (k : Job)
    → IsWellFormed j.status
    → HasRoom j
    → request_start j now ≡ ok (k, true)
    → (executes j.state ≡ false)
      × (k.epoch ≡ inc64 j.epoch)
      × (k.state ≡ initializing)
      × (int_lt j.epoch k.epoch ≡ true)
unfolding request_start
request_start-opens_epoch j now k w room h = ground arith

-- A stop of a well-formed job always succeeds.
pub request_stop-succeeds :
    (j : Job) (now : Time)
    → IsWellFormed j.status
    → (k : Job) × (changed : Bool) × (request_stop j now ≡ ok (k, changed))
      × IsWellFormed k.status
      × (k.desired ≡ stopped)
      × (k.epoch ≡ j.epoch)
      × ((changed ≡ true) ↔ (executes j.state ≡ true))
unfolding request_stop terminal
request_stop-succeeds j now w = elim w.desired_fits [
  | inl (runs, wants) ↦
      (canceling_job j now, true, ground arith, ground arith, refl, refl, ground arith)
  | inr (idle, rests) ↦ (j, false, ground arith, w, rests, refl, ground arith)
]

-- The transitions that the controller may report.
pub data Move : State → State → Type 0 where
  begin : Move initializing running
  finish : Move running finished
  cancel : Move canceling canceled
  fail : {s : State} → active s ≡ true → Move s failed

to_Move : (s t : State) → allowed_transition s t ≡ true → Move s t
unfolding allowed_transition active
to_Move initializing running h = begin
to_Move running finished h = finish
to_Move canceling canceled h = cancel
to_Move initializing failed h = fail refl
to_Move running failed h = fail refl
to_Move canceling failed h = fail refl
to_Move s t h = cc

of_Move : {s t : State} → Move s t → allowed_transition s t ≡ true
unfolding allowed_transition active
of_Move begin = refl
of_Move finish = refl
of_Move cancel = refl
of_Move (fail {s} h) = ground arith

-- The code's table of transitions is exactly this diagram.
pub allowed_transition_iff : (s t : State) → (allowed_transition s t ≡ true) ↔ Move s t
allowed_transition_iff s t = (to_Move s t, of_Move)

pub state_eq_iff : (s t : State) → (state_eq s t ≡ true) ↔ (s ≡ t)
unfolding state_eq
state_eq_iff (unsupported s) (unsupported t) = ground (arith, text_eq_iff s t)
state_eq_iff created t = ground arith
state_eq_iff s t = ground arith

-- What an accepted advance says: it was sent for the current epoch, and it either repeats the
-- state or makes an allowed transition, with failure details exactly on a failure.
abbrev pub Advances : Job → ℤ → State → Option Failure → Time → Job → Bool → Type 0
Advances j supplied next f now k changed =
    (supplied ≡ j.epoch)
    × (((next ≡ j.state) × (k ≡ j) × (changed ≡ false))
        ⊎ ((next ≢ j.state)
            × (allowed_transition j.state next ≡ true)
            × (k ≡ advanced j next f now)
            × (changed ≡ true)
            × ((next ≡ failed) ↔ (is_set f ≡ true))))

pub advance-ok_iff :
    (j : Job) (supplied : ℤ) (next : State) (f : Option Failure) (now : Time) (k : Job)
    (changed : Bool)
    → (advance j supplied next f now ≡ ok (k, changed)) ↔ Advances j supplied next f now k changed
unfolding advance
advance-ok_iff j supplied next f now k changed =
    ground (arith, int_eq_iff supplied j.epoch, state_eq_iff next j.state)

pub advanced-IsWellFormed :
    (j : Job) (next : State) (f : Option Failure) (now : Time)
    → IsWellFormed j.status
    → failure_bad f ≡ false
    → (next ≡ failed) ↔ (is_set f ≡ true)
    → allowed_transition j.state next ≡ true
    → IsWellFormed (advanced j next f now).status
unfolding allowed_transition terminal
advanced-IsWellFormed j next f now w fb ff h = ground arith

-- An accepted advance keeps the status well formed, if the failure that comes with it is complete.
pub advance-IsWellFormed :
    (j : Job) (supplied : ℤ) (next : State) (f : Option Failure) (now : Time) (k : Job)
    (changed : Bool)
    → IsWellFormed j.status
    → failure_bad f ≡ false
    → advance j supplied next f now ≡ ok (k, changed)
    → IsWellFormed k.status
advance-IsWellFormed j supplied next f now k changed w fb h =
    let (e, outcome) = (advance-ok_iff j supplied next f now k changed).0 h in
    elim outcome [
      | inl (same, kj, c) ↦ subst (λ (x : Job). IsWellFormed x.status) (sym kj) w
      | inr (moved, allowed, kj, c, ff) ↦
          subst (λ (x : Job). IsWellFormed x.status) (sym kj)
            (advanced-IsWellFormed j next f now w fb ff allowed)
    ]
