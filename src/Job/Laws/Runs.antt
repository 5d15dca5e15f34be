-- ===== src/Job/Laws/Runs.antt =====
-- Histories of one job: any sequence of starts, stops, advances and new specs that are accepted.
use astra_sync.Prelude.{
  ℤ, pos, Bool, true, false, Option, int_lt, ok, ◌≡◌, ◌⊎◌, arith, refl, inl, sym, subst, ◌∙◌,
}
use astra_sync.Job.Error.{State}
use astra_sync.Job.Spec.{Spec}
use astra_sync.Job.Status.{Failure, terminal, failure_bad, Time}
use astra_sync.Job.Model.{Job}
use astra_sync.Job.Lifecycle.{
  request_start, request_stop, advance, replace_spec, allowed_transition,
}
use astra_sync.Job.Laws.Validity.{IsWellFormed}
use astra_sync.Job.Laws.Transitions.{
  HasRoom, request_start-IsWellFormed, advance-IsWellFormed, advance-ok_iff,
}

pub data Step (j : Job) (k : Job) : Type 0 where
  start :
      (now : Time) (changed : Bool) → HasRoom j → request_start j now ≡ ok (k, changed) → Step j k
  stop : (now : Time) (changed : Bool) → request_stop j now ≡ ok (k, changed) → Step j k
  report :
      (supplied : ℤ) (next : State) (f : Option Failure) (now : Time) (changed : Bool)
      → failure_bad f ≡ false
      → advance j supplied next f now ≡ ok (k, changed)
      → Step j k
  respec : (s : Spec) (now : Time) → replace_spec j s now ≡ ok k → Step j k

pub data Run (j : Job) : Job → Type 0 where
  here : Run j j
  next : {k l : Job} → Run j k → Step k l → Run j l

-- What one step may do to the epoch, and to the state within an epoch.
pub record Keeps (j k : Job) : Type 0 where
  pub well_formed : IsWellFormed k.status
  pub epoch_grows : (k.epoch ≡ j.epoch) ⊎ (int_lt j.epoch k.epoch ≡ true)
  pub settled :
      k.epoch ≡ j.epoch
      → terminal j.state ≡ true
      → (k.state ≡ j.state) × (k.end_time ≡ j.end_time) × (k.failure ≡ j.failure)

start-Keeps :
    (j k : Job) (now : Time) (changed : Bool)
    → IsWellFormed j.status
    → HasRoom j
    → request_start j now ≡ ok (k, changed)
    → Keeps j k
unfolding request_start terminal
start-Keeps j k now changed w room h = record {
  well_formed = request_start-IsWellFormed j now k changed w room h;
  epoch_grows = ground arith;
  settled = ground arith;
}

stop-Keeps :
    (j k : Job) (now : Time) (changed : Bool)
    → IsWellFormed j.status
    → request_stop j now ≡ ok (k, changed)
    → Keeps j k
unfolding request_stop terminal
stop-Keeps j k now changed w h = ground arith

terminal-final : (s t : State) → terminal s ≡ true → allowed_transition s t ≡ true → ⊥
unfolding terminal allowed_transition
terminal-final s t h a = ground arith

report-Keeps :
    (j k : Job) (supplied : ℤ) (to : State) (f : Option Failure) (now : Time) (changed : Bool)
    → IsWellFormed j.status
    → failure_bad f ≡ false
    → advance j supplied to f now ≡ ok (k, changed)
    → Keeps j k
report-Keeps j k supplied to f now changed w fb h = record {
  well_formed = advance-IsWellFormed j supplied to f now k changed w fb h;
  epoch_grows = ground (arith, (advance-ok_iff j supplied to f now k changed).0 h);
  settled =
      ground (arith, (advance-ok_iff j supplied to f now k changed).0 h, terminal-final j.state to);
}

respec-Keeps :
    (j k : Job) (s : Spec) (now : Time)
    → IsWellFormed j.status
    → replace_spec j s now ≡ ok k
    → Keeps j k
unfolding replace_spec
respec-Keeps j k s now w h = ground arith

-- One accepted operation keeps the status well formed, never lowers the epoch, and within an epoch
-- never leaves a terminal state or touches its end time and failure.
pub Step-Keeps : {j k : Job} → IsWellFormed j.status → Step j k → Keeps j k
Step-Keeps {j} {k} w (start now changed room h) = start-Keeps j k now changed w room h
Step-Keeps {j} {k} w (stop now changed h) = stop-Keeps j k now changed w h
Step-Keeps {j} {k} w (report supplied to f now changed fb h) =
    report-Keeps j k supplied to f now changed w fb h
Step-Keeps {j} {k} w (respec s now h) = respec-Keeps j k s now w h

abbrev Grows : ℤ → ℤ → Type 0
Grows a b = (b ≡ a) ⊎ (int_lt a b ≡ true)

Grows-trans : (a b c : ℤ) → Grows a b → Grows b c → Grows a c
Grows-trans (pos a) (pos b) (pos c) p q = ground arith
Grows-trans a b c p q = ground arith

Grows-squeeze : (a b c : ℤ) → Grows a b → Grows b c → c ≡ a → (b ≡ a) × (c ≡ b)
Grows-squeeze (pos a) (pos b) (pos c) p q e = ground arith
Grows-squeeze a b c p q e = ground arith

Keeps-trans : {j k l : Job} → Keeps j k → Keeps k l → Keeps j l
Keeps-trans {j} {k} {l} p q = record {
  well_formed = q.well_formed;
  epoch_grows = Grows-trans j.epoch k.epoch l.epoch p.epoch_grows q.epoch_grows;
  settled = λ e t.
      let (first, second) = Grows-squeeze j.epoch k.epoch l.epoch p.epoch_grows q.epoch_grows e in
      let (same, ended, why) = p.settled first t in
      let (same', ended', why') = q.settled second (subst (λ s. terminal s ≡ true) (sym same) t) in
      (same' ∙ same, ended' ∙ ended, why' ∙ why);
}

-- The same of every history.
pub Run-Keeps : {j k : Job} → IsWellFormed j.status → Run j k → Keeps j k
Run-Keeps {j} {k} w here = record {
  well_formed = w;
  epoch_grows = inl refl;
  settled = λ e t. (refl, refl, refl);
}
Run-Keeps {j} {k = l} w (next {k = k} r st) =
    let first = Run-Keeps w r in Keeps-trans first (Step-Keeps first.well_formed st)
