-- ===== src/Job/Laws/Reports.antt =====
-- What the controller may report of a job, and what the job is then.
use astra_sync.Prelude.{
  ℤ, Bool, true, false, Option, none, some, is_set, if◌then◌else◌, ok, ◌≡◌, ◌≢◌, ◌↔◌, ◌⊎◌, inl, inr,
  refl, ◌∙◌, sym,
}
use astra_sync.Job.Error.{State, failed}
use astra_sync.Job.Status.{Failure, Time, stopped, is_running, terminal}
use astra_sync.Job.Model.{Job}
use astra_sync.Job.Lifecycle.{advance, advanced}
use astra_sync.Job.Laws.Transitions.{
  Move, begin, finish, cancel, fail, Advances, advance-ok_iff, allowed_transition_iff,
}

-- The job after a move. RUNNING is the one state that a move leads to and a job is not over in.
abbrev pub after_move : Job → State → Option Failure → Time → Job
after_move j next f now = record {
  key = j.key;
  uid = j.uid;
  version = j.version;
  spec = j.spec;
  status = record {
    desired = if is_running next then j.desired else stopped;
    state = next;
    epoch = j.epoch;
    restart_count = j.restart_count;
    start_time = j.start_time;
    end_time = if is_running next then none else some now;
    last_checkpoint = j.last_checkpoint;
    failure = f;
  };
  created_at = j.created_at;
  updated_at = now;
}

advanced-after_move :
    (j : Job) {s next : State} (f : Option Failure) (now : Time)
    → Move s next
    → advanced j next f now ≡ after_move j next f now
unfolding terminal
advanced-after_move j f now begin = refl
advanced-after_move j f now finish = refl
advanced-after_move j f now cancel = refl
advanced-after_move j f now (fail h) = refl

-- What an accepted report says and does.
abbrev pub Reports : Job → ℤ → State → Option Failure → Time → Job → Bool → Type 0
Reports j supplied next f now k changed =
    (supplied ≡ j.epoch)
    × (((next ≡ j.state) × (k ≡ j) × (changed ≡ false))
        ⊎ ((next ≢ j.state)
            × Move j.state next
            × (k ≡ after_move j next f now)
            × (changed ≡ true)
            × ((next ≡ failed) ↔ (is_set f ≡ true))))

-- A report is accepted exactly if it was sent for the current epoch and either repeats the state,
-- changing nothing, or makes a move of the diagram (INITIALIZING to RUNNING, RUNNING to FINISHED,
-- CANCELING to CANCELED, an active state to FAILED), with failure details exactly on a failure. After
-- a move the job has the new state and details and the time of the report; one that runs has no end
-- time and is desired as before, any other is over at that time and no longer desired; and all else
-- is as it was.
pub advance-Reports :
    (j : Job) (supplied : ℤ) (next : State) (f : Option Failure) (now : Time) (k : Job)
    (changed : Bool)
    → (advance j supplied next f now ≡ ok (k, changed)) ↔ Reports j supplied next f now k changed
advance-Reports j supplied next f now k changed = (to, of)
  where
    table :
        (advance j supplied next f now ≡ ok (k, changed)) ↔ Advances j supplied next f now k changed
    table = advance-ok_iff j supplied next f now k changed

    to : advance j supplied next f now ≡ ok (k, changed) → Reports j supplied next f now k changed
    to h =
        let (epoch, outcome) = table.0 h in
        (
          epoch,
          elim outcome [
            | inl same ↦ inl same
            | inr (other, allowed, is_k, c, ff) ↦
                let move = (allowed_transition_iff j.state next).0 allowed in
                inr (other, move, is_k ∙ advanced-after_move j f now move, c, ff)
          ],
        )

    of : Reports j supplied next f now k changed → advance j supplied next f now ≡ ok (k, changed)
    of (epoch, inl same) = table.1 (epoch, inl same)
    of (epoch, inr (other, move, is_k, c, ff)) = table.1 (
      epoch,
      inr (
        other,
        (allowed_transition_iff j.state next).1 move,
        is_k ∙ sym (advanced-after_move j f now move),
        c,
        ff,
      ),
    )
