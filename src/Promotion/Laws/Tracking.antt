-- ===== src/Promotion/Laws/Tracking.antt =====
-- What the manager tracks of a job from one call of `Promote` to the next.
use astra_sync.Prelude.{
  ℕ, ℤ, ◌≡◌, List, [], ◌∷◌, Text, text_eq_refl, true, false, Option, none, some, Result, ok, err,
  Result-cases, Bool-cases, Option-cases, int_eq, int_eq_iff, arith, refl, ap, ◌∙◌, sym, subst,
  inc64, ◌>>◌, text_eq, text_eq_iff, inl, inr, ◌⊎◌, ◌≢◌,
}
use astra_sync.Promotion.Record.{Promotion, pending, is_complete, new_promotion}
use astra_sync.Promotion.Manager.{
  Services, PromotionError, Call, Manager, Answer, already_promoting, invalid_request,
  not_standby_region, epoch_unreadable, epoch_conflict, promote_record, promote, find_promotion,
  busy, answered, refused_target, bad_request, with_record,
}
use astra_sync.Promotion.Laws.Outcomes.{Ends, completes, not_created, stops, promote_record-Ends}

pub tracked_first :
    (job : Text) (p : Promotion) (m : Manager) → find_promotion job ((job, p) ∷ m) ≡ some p
unfolding find_promotion
tracked_first job p m = rw (text_eq_refl job)

tracked_elsewhere :
    (j job : Text) (p : Promotion) (m : Manager)
    → j ≢ job
    → find_promotion j ((job, p) ∷ m) ≡ find_promotion j m
unfolding find_promotion
tracked_elsewhere j job p m other = elim (Bool-cases (text_eq job j)) [
  | inl same ↦ absurd (other (sym ((text_eq_iff job j).0 same)))
  | inr apart ↦ rw apart refl
]

with_record-tracks :
    (m : Manager) (job : Text) (r : Result PromotionError (Unit {0}) × Promotion × List Call)
    → find_promotion job (with_record m job r).1 ≡ some r.1
with_record-tracks m job (ok u, p, calls) = tracked_first job p m
with_record-tracks m job (err e, p, calls) = tracked_first job p m

-- Once stored, a promotion does not return before it is complete or failed.
promote_record-settles :
    (v : Services) (current : ℤ) (now : ℕ) (p : Promotion)
    → p.state ≡ pending
    → v.creation ≡ none
    → is_complete (promote_record v current now p).1 ≡ true
unfolding is_complete
promote_record-settles v current now p fresh stored =
    elim (promote_record-Ends v current now p fresh) [
      | completes epoch c good record_eq calls ↦ ground (arith, record_eq)
      | not_created msg fails r ↦ absurd (cc)
      | stops e calls made bad state_eq time_eq listed guarded ↦ ground (arith, state_eq)
    ]

new_promotion-pending :
    (job previous target key : Text) (epoch : ℤ) (now : ℕ)
    → (new_promotion job previous target key epoch now).state ≡ pending
unfolding new_promotion
new_promotion-pending job previous target key epoch now = refl

-- The record of a promotion that goes ahead, and what is left of it.
abbrev pub runs_from :
    Services
    → Text
    → Text
    → Text
    → Text
    → ℤ
    → ℕ
    → ℕ
    → Result PromotionError (Unit {0}) × Promotion × List Call
runs_from v region job target key current started ended =
    promote_record v current ended (new_promotion job region target key current started)

-- A call that goes ahead: the job is free, the target stands by, no promotion with this key is known,
-- and the epoch is the one that the operator expects.
pub record GoesAhead (m : Manager) (v : Services) (job target key : Text) (expected : ℤ)
    : Type 0 where
  pub well_asked : bad_request job target key expected ≡ false
  pub stands_by : refused_target v.standby target ≡ false
  pub free : busy (find_promotion job m) ≡ false
  pub unknown : answered v.known ≡ none
  pub epoch_agrees : v.current_epoch ≡ ok expected

-- An answer that comes without a call of the store, the fencer or any later component.
pub data Declines (m : Manager) (v : Services) (job target key : Text) (expected : ℤ) (r : Answer)
    : Type 0 where
  asked_badly :
      bad_request job target key expected ≡ true
      → r ≡ (err invalid_request, m, [])
      → Declines m v job target key expected r
  no_standby :
      refused_target v.standby target ≡ true
      → r ≡ (err not_standby_region, m, [])
      → Declines m v job target key expected r
  in_progress :
      busy (find_promotion job m) ≡ true
      → r ≡ (err already_promoting, m, [])
      → Declines m v job target key expected r
  known_already :
      (p : Promotion)
      → v.known ≡ ok (some p)
      → r ≡ (ok p, m, [])
      → Declines m v job target key expected r
  no_epoch :
      (msg : Text)
      → v.current_epoch ≡ err msg
      → r ≡ (err (epoch_unreadable msg), m, [])
      → Declines m v job target key expected r
  other_epoch :
      (current : ℤ)
      → v.current_epoch ≡ ok current
      → current ≢ expected
      → r ≡ (err epoch_conflict, m, [])
      → Declines m v job target key expected r

answered-some :
    (o : Result Text (Option Promotion)) (p : Promotion) → answered o ≡ some p → o ≡ ok (some p)
answered-some (ok found) p h = ap ok h
answered-some (err msg) p h = absurd (cc)

-- The branches of `Promote`.
pub promote-cases :
    (m : Manager) (v : Services) (region job target key : Text) (expected : ℤ) (started ended : ℕ)
    → let r = promote m v region job target key expected started ended in
      Declines m v job target key expected r
      ⊎ (GoesAhead m v job target key expected
          × (r ≡ with_record m job (runs_from v region job target key expected started ended)))
unfolding promote
promote-cases m v region job target key expected started ended =
    elim (Bool-cases (bad_request job target key expected)) [
      | inl bad ↦ inl (asked_badly bad (rw bad refl))
      | inr good ↦ elim (Bool-cases (refused_target v.standby target)) [
        | inl refused ↦ inl (no_standby refused (rw (good, refused) refl))
        | inr standing ↦ elim (Bool-cases (busy (find_promotion job m))) [
          | inl taken ↦ inl (in_progress taken (rw (good, standing, taken) refl))
          | inr free ↦ elim (Option-cases (answered v.known)) [
            | inr (p, found) ↦ inl (
                known_already p (answered-some v.known p found)
                  (rw (good, standing, free, found) refl))
            | inl fresh ↦ elim (Result-cases v.current_epoch) [
              | inr (msg, unread) ↦
                  inl (no_epoch msg unread (rw (good, standing, free, fresh, unread) refl))
              | inl (current, read) ↦ elim (Bool-cases (int_eq current expected)) [
                | inr other ↦ inl (
                    other_epoch current read (λ e. ground (arith, int_eq_iff current expected))
                      (rw (good, standing, free, fresh, read, other) refl))
                | inl same ↦
                    let agreed : v.current_epoch ≡ ok expected =
                      read ∙ ap ok ((int_eq_iff current expected).0 same) in
                    inr (
                      record {
                        well_asked = good;
                        stands_by = standing;
                        free = free;
                        unknown = fresh;
                        epoch_agrees = agreed;
                      },
                      rw
                          (
                            good,
                            standing,
                            free,
                            fresh,
                            agreed,
                            (int_eq_iff expected expected).1 refl,
                          )
                          refl,
                    )
              ]
            ]
          ]
        ]
      ]
    ]

pub Declines-same :
    (m : Manager) (v : Services) (job target key : Text) (expected : ℤ) (r : Answer)
    → Declines m v job target key expected r
    → r.1 ≡ m
Declines-same m v job target key expected r (asked_badly h e) = ap (λ (x : Answer). x.1) e
Declines-same m v job target key expected r (no_standby h e) = ap (λ (x : Answer). x.1) e
Declines-same m v job target key expected r (in_progress h e) = ap (λ (x : Answer). x.1) e
Declines-same m v job target key expected r (known_already p h e) = ap (λ (x : Answer). x.1) e
Declines-same m v job target key expected r (no_epoch msg h e) = ap (λ (x : Answer). x.1) e
Declines-same m v job target key expected r (other_epoch c h ne e) = ap (λ (x : Answer). x.1) e

-- Whatever the injected components answer, a promotion that the store can create is never left in
-- progress: if the job was free before the call, it is free after it.
pub promote-settles :
    (m : Manager) (v : Services) (region job target key : Text) (expected : ℤ) (started ended : ℕ)
    → v.creation ≡ none
    → busy (find_promotion job m) ≡ false
    → busy (find_promotion job (promote m v region job target key expected started ended).1) ≡ false
promote-settles m v region job target key expected started ended stored free =
    elim (promote-cases m v region job target key expected started ended) [
      | inl declined ↦
          rw
            (Declines-same m v job target key expected
              (promote m v region job target key expected started ended) declined)
            free
      | inr (ahead, result) ↦
          let out = runs_from v region job target key expected started ended in
          let pending_first = new_promotion-pending job region target key expected started in
          rw (
            result,
            with_record-tracks m job out,
            promote_record-settles v expected ended
                (new_promotion job region target key expected started) pending_first stored,
          )
    ]

Declines-silent :
    (m : Manager) (v : Services) (job target key : Text) (expected : ℤ) (r : Answer)
    → Declines m v job target key expected r
    → ¬ GoesAhead m v job target key expected
Declines-silent m v job target key expected r (asked_badly h e) g = cc (g.well_asked)
Declines-silent m v job target key expected r (no_standby h e) g = cc (g.stands_by)
Declines-silent m v job target key expected r (in_progress h e) g = cc (g.free)
Declines-silent m v job target key expected r (known_already p h e) g = cc (g.unknown)
Declines-silent m v job target key expected r (no_epoch msg h e) g = cc (g.epoch_agrees)
Declines-silent m v job target key expected r (other_epoch c h ne e) g = ne (cc (h, g.epoch_agrees))

-- The record that a promotion begins with.
abbrev pub first_record : Text → Text → Text → Text → ℤ → ℕ → Promotion
first_record job region target key expected started = record {
  id = key;
  job_id = job;
  previous_region = region;
  target_region = target;
  idempotency_key = key;
  previous_epoch = expected;
  new_epoch = inc64 expected;
  state = pending;
  error_message = [];
  started_at = started;
  completed_at = none;
}

-- What a promotion that goes ahead returns and leaves behind: `kept` is what the first record has
-- become, and the records of the other jobs are as they were.
pub record Tracks (m : Manager) (v : Services) (region job target key : Text) (expected : ℤ)
    (started ended : ℕ) (r : Answer) : Type 0 where
  pub outcome : Result PromotionError (Unit {0})
  pub kept : Promotion
  pub ends_so :
      Ends v expected ended
        (first_record job region target key expected started)
        (outcome, kept, r.2)
  pub tracked : find_promotion job r.1 ≡ some kept
  pub others_kept : (j : Text) → j ≢ job → find_promotion j r.1 ≡ find_promotion j m
  pub answers : r.0 ≡ (outcome >> ok kept)

with_record-Tracks :
    (m : Manager) (v : Services) (region job target key : Text) (expected : ℤ) (started ended : ℕ)
    (out : Result PromotionError (Unit {0}) × Promotion × List Call)
    → Ends v expected ended (first_record job region target key expected started) out
    → Tracks m v region job target key expected started ended (with_record m job out)
with_record-Tracks m v region job target key expected started ended (ok u, p, calls) how = record {
  outcome = ok u;
  kept = p;
  ends_so = how;
  tracked = tracked_first job p m;
  others_kept = λ j other. tracked_elsewhere j job p m other;
  answers = refl;
}
with_record-Tracks m v region job target key expected started ended (err x, p, calls) how = record {
  outcome = err x;
  kept = p;
  ends_so = how;
  tracked = tracked_first job p m;
  others_kept = λ j other. tracked_elsewhere j job p m other;
  answers = refl;
}

-- `Promote` goes ahead exactly if the request is well formed, the target stands by, the job has no
-- promotion in progress, the key is unknown and the epoch is the expected one. Where it does not, it
-- declines for one of six reasons, with the records as they are and no call that changes state. Where
-- it does, a pending record of the request is created and ends in one of the three ways; what it has
-- become is what the manager tracks of the job after the call and what the caller gets, unless there
-- was an error, which the caller gets then; and the records of the other jobs are as they were.
pub promote-Tracks :
    (m : Manager) (v : Services) (region job target key : Text) (expected : ℤ) (started ended : ℕ)
    → let r = promote m v region job target key expected started ended in
      (Declines m v job target key expected r × (¬ GoesAhead m v job target key expected))
      ⊎ (GoesAhead m v job target key expected
          × Tracks m v region job target key expected started ended r)
unfolding new_promotion
promote-Tracks m v region job target key expected started ended =
    elim (promote-cases m v region job target key expected started ended) [
      | inl declined ↦ inl (
        declined,
        Declines-silent m v job target key expected
            (promote m v region job target key expected started ended) declined,
      )
      | inr (ahead, result) ↦ inr (
        ahead,
        subst (Tracks m v region job target key expected started ended) (sym result) (
            with_record-Tracks m v region job target key expected started ended
              (runs_from v region job target key expected started ended)
              (promote_record-Ends v expected ended
                (first_record job region target key expected started) refl)),
      )
    ]
