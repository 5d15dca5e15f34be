-- ===== src/Promotion/Tests.antt =====
-- The theorems on promotions at concrete records and services.
use astra_sync.Prelude.{
  ◌+◌, pos, ◌≡◌, ◌⊎◌, All, map, arith, List, [], ◌∷◌, Text, text_eq, codes, false, none, some, ok,
  err, refl,
}
use astra_sync.Promotion.Record.{
  Promotion, PromotionState, pending, epoch_bumped, epoch_written, promotion_failed,
  capability_confirmed,
}
use astra_sync.Promotion.Manager.{
  Services, promote, promote_record, find_promotion, busy, refused_target, create_failed,
  already_promoting,
}
use astra_sync.Promotion.Laws.Transitions.{Request, request_all, Between, request_all-bounded}
use astra_sync.Promotion.Laws.Outcomes.{Ends, promote_record-Ends}
use astra_sync.Promotion.Laws.Tracking.{
  Declines, GoesAhead, Tracks, promote-Tracks, promote-settles,
}
use astra_sync.Promotion.Laws.Blocking.{Attempt, attempt_all, Blocked, promote-blocks}

abbrev job : Text
job = codes "orders"

abbrev west : Text
west = codes "west"

abbrev request_key : Text
request_key = codes "promote-0001-0001"

abbrev next_key : Text
next_key = codes "promote-0001-0002"

-- Every component is there and works; the sink check is the last but one.
abbrev healthy : Services
healthy = record {
  standby = some (text_eq west);
  known = ok none;
  current_epoch = ok (pos 4);
  creation = none;
  fencer = some none;
  assignment = ok (pos 5);
  epoch_update = none;
  revalidator = some none;
  recovery = some none;
}

abbrev storeless : Services
storeless = record healthy { creation = some (codes "no store") }

abbrev fresh_promotion : Promotion
fresh_promotion = record {
  id = request_key;
  job_id = job;
  previous_region = codes "east";
  target_region = west;
  idempotency_key = request_key;
  previous_epoch = pos 4;
  new_epoch = pos 5;
  state = pending;
  error_message = [];
  started_at = 10;
  completed_at = none;
}

abbrev request_of : PromotionState → Request
request_of s = record { target = s; message = []; time = 20 }

abbrev some_requests : List Request
some_requests =
    request_of epoch_written
    ∷ request_of epoch_bumped
    ∷ request_of promotion_failed
    ∷ request_of capability_confirmed
    ∷ []

requests_named : All (λ (r : Request). Between 0 6 r.target) some_requests
requests_named = (
  (2, refl, omega arith, omega arith),
  (
    (1, refl, omega arith, omega arith),
    ((6, refl, omega arith, omega arith), ((4, refl, omega arith, omega arith), tt)),
  ),
)

request_all-bounded_example :
    let (last, accepted) = request_all fresh_promotion some_requests in
    Between (0 + accepted) 6 last.state
request_all-bounded_example =
    request_all-bounded 6 0 fresh_promotion some_requests refl (omega arith) requests_named

promote_record-Ends_example :
    Ends healthy (pos 4) 20 fresh_promotion (promote_record healthy (pos 4) 20 fresh_promotion)
promote_record-Ends_example = promote_record-Ends healthy (pos 4) 20 fresh_promotion refl

promote-Tracks_example :
    let r = promote [] healthy (codes "east") job west request_key (pos 4) 10 20 in
    (Declines [] healthy job west request_key (pos 4) r
      × (¬ GoesAhead [] healthy job west request_key (pos 4)))
    ⊎ (GoesAhead [] healthy job west request_key (pos 4)
        × Tracks [] healthy (codes "east") job west request_key (pos 4) 10 20 r)
promote-Tracks_example = promote-Tracks [] healthy (codes "east") job west request_key (pos 4) 10 20

untracked : busy (find_promotion job []) ≡ false
unfolding find_promotion
untracked = refl

promote-settles_example :
    busy
      (find_promotion job (promote [] healthy (codes "east") job west request_key (pos 4) 10 20).1)
    ≡ false
promote-settles_example =
    promote-settles [] healthy (codes "east") job west request_key (pos 4) 10 20 refl untracked

first_GoesAhead : GoesAhead [] storeless job west request_key (pos 4)
unfolding text_eq
first_GoesAhead = record {
  well_asked = refl;
  stands_by = refl;
  free = untracked;
  unknown = refl;
  epoch_agrees = refl;
}

west_stands_by : refused_target healthy.standby west ≡ false
unfolding text_eq
west_stands_by = refl

-- In between, the job is asked for again and another job is promoted.
abbrev later_attempts : List Attempt
later_attempts =
    map
      (λ j. record {
        answers = healthy;
        region_now = codes "east";
        asked_job = j;
        asked_target = west;
        asked_key = next_key;
        asked_epoch = pos 4;
        asked_at = 25;
        ended_at = 26;
      })
      (job ∷ codes "invoices" ∷ [])

promote-blocks_example :
    let r = promote [] storeless (codes "east") job west request_key (pos 4) 10 20 in
    let m' = attempt_all r.1 later_attempts in
    (r.0 ≡ err (create_failed (codes "no store")))
    × Blocked job m'
    × (promote m' healthy (codes "east") job west next_key (pos 4) 30 40
        ≡ (err already_promoting, m', []))
promote-blocks_example =
    promote-blocks [] storeless (codes "east") job west request_key (pos 4) 10 20 (codes "no store")
      later_attempts healthy (codes "east") west next_key (pos 4) 30 40 first_GoesAhead refl refl
      west_stands_by
