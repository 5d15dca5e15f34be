-- ===== src/Promotion/Laws/Blocking.antt =====
-- What becomes of a job whose promotion the store could not create.
use astra_sync.Prelude.{
  ℕ, ℤ, ◌≡◌, ◌∙◌, refl, sym, subst, List, [], ◌∷◌, Text, text_eq, text_eq_iff, true, false, some,
  err, Bool-cases, inl, inr, int_eq_iff, arith,
}
use astra_sync.Promotion.Record.{Promotion, pending, is_complete, new_promotion}
use astra_sync.Promotion.Manager.{
  Services, Manager, Answer, created, create_failed, already_promoting, promote_record, promote,
  find_promotion, busy, refused_target, bad_request,
}
use astra_sync.Promotion.Laws.Tracking.{GoesAhead, Declines-same, promote-Tracks, tracked_first}

-- A call of `Promote`, with what the components answer to it.
pub record Attempt : Type 0 where
  pub answers : Services
  pub region_now : Text
  pub asked_job : Text
  pub asked_target : Text
  pub asked_key : Text
  pub asked_epoch : ℤ
  pub asked_at : ℕ
  pub ended_at : ℕ

abbrev pub attempt : Manager → Attempt → Answer
attempt m a =
    promote m a.answers a.region_now a.asked_job a.asked_target a.asked_key a.asked_epoch a.asked_at
      a.ended_at

-- The records after some calls, one after another.
abbrev pub attempt_all : Manager → List Attempt → Manager
attempt_all m [] = m
attempt_all m (a ∷ as') = attempt_all (attempt m a).1 as'

-- The manager tracks a promotion of the job that is neither complete nor failed.
pub record Blocked (job : Text) (m : Manager) : Type 0 where
  pub left : Promotion
  pub left_tracked : find_promotion job m ≡ some left
  pub left_pending : left.state ≡ pending

Blocked-busy : (job : Text) (m : Manager) → Blocked job m → busy (find_promotion job m) ≡ true
unfolding is_complete
Blocked-busy job m b = rw b.left_tracked (ground (arith, b.left_pending))

attempt-Blocked :
    (job : Text) (m : Manager) (a : Attempt) → Blocked job m → Blocked job (attempt m a).1
attempt-Blocked job m a b =
    elim (promote-Tracks m a.answers a.region_now a.asked_job a.asked_target a.asked_key
      a.asked_epoch a.asked_at a.ended_at) [
        | inl (declined, _) ↦
            subst (Blocked job)
              (sym (
                Declines-same m a.answers a.asked_job a.asked_target a.asked_key a.asked_epoch
                  (attempt m a) declined))
              b
        | inr (ahead, tracks) ↦ elim (Bool-cases (text_eq job a.asked_job)) [
          | inl same ↦
              let busy_job : busy (find_promotion a.asked_job m) ≡ true =
                subst (λ j. busy (find_promotion j m) ≡ true) ((text_eq_iff job a.asked_job).0 same)
                  (Blocked-busy job m b) in
              absurd (cc (busy_job, ahead.free))
          | inr other ↦ record {
            left = b.left;
            left_tracked =
                tracks.others_kept job (λ e. cc (other, (text_eq_iff job a.asked_job).1 e))
                ∙ b.left_tracked;
            left_pending = b.left_pending;
          }
        ]
      ]

attempt_all-Blocked :
    (job : Text) (m : Manager) (as' : List Attempt)
    → Blocked job m
    → Blocked job (attempt_all m as')
attempt_all-Blocked job m [] b = b
attempt_all-Blocked job m (a ∷ as') b =
    attempt_all-Blocked job (attempt m a).1 as' (attempt-Blocked job m a b)

promote_record-unstored :
    (v : Services) (current : ℤ) (now : ℕ) (p : Promotion) (msg : Text)
    → v.creation ≡ some msg
    → promote_record v current now p ≡ (err (create_failed msg), p, created p ∷ [])
unfolding promote_record
promote_record-unstored v current now p msg fails = rw fails refl

-- Where a promotion goes ahead and the store cannot create it.
unstored-Blocked :
    (m : Manager) (v : Services) (region job target key : Text) (expected : ℤ) (started ended : ℕ)
    (msg : Text)
    → GoesAhead m v job target key expected
    → v.creation ≡ some msg
    → let r = promote m v region job target key expected started ended in
      (r.0 ≡ err (create_failed msg)) × Blocked job r.1
unfolding promote is_complete promote_record new_promotion
unstored-Blocked m v region job target key expected started ended msg ahead fails =
    let p = new_promotion job region target key expected started in
    let first : promote m v region job target key expected started ended
        ≡ (err (create_failed msg), (job, p) ∷ m, created p ∷ []) =
      rw
        (
          ahead.well_asked,
          ahead.stands_by,
          ahead.free,
          ahead.unknown,
          ahead.epoch_agrees,
          (int_eq_iff expected expected).1 refl,
          promote_record-unstored v expected ended p msg fails,
        )
        refl in
    rw first (refl, record { left = p; left_tracked = tracked_first job p m; left_pending = refl })

-- Where a promotion goes ahead and the store cannot create it, the call fails. Whatever calls of
-- Promote the manager gets after that, for any jobs and with any answers of the components, it still
-- tracks a pending promotion of the job, and every well-formed request for the job to a standby
-- region, whatever its key, is refused as one that is in progress and changes nothing.
pub promote-blocks :
    (m : Manager) (v : Services) (region job target key : Text) (expected : ℤ) (started ended : ℕ)
    (msg : Text) (later : List Attempt) (v' : Services) (region' target' key' : Text)
    (expected' : ℤ) (started' ended' : ℕ)
    → GoesAhead m v job target key expected
    → v.creation ≡ some msg
    → bad_request job target' key' expected' ≡ false
    → refused_target v'.standby target' ≡ false
    → let r = promote m v region job target key expected started ended in
      let m' = attempt_all r.1 later in
      (r.0 ≡ err (create_failed msg))
      × Blocked job m'
      × (promote m' v' region' job target' key' expected' started' ended'
          ≡ (err already_promoting, m', []))
unfolding promote
promote-blocks m v region job target key expected started ended msg later v' region' target' key'
      expected' started' ended' ahead fails good standing =
    let (failed, left) =
      unstored-Blocked m v region job target key expected started ended msg ahead fails in
    let r = promote m v region job target key expected started ended in
    let blocked = attempt_all-Blocked job r.1 later left in
    (failed, blocked, rw (good, standing, Blocked-busy job (attempt_all r.1 later) blocked) refl)
