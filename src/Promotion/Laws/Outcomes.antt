-- ===== src/Promotion/Laws/Outcomes.antt =====
-- How `Promote` can end.
use astra_sync.Prelude.{
  ℕ, ℤ, ◌≡◌, ◌⊎◌, List, [], ◌∷◌, ◌++◌, Text, Bool, true, false, Option, none, some, Result, ok, err,
  arith, refl, subst, sym, inl, inr,
}
use astra_sync.Promotion.Record.{Promotion, pending, promotion_failed, failover_complete}
use astra_sync.Promotion.Manager.{
  Services, PromotionError, Call, created, updated, fenced, assigned, wrote_epoch, revalidated,
  recovered, promote_record, create_failed, assign_failed, update_epoch_failed, capability_failed,
  revalidate_failed, recover_failed, fence_failed,
}

-- The calls of a component that may be nil.
abbrev pub fence_calls : Option (Option Text) → ℤ → List Call
fence_calls none e = []
fence_calls (some o) e = fenced e ∷ []

abbrev pub recovery_calls : Option (Option Text) → ℤ → Text → List Call
recovery_calls none e id = []
recovery_calls (some o) e id = recovered e id ∷ []

-- No component that is there fails, and the one that checks the sink is there.
pub record Cooperates (v : Services) (epoch : ℤ) : Type 0 where
  pub creates : v.creation ≡ none
  pub fences : (v.fencer ≡ none) ⊎ (v.fencer ≡ some none)
  pub assigns : v.assignment ≡ ok epoch
  pub writes : v.epoch_update ≡ none
  pub revalidates : v.revalidator ≡ some none
  pub recovers : (v.recovery ≡ none) ⊎ (v.recovery ≡ some none)

abbrev pub Fences : Services → Type 0
Fences v = (v.fencer ≡ none) ⊎ (v.fencer ≡ some none)

-- Whether a new epoch was asked for or written.
abbrev pub touches_epoch : List Call → Bool
touches_epoch [] = false
touches_epoch (assigned ∷ cs) = true
touches_epoch (wrote_epoch a b ∷ cs) = true
touches_epoch (c ∷ cs) = touches_epoch cs

abbrev pub finished_record : Promotion → ℤ → ℕ → Promotion
finished_record p epoch now = record p {
  new_epoch = epoch;
  state = failover_complete;
  completed_at = some now;
}

-- The three ways for a promotion to end.
pub data Ends (v : Services) (current : ℤ) (now : ℕ) (p : Promotion)
    (r : Result PromotionError (Unit {0}) × Promotion × List Call) : Type 0 where
  completes :
      (epoch : ℤ)
      → Cooperates v epoch
      → r.0 ≡ ok tt
      → r.1 ≡ finished_record p epoch now
      → r.2
        ≡ created p
          ∷ (fence_calls v.fencer current
              ++ assigned
                ∷ wrote_epoch current epoch
                ∷ revalidated
                ∷ (recovery_calls v.recovery epoch p.id
                    ++ updated (finished_record p epoch now) ∷ []))
      → Ends v current now p r
  not_created :
      (msg : Text)
      → v.creation ≡ some msg
      → r ≡ (err (create_failed msg), p, created p ∷ [])
      → Ends v current now p r
  stops :
      (e : PromotionError) (calls : List Call)
      → v.creation ≡ none
      → r.0 ≡ err e
      → r.1.state ≡ promotion_failed
      → r.1.completed_at ≡ some now
      → r.2 ≡ calls ++ updated r.1 ∷ []
      → (touches_epoch calls ≡ true → Fences v)
      → Ends v current now p r

services :
    Option (Text → Bool)
    → Result Text (Option Promotion)
    → Result Text ℤ
    → Option Text
    → Option (Option Text)
    → Result Text ℤ
    → Option Text
    → Option (Option Text)
    → Option (Option Text)
    → Services
services s k ce c f a u r y = record {
  standby = s;
  known = k;
  current_epoch = ce;
  creation = c;
  fencer = f;
  assignment = a;
  epoch_update = u;
  revalidator = r;
  recovery = y;
}

after_fence :
    (s : Option (Text → Bool)) (k : Result Text (Option Promotion)) (ce : Result Text ℤ)
    (f : Option (Option Text)) (a : Result Text ℤ) (u : Option Text) (r y : Option (Option Text))
    (current : ℤ) (now : ℕ) (q : Promotion)
    → (f ≡ none) ⊎ (f ≡ some none)
    → let v = services s k ce none f a u r y in
      let p = record q { state = pending } in Ends v current now p (promote_record v current now p)
unfolding services promote_record
after_fence s k ce (some (some m)) a u r y current now q h = absurd (ground arith)
after_fence s k ce none (err m) u r y current now q h =
    stops (assign_failed m) (created (record q { state = pending }) ∷ assigned ∷ []) refl refl refl
      refl refl (λ _. h)
after_fence s k ce none (ok e) (some m) r y current now q h =
    stops (update_epoch_failed m)
      (created (record q { state = pending }) ∷ assigned ∷ wrote_epoch current e ∷ []) refl refl
      refl refl refl (λ _. h)
after_fence s k ce none (ok e) none none y current now q h =
    stops (capability_failed)
      (created (record q { state = pending }) ∷ assigned ∷ wrote_epoch current e ∷ []) refl refl
      refl refl refl (λ _. h)
after_fence s k ce none (ok e) none (some (some m)) y current now q h =
    stops (revalidate_failed m)
      (created (record q { state = pending }) ∷ assigned ∷ wrote_epoch current e ∷ revalidated ∷ [])
      refl refl refl refl refl (λ _. h)
after_fence s k ce none (ok e) none (some none) (some (some m)) current now q h =
    stops (recover_failed m)
      (created (record q { state = pending })
        ∷ assigned
        ∷ wrote_epoch current e
        ∷ revalidated
        ∷ recovered e q.id
        ∷ [])
      refl refl refl refl refl (λ _. h)
after_fence s k ce none (ok e) none (some none) none current now q h =
    completes e
      (record {
        creates = refl;
        fences = h;
        assigns = refl;
        writes = refl;
        revalidates = refl;
        recovers = inl refl;
      })
      refl refl refl
after_fence s k ce none (ok e) none (some none) (some none) current now q h =
    completes e
      (record {
        creates = refl;
        fences = h;
        assigns = refl;
        writes = refl;
        revalidates = refl;
        recovers = inr refl;
      })
      refl refl refl
after_fence s k ce (some none) (err m) u r y current now q h =
    stops (assign_failed m)
      (created (record q { state = pending }) ∷ fenced current ∷ assigned ∷ []) refl refl refl refl
      refl (λ _. h)
after_fence s k ce (some none) (ok e) (some m) r y current now q h =
    stops (update_epoch_failed m)
      (created (record q { state = pending })
        ∷ fenced current
        ∷ assigned
        ∷ wrote_epoch current e
        ∷ [])
      refl refl refl refl refl (λ _. h)
after_fence s k ce (some none) (ok e) none none y current now q h =
    stops (capability_failed)
      (created (record q { state = pending })
        ∷ fenced current
        ∷ assigned
        ∷ wrote_epoch current e
        ∷ [])
      refl refl refl refl refl (λ _. h)
after_fence s k ce (some none) (ok e) none (some (some m)) y current now q h =
    stops (revalidate_failed m)
      (created (record q { state = pending })
        ∷ fenced current
        ∷ assigned
        ∷ wrote_epoch current e
        ∷ revalidated
        ∷ [])
      refl refl refl refl refl (λ _. h)
after_fence s k ce (some none) (ok e) none (some none) (some (some m)) current now q h =
    stops (recover_failed m)
      (created (record q { state = pending })
        ∷ fenced current
        ∷ assigned
        ∷ wrote_epoch current e
        ∷ revalidated
        ∷ recovered e q.id
        ∷ [])
      refl refl refl refl refl (λ _. h)
after_fence s k ce (some none) (ok e) none (some none) none current now q h =
    completes e
      (record {
        creates = refl;
        fences = h;
        assigns = refl;
        writes = refl;
        revalidates = refl;
        recovers = inl refl;
      })
      refl refl refl
after_fence s k ce (some none) (ok e) none (some none) (some none) current now q h =
    completes e
      (record {
        creates = refl;
        fences = h;
        assigns = refl;
        writes = refl;
        revalidates = refl;
        recovers = inr refl;
      })
      refl refl refl

all_cases :
    (s : Option (Text → Bool)) (k : Result Text (Option Promotion)) (ce : Result Text ℤ)
    (c : Option Text) (f : Option (Option Text)) (a : Result Text ℤ) (u : Option Text)
    (r y : Option (Option Text)) (current : ℤ) (now : ℕ) (q : Promotion)
    → let v = services s k ce c f a u r y in
      let p = record q { state = pending } in Ends v current now p (promote_record v current now p)
unfolding services promote_record
all_cases s k ce (some m) f a u r y current now q = not_created m refl refl
all_cases s k ce none none a u r y current now q =
    after_fence s k ce none a u r y current now q (inl refl)
all_cases s k ce none (some none) a u r y current now q =
    after_fence s k ce (some none) a u r y current now q (inr refl)
all_cases s k ce none (some (some m)) a u r y current now q =
    stops (fence_failed m) (created (record q { state = pending }) ∷ fenced current ∷ []) refl refl
      refl refl refl (λ t. ground arith)

-- A pending promotion ends in one of three ways: complete, with every component called in the order
-- fence, epoch, job record, sink, recovery; not stored at all, and still pending; or failed, with
-- that state stored last, and with no epoch asked for or written unless the old one was fenced.
pub promote_record-Ends :
    (v : Services) (current : ℤ) (now : ℕ) (p : Promotion)
    → p.state ≡ pending
    → Ends v current now p (promote_record v current now p)
unfolding services
promote_record-Ends v current now p fresh =
    subst (λ (x : Promotion). Ends v current now x (promote_record v current now x))
      (λ i. record p { state = sym fresh i })
      (all_cases v.standby v.known v.current_epoch v.creation v.fencer v.assignment v.epoch_update
        v.revalidator v.recovery current now p)
