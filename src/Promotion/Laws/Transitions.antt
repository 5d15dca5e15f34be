-- ===== src/Promotion/Laws/Transitions.antt =====
-- The state machine of a promotion record.
use astra_sync.Prelude.{
  ℕ, ℤ, pos, suc, ◌+◌, ◌≤◌, ◌<◌, ◌≡◌, ◌∙◌, ◌≢◌, ◌⊎◌, inl, inr, ◌↔◌, true, List, [], ◌∷◌, All, Text,
  Result, ok, err, int_lt, int_eq_iff, arith,
}
use astra_sync.Promotion.Record.{Promotion, PromotionState, promotion_failed, transition_to}

-- A transition is accepted exactly from a state that is not the failed one to a later state.
pub transition_to-ok_iff :
    (p : Promotion) (s : PromotionState) (msg : Text) (now : ℕ)
    → ((transition_to p s msg now).0 ≡ ok tt)
      ↔ ((p.state ≢ promotion_failed) × (int_lt p.state s ≡ true))
unfolding transition_to
transition_to-ok_iff p s msg now = ground (arith, int_eq_iff p.state promotion_failed)

pub record Request : Type 0 where
  pub target : PromotionState
  pub message : Text
  pub time : ℕ

abbrev pub count_ok {ℓ κ} : {E : Type ℓ} {A : Type κ} → Result E A → ℕ → ℕ
count_ok (ok a) n = suc n
count_ok (err e) n = n

-- Any requests, one after another: the record that is left, and how many were accepted.
pub request_all : Promotion → List Request → Promotion × ℕ
request_all p [] = (p, 0)
request_all p (r ∷ rs) =
    let (answer, p') = transition_to p r.target r.message r.time in
    let (last, n) = request_all p' rs in (last, count_ok answer n)

-- The states from `low` to `top`.
abbrev pub Between : ℕ → ℕ → PromotionState → Type 0
Between low top s = (k : ℕ) × (s ≡ pos k) × (low ≤ k) × (k ≤ top)

-- One request: the record keeps its state, or goes over to the one that is asked for.
transition_to-cases :
    (p : Promotion) (s : PromotionState) (msg : Text) (now n : ℕ)
    → let (answer, q) = transition_to p s msg now in
      ((q.state ≡ p.state) × (count_ok answer n ≡ n))
      ⊎ ((q.state ≡ s) × (int_lt p.state s ≡ true) × (count_ok answer n ≡ suc n))
unfolding transition_to
transition_to-cases p s msg now n = ground arith

later_number : (k t : ℕ) (a b : ℤ) → a ≡ pos k → b ≡ pos t → int_lt a b ≡ true → k < t
later_number k t a b at_k at_t h = ground (arith, at_k, at_t, h)

-- A record in a state of the numbers up to `top` that is only asked for such states accepts no more
-- requests than there are numbers after its own, and never goes back.
pub request_all-bounded :
    (top k : ℕ) (p : Promotion) (rs : List Request)
    → p.state ≡ pos k
    → k ≤ top
    → All (λ (r : Request). Between 0 top r.target) rs
    → let (last, accepted) = request_all p rs in Between (k + accepted) top last.state
unfolding request_all
request_all-bounded top k p [] at_k below asked = (k, at_k, omega arith, below)
request_all-bounded top k p (r ∷ rs) at_k below ((t, at_t, l, u), asked) =
    let q = (transition_to p r.target r.message r.time).1 in
    let n = (request_all q rs).1 in
    elim (transition_to-cases p r.target r.message r.time n) [
      | inl (stays, same) ↦ rw same (request_all-bounded top k q rs (stays ∙ at_k) below asked)
      | inr (moves, later, more) ↦
          let (m, at_m, low, high) = request_all-bounded top t q rs (moves ∙ at_t) u asked in
          (
            m,
            at_m,
            omega (arith, more, low, later_number k t p.state r.target at_k at_t later),
            high,
          )
    ]
