-- ===== src/Job/Laws/Pages.antt =====
-- Listing a namespace: the sort, and the pages that a client walks through.
use Prim.Native.Nat.{min}
use native.Mathlib.Nat.{mod-eq_of_lt}
use mathlib.Core.List.{Perm}
use mathlib.Core.List.Perm
use astra_sync.Prelude.{
  ℕ, zero, suc, pos, text_lt, ◌+◌, ◌-◌, ◌*◌, ◌%◌, ◌^◌, ◌≤◌, ◌<◌, Text, false, leb, List, [], ◌∷◌,
  ◌++◌, length, take, drop, length-drop, Result, ok, ◌>>=◌, ◌≡◌, inl, inr, arith, refl, ap, ◌∙◌,
  Bool-cases,
}
use astra_sync.Job.Error.{Error}
use astra_sync.Job.Model.{Job}
use astra_sync.Job.Memory.{Repository, sort_by_name, in_namespace, slice_page, list_jobs}

-- No job comes before its predecessor.
abbrev pub IsSorted : List Job → Type 0
IsSorted [] = Unit {0}
IsSorted (j ∷ []) = Unit {0}
IsSorted (j ∷ k ∷ js) = (text_lt k.key.key_name j.key.key_name ≡ false) × IsSorted (k ∷ js)

abbrev Starts : Job → List Job → Type 0
Starts k [] = Unit {0}
Starts k (j ∷ js) = text_lt j.key.key_name k.key.key_name ≡ false

module _ {ℓ} {A : Type ℓ} where
  take_nil : (n : ℕ) → take {A = A} n [] ≡ []
  take_nil zero = refl
  take_nil (suc n) = refl

  take-clip : (n : ℕ) (xs : List A) → take (min n (length xs)) xs ≡ take n xs
  take-clip zero xs = let e : min 0 (length xs) ≡ 0 = omega arith in rw e
  take-clip (suc n) [] = take_nil (min (suc n) 0)
  take-clip (suc n) (x ∷ xs) =
      let e : min (suc n) (suc (length xs)) ≡ suc (min n (length xs)) = omega arith in
      rw e (ap (◌∷◌ x) (take-clip n xs))

  drop_all : (n : ℕ) (xs : List A) → length xs ≤ n → drop n xs ≡ []
  drop_all zero [] h = refl
  drop_all (suc n) [] h = refl
  drop_all zero (x ∷ xs) h = absurd (omega arith)
  drop_all (suc n) (x ∷ xs) h = drop_all n xs (omega arith)

  -- The end bound is clipped at the length.
  take-window :
      (b n : ℕ) (xs : List A)
      → b ≤ length xs
      → take (min (b + n) (length xs) - b) (drop b xs) ≡ take n (drop b xs)
  take-window b n xs h =
      let e : min (b + n) (length xs) - b ≡ min n (length (drop b xs)) =
        omega (arith, length-drop b xs) in
      rw e (take-clip n (drop b xs))

-- Where `number * size` fits into an `int`, the page is the stretch of that number, clipped at the end.
pub slice_page_lem :
    (items : List Job) (before size : ℕ)
    → before * size + size < 2 ^ 63
    → slice_page items (suc before) size ≡ ok (take size (drop (before * size) items), length items)
unfolding slice_page
slice_page_lem items before size h =
    let first : ((suc before - 1) * size) % 2 ^ 64 ≡ before * size =
      ap (λ (x : ℕ). (x * size) % 2 ^ 64) (omega arith) ∙ mod-eq_of_lt (omega arith) in
    rw first (elim (Bool-cases (leb (length items) (before * size))) [
      | inl past ↦
          ground (arith, drop_all (before * size) items (ground arith), take_nil {A = Job} size)
      | inr within ↦ ground (arith, take-window (before * size) size items)
    ])

-- The pages 1 to `count`, one after another; a page that fails ends the walk.
pub walk : Repository → Text → ℕ → ℕ → Result Error (List Job)
walk r n size zero = ok []
walk r n size (suc count) = do
  before ← walk r n size count
  page ← list_jobs r n (record { number = pos (suc count); size = pos size })
  ok (before ++ page.0)

abbrev pub listed : Repository → Text → List Job
listed r n = sort_by_name (in_namespace n r)
