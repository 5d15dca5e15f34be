-- ===== src/Prelude/Maps.antt =====
-- Go maps: a list of keys with their values. The order of the list stands for the order in which a
-- `range` over the map happens to visit it. The keys are of a type with a Boolean equality.
use mathlib.Core.Path.{◌≡◌, refl}
use mathlib.Core.Logic.{◌↔◌}
use mathlib.Core.Bool.{Bool, true}
use mathlib.Core.Option.{Option, none, some}
use mathlib.Core.List.{List, [], ◌∷◌}
use native.Mathlib.Omega.{arith}
use astra_sync.Prelude.Tests.{if◌then◌else◌}
use astra_sync.Prelude.Int.{ℤ, int_eq, int_eq_iff}
use astra_sync.Prelude.Strings.{Text, text_eq, text_eq_iff}

pub record Eq {ℓ} (A : Type ℓ) : Type ℓ where
  pub same : A → A → Bool
  pub same_iff : (a b : A) → (same a b ≡ true) ↔ (a ≡ b)

abbrev pub same {ℓ} : {A : Type ℓ} ⦃e : Eq A⦄ → A → A → Bool
same ⦃e⦄ = e.same

pub same_iff {ℓ} : {A : Type ℓ} ⦃e : Eq A⦄ (a b : A) → (same a b ≡ true) ↔ (a ≡ b)
same_iff ⦃e⦄ = e.same_iff

instance abbrev pub text_key : Eq Text
text_key = record { same = text_eq; same_iff = text_eq_iff }

instance abbrev pub int_key : Eq ℤ
int_key = record { same = int_eq; same_iff = int_eq_iff }

abbrev pub Map {ℓ κ} : Type ℓ → Type κ → Type (ℓ ⊔ κ)
Map K V = List (K × V)

module _ {ℓ κ} {K : Type ℓ} {V : Type κ} ⦃e : Eq K⦄ where
  -- m[k], with a test for its presence
  unfoldable pub at : K → Map K V → Option V
  at k [] = none
  at k ((i, v) ∷ m) = if same i k then some v else at k m

  -- m[k] = v
  unfoldable pub set_at : K → V → Map K V → Map K V
  set_at k v [] = (k, v) ∷ []
  set_at k v ((i, w) ∷ m) = if same i k then (k, v) ∷ m else (i, w) ∷ set_at k v m

  -- delete(m, k)
  unfoldable pub delete_at : K → Map K V → Map K V
  delete_at k [] = []
  delete_at k ((i, v) ∷ m) = if same i k then delete_at k m else (i, v) ∷ delete_at k m

  pub at-nil : (k : K) → at k [] ≡ none
  unfolding at
  at-nil k = refl

  pub at-set_at :
      (k i : K) (v : V) (m : Map K V) → at i (set_at k v m) ≡ (if same k i then some v else at i m)
  unfolding at set_at
  at-set_at k i v [] = refl
  at-set_at k i v ((h, x) ∷ m) =
      ground (arith, same_iff k i, same_iff h k, same_iff h i, at-set_at k i v m)

  pub at-delete_at :
      (k i : K) (m : Map K V) → at i (delete_at k m) ≡ (if same k i then none else at i m)
  unfolding at delete_at
  at-delete_at k i [] = ground arith
  at-delete_at k i ((h, x) ∷ m) =
      ground (arith, same_iff k i, same_iff h k, same_iff h i, at-delete_at k i m)

pub ruleset map_laws = (at-nil, at-set_at, at-delete_at)

-- No key stands twice in the list, as in a map.
module _ {ℓ κ} {K : Type ℓ} {V : Type κ} ⦃e : Eq K⦄ where
  abbrev pub DistinctKeys : Map K V → Type κ
  DistinctKeys [] = Unit {κ}
  DistinctKeys ((k, v) ∷ m) = (at k m ≡ none) × DistinctKeys m

  pub set_at-DistinctKeys :
      (k : K) (v : V) (m : Map K V) → DistinctKeys m → DistinctKeys (set_at k v m)
  unfolding at set_at
  set_at-DistinctKeys k v [] d = (refl, tt)
  set_at-DistinctKeys k v ((i, w) ∷ m) d =
      ground (arith, same_iff i k, same_iff k i, at-set_at k i v m, set_at-DistinctKeys k v m d.1)
