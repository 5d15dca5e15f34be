-- ===== src/Topology/Laws/Regions.antt =====
-- What a list of regions that passes the checks looks like, and what the lookups find in it.
use astra_sync.Prelude.{
  ℕ, ◌+◌, pos, Text, text_eq, text_eq_iff, text_eq_refl, true, false, not, ◌&&◌, ◌||◌, List, [],
  ◌∷◌, length, ltb, ◌==◌, is_neg, is_zero, is_positive, if◌then◌else◌, ok, err, check-passes,
  >>=-passes, ◌≡◌, ◌⊎◌, inl, inr, refl, sym, ap, ◌∙◌, subst, arith, Bool-cases,
}
use astra_sync.Topology.Config.{
  region_not_found, name_and_role_required, duplicate_region, unknown_role, endpoints_required,
  no_regions, no_primary_region, multiple_primary, negative_threshold, Region, RegionRole, primary,
  standby, other_role, known_role, unnamed, Topology, is_primary, is_standby, seen_name,
  endpoint_missing, check_regions, validate_topology,
}
use astra_sync.Topology.Loader.{find_region, find_primary, any_named}

abbrev pub names : List Region → List Text
names [] = []
names (r ∷ rs) = r.region_name ∷ names rs

unfoldable pub primaries : List Region → ℕ
primaries [] = 0
primaries (r ∷ rs) = (if is_primary r.role then 1 else 0) + primaries rs

-- No two regions have the same name, and each is a primary or a standby region with its endpoints.
abbrev pub IsUsable : List Region → Type 0
IsUsable [] = Unit {0}
IsUsable (r ∷ rs) =
    (seen_name r.region_name (names rs) ≡ false)
    × ((is_primary r.role || is_standby r.role) ≡ true)
    × (endpoint_missing r ≡ false)
    × IsUsable rs

known_cases : (k : RegionRole) → not (known_role k) ≡ false → (is_primary k || is_standby k) ≡ true
known_cases primary h = refl
known_cases standby h = refl
known_cases (other_role s) h = absurd (cc)

check_regions-ok :
    (seen : List Text) (n : ℕ) (rs : List Region) (k : ℕ)
    → check_regions seen n rs ≡ ok k
    → (k ≡ n + primaries rs)
      × IsUsable rs
      × ((m : Text) → seen_name m seen ≡ true → seen_name m (names rs) ≡ false)
unfolding check_regions primaries seen_name
check_regions-ok seen n [] k h = (ground arith, tt, λ m s. refl)
check_regions-ok seen n (r ∷ rs) k h =
    let next = if is_primary r.role then n + 1 else n in
    let rest = check_regions (r.region_name ∷ seen) next rs in
    let (named, h₁) = check-passes (unnamed r) name_and_role_required _ h in
    let (new, h₂) =
      check-passes (seen_name r.region_name seen) (duplicate_region r.region_name) _ h₁ in
    let (known, h₃) = check-passes (not (known_role r.role)) (unknown_role r.region_name) _ h₂ in
    let (reached, h₄) = check-passes (endpoint_missing r) endpoints_required rest h₃ in
    let (count, usable, avoided) = check_regions-ok (r.region_name ∷ seen) next rs k h₄ in
    (
      ground (arith, count),
      (
        avoided r.region_name (ground (arith, text_eq_refl r.region_name)),
        known_cases r.role known,
        reached,
        usable,
      ),
      λ m met. ground (arith, text_eq_iff r.region_name m, new, avoided m (ground (arith, met))),
    )

-- A configuration that a loader may serve.
pub record IsServable (t : Topology) : Type 0 where
  pub usable : IsUsable t.regions
  pub one_primary : primaries t.regions ≡ 1
  pub threshold : is_positive t.lag_threshold ≡ true

threshold_positive :
    (t u : Topology)
    → is_neg t.lag_threshold ≡ false
    → (if is_zero t.lag_threshold then record t { lag_threshold = pos 5 } else t) ≡ u
    → is_positive u.lag_threshold ≡ true
threshold_positive t u h e = ground arith

pub validate_topology-IsServable :
    (t u : Topology) → validate_topology t ≡ ok u → IsServable u × (u.regions ≡ t.regions)
unfolding validate_topology
validate_topology-IsServable t u h =
    let (present, h₁) = check-passes (length t.regions == 0) no_regions _ h in
    let (n, checked, h₂) = >>=-passes (check_regions [] 0 t.regions) _ h₁ in
    let (some_primary, h₃) = check-passes (n == 0) no_primary_region _ h₂ in
    let (few, h₄) = check-passes (ltb 1 n) multiple_primary _ h₃ in
    let (lag, h₅) = check-passes (is_neg t.lag_threshold) negative_threshold _ h₄ in
    let (count, usable, _) = check_regions-ok [] 0 t.regions n checked in
    let same : u.regions ≡ t.regions = ground arith in
    (
      record {
        usable = subst IsUsable (sym same) usable;
        one_primary = ap primaries same ∙ ground (arith, count);
        threshold = threshold_positive t u lag (ground arith);
      },
      same,
    )

-- Without a primary region, every region that is there is a standby.
no_primary :
    (n : Text) (rs : List Region)
    → IsUsable rs
    → primaries rs ≡ 0
    → (any_named (λ (r : Region). is_primary r.role) n rs ≡ false)
      × (any_named (λ (r : Region). is_standby r.role) n rs ≡ seen_name n (names rs))
unfolding primaries any_named seen_name
no_primary n [] u z = (refl, refl)
no_primary n (r ∷ rs) u z = ground (arith, no_primary n rs)

-- With one, that one is found, and the others are the standbys.
pub one_primary-lem :
    (rs : List Region)
    → IsUsable rs
    → primaries rs ≡ 1
    → (p : Region) × (find_primary rs ≡ ok p)
      × (seen_name p.region_name (names rs) ≡ true)
      × ((n : Text)
          → (any_named (λ (r : Region). is_primary r.role) n rs ≡ text_eq p.region_name n)
            × (any_named (λ (r : Region). is_standby r.role) n rs
                ≡ (seen_name n (names rs) && not (text_eq p.region_name n))))
unfolding primaries find_primary any_named seen_name
one_primary-lem [] u one = absurd (cc)
one_primary-lem (r ∷ rs) u one = elim (Bool-cases (is_primary r.role)) [
  | inl found ↦ (
    r,
    ground (arith, found),
    ground (arith, text_eq_refl r.region_name),
    λ n. ground (
      arith,
      found,
      no_primary n rs u.3 (ground (arith, found)),
      text_eq_iff r.region_name n,
      u.0,
    ),
  )
  | inr other ↦
      let (p, is_first, seen, agrees) = one_primary-lem rs u.3 (ground (arith, other)) in
      (
        p,
        ground (arith, other, is_first),
        ground (arith, seen),
        λ n. ground (
          arith,
          other,
          seen,
          u.0,
          u.1,
          agrees n,
          text_eq_iff r.region_name n,
          text_eq_iff p.region_name n,
        ),
      )
]

pub find_region-names :
    (n : Text) (rs : List Region)
    → (seen_name n (names rs) ≡ false) × (find_region n rs ≡ err (region_not_found n))
      ⊎ ((r : Region) × (find_region n rs ≡ ok r)
          × (r.region_name ≡ n)
          × (seen_name n (names rs) ≡ true))
unfolding find_region seen_name
find_region-names n [] = inl (refl, refl)
find_region-names n (r ∷ rs) = ground (arith, find_region-names n rs, text_eq_iff r.region_name n)
