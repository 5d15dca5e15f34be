-- ===== src/Topology/Laws/Serving.antt =====
-- What a loader serves, however often it is reloaded, and what that means for promotions.
use astra_sync.Prelude.{
  ℕ, ℤ, Text, text_eq, Bool, false, not, Option, none, some, List, [], ◌∷◌, ok, err, >>=-passes,
  Result-cases, Option-cases, Bool-cases, ◌≡◌, ◌⊎◌, inl, inr, subst, arith, text_key, at,
}
use astra_sync.Topology.Config.{region_not_found, Region, Topology}
use astra_sync.Topology.Loader.{
  Loader, ConfigMap, get_region, get_primary_region, loader_is_primary, loader_is_standby,
  version_string, parse_topology, new_file_loader, load_map, reload,
}
use astra_sync.Topology.Laws.Regions.{
  IsServable, validate_topology-IsServable, one_primary-lem, find_region-names,
}
use astra_sync.Promotion.Laws.Tracking.{Declines, promote-cases}
use astra_sync.Promotion.Manager.{Manager, Services, promote}

-- The test of `IsStandby` that the promotions are given.
abbrev pub standby_test : Loader → Text → Bool
standby_test l n = elim (loader_is_standby l n) [ ok b ↦ b | err e ↦ false ]

-- The loader has a configuration that passed the checks.
abbrev pub Serves : Loader → Type 0
Serves l = (t : Topology) × (l.config ≡ some t) × IsServable t

-- What clients see: one region is the primary one, and a name is that of a standby region exactly if
-- it is the name of another region.
pub record Answers (l : Loader) (p : Region) : Type 0 where
  pub primary_found : get_primary_region l ≡ ok p
  pub primary_known :
      (r : Region) × (get_region l p.region_name ≡ ok r) × (r.region_name ≡ p.region_name)
  pub primary_only : (n : Text) → loader_is_primary l n ≡ ok (text_eq p.region_name n)
  pub others_stand_by :
      (n : Text)
      → ((get_region l n ≡ err (region_not_found n)) × (loader_is_standby l n ≡ ok false))
        ⊎ ((r : Region) × (get_region l n ≡ ok r)
            × (r.region_name ≡ n)
            × (loader_is_standby l n ≡ ok (not (text_eq p.region_name n))))

Serves-Answers : (l : Loader) → Serves l → (p : Region) × Answers l p
unfolding get_primary_region get_region loader_is_primary loader_is_standby
Serves-Answers l (t, configured, servable) =
    let (p, found, seen, agrees) = one_primary-lem t.regions servable.usable servable.one_primary in
    (
      p,
      record {
        primary_found = ground (arith, configured, found);
        primary_known = elim (find_region-names p.region_name t.regions) [
          | inl (unseen, _) ↦ absurd (ground (arith, seen, unseen))
          | inr (r, is_r, named, _) ↦ (r, ground (arith, configured, is_r), named)
        ];
        primary_only = λ n. ground (arith, configured, agrees n);
        others_stand_by = λ n. elim (find_region-names n t.regions) [
          | inl (unseen, missing) ↦
              inl
                (ground (arith, configured, missing), ground (arith, configured, agrees n, unseen))
          | inr (r, is_r, named, known) ↦ inr (
            r,
            ground (arith, configured, is_r),
            named,
            ground (arith, configured, agrees n, known),
          )
        ];
      },
    )

module _ (unmarshal : Text → Option Topology) where
  parse_topology-IsServable :
      (s : Text) (u : Topology) → parse_topology unmarshal s ≡ ok u → IsServable u
  unfolding parse_topology
  parse_topology-IsServable s u h = elim (Option-cases (unmarshal s)) [
    | inl bad ↦ absurd (ground (arith, bad))
    | inr (t, good) ↦ (validate_topology-IsServable t u (ground (arith, good))).0
  ]

  new_file_loader-Serves :
      (answer : Option Text) (l : Loader) → new_file_loader unmarshal answer ≡ ok l → Serves l
  unfolding new_file_loader
  new_file_loader-Serves none l h = absurd (cc)
  new_file_loader-Serves (some s) l h =
      let (t, parsed, made) = >>=-passes (parse_topology unmarshal s) _ h in
      (t, ground arith, parse_topology-IsServable s t parsed)

  load_map-Serves :
      (l : Loader) (cm : ConfigMap) (next : Loader)
      → load_map unmarshal l cm ≡ ok next
      → Serves l
      → Serves next
  unfolding load_map
  load_map-Serves l cm next h serves = elim (Option-cases (at l.key cm.data_of)) [
    | inl missing ↦ absurd (ground (arith, missing))
    | inr (s, present) ↦ elim (Bool-cases (text_eq cm.map_version (version_string l))) [
      | inl same ↦ let kept : l ≡ next = ground (arith, present, same) in subst Serves kept serves
      | inr new ↦ elim (Result-cases (parse_topology unmarshal s)) [
        | inr (e, bad) ↦ absurd (ground (arith, present, new, bad))
        | inl (t, parsed) ↦
            (t, ground (arith, present, new, parsed), parse_topology-IsServable s t parsed)
      ]
    ]
  ]

  reload-Serves :
      (l : Loader) (answer : Option ConfigMap)
      → Serves l
      → let (_, next) = reload unmarshal l answer in Serves next
  unfolding reload
  reload-Serves l answer serves = elim (Bool-cases l.in_cluster) [
    | inr outside ↦ rw (outside, reload) serves
    | inl inside ↦ elim (Option-cases answer) [
      | inl failed ↦ rw (inside, failed, reload) serves
      | inr (cm, got) ↦ elim (Result-cases (load_map unmarshal l cm)) [
        | inr (e, bad) ↦ rw (inside, got, bad, reload) serves
        | inl (next, loaded) ↦
            rw (inside, got, loaded, reload) (load_map-Serves l cm next loaded serves)
      ]
    ]
  ]

  unfoldable pub reload_all : Loader → List (Option ConfigMap) → Loader
  reload_all l [] = l
  reload_all l (answer ∷ answers) =
      let (_, next) = reload unmarshal l answer in reload_all next answers

  reload_all-Serves :
      (l : Loader) (answers : List (Option ConfigMap)) → Serves l → Serves (reload_all l answers)
  unfolding reload_all
  reload_all-Serves l [] serves = serves
  reload_all-Serves l (answer ∷ answers) serves =
      let (_, next) = reload unmarshal l answer in
      reload_all-Serves next answers (reload-Serves l answer serves)

  -- A loader that serves a checked configuration does so after any number of reloads, whatever
  -- Kubernetes answers and whatever the texts are: one region is the primary one and is found under
  -- its name, IsPrimary holds of its name only, and IsStandby holds exactly of the names of the other
  -- regions.
  pub reload_all-Answers :
      (l : Loader) (answers : List (Option ConfigMap))
      → Serves l
      → (p : Region) × Answers (reload_all l answers) p
  reload_all-Answers l answers serves =
      Serves-Answers (reload_all l answers) (reload_all-Serves l answers serves)

  -- A promotion that asks such a loader which regions stand by declines, or its target is a region of
  -- the configuration other than the primary one.
  pub promote-elsewhere :
      (l : Loader) (answers : List (Option ConfigMap))
      → Serves l
      → (m : Manager) (v : Services) (region job target key : Text) (expected : ℤ)
        (started ended : ℕ)
      → v.standby ≡ some (standby_test (reload_all l answers))
      → let result = promote m v region job target key expected started ended in
        Declines m v job target key expected result
        ⊎ ((p : Region) × (r : Region) × (get_primary_region (reload_all l answers) ≡ ok p)
            × (get_region (reload_all l answers) target ≡ ok r)
            × (text_eq p.region_name target ≡ false))
  promote-elsewhere l answers serves m v region job target key expected started ended asks =
      let (p, says) = reload_all-Answers l answers serves in
      elim (promote-cases m v region job target key expected started ended) [
        | inl declines ↦ inl declines
        | inr (ahead, _) ↦ elim (says.others_stand_by target) [
          | inl (unknown, no_standby_region) ↦
              absurd (ground (arith, ahead.stands_by, asks, no_standby_region))
          | inr (r, found, named, other) ↦
              inr (p, r, says.primary_found, found, ground (arith, ahead.stands_by, asks, other))
        ]
      ]
