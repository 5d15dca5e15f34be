-- ===== src/Topology/Tests.antt =====
-- Tests and instances of the theorems about the region topology.
use astra_sync.Prelude.{
  ℕ, ℤ, pos, Text, codes, Bool, true, false, not, Option, none, some, List, [], ◌∷◌, Result, ok,
  err, ◌≡◌, ◌⊎◌, refl, text_eq, text_key, is_blank,
}
use astra_sync.Promotion.Manager.{Services, promote}
use astra_sync.Promotion.Laws.Tracking.{Declines}
use astra_sync.Topology.Config.{
  no_primary_region, Region, primary, standby, Topology, seen_name, check_regions,
  validate_topology,
}
use astra_sync.Topology.Loader.{Loader, ConfigMap, get_region, get_primary_region}
use astra_sync.Topology.Laws.Regions.{validate_topology-IsServable}
use astra_sync.Topology.Laws.Serving.{
  Serves, Answers, reload_all, reload_all-Answers, standby_test, promote-elsewhere,
}

abbrev region_of : Text → Bool → Region
region_of n is_first = record {
  region_name = n;
  role = elim is_first [ true ↦ primary | false ↦ standby ];
  api_server_endpoint = codes "https://api";
  postgres_endpoint = codes "postgres://db";
  object_storage_bucket = codes "bucket";
  object_storage_prefix = codes "prefix";
}

abbrev two_regions : Topology
two_regions = record {
  regions = region_of (codes "east") true ∷ region_of (codes "west") false ∷ [];
  lag_threshold = pos 5;
}

abbrev no_primary : Topology
no_primary = record { regions = region_of (codes "west") false ∷ []; lag_threshold = pos 5 }

two_regions-valid : validate_topology two_regions ≡ ok two_regions
unfolding validate_topology check_regions seen_name is_blank astra_sync.Prelude.space_width text_eq
two_regions-valid = refl

no_primary-refused : validate_topology no_primary ≡ err no_primary_region
unfolding validate_topology check_regions seen_name is_blank astra_sync.Prelude.space_width text_eq
no_primary-refused = refl

-- A reader of the configuration that knows two texts.
abbrev reads : Text → Option Topology
reads [] = none
reads (c ∷ s) = some no_primary

abbrev east_loader : Loader
east_loader = record {
  in_cluster = true;
  key = codes "regions.yaml";
  config = some two_regions;
  version = pos 0;
  resource_version = codes "1";
}

east_loader-Serves : Serves east_loader
east_loader-Serves =
    (two_regions, refl, (validate_topology-IsServable two_regions two_regions two_regions-valid).0)

-- A reload that fails, one of an unreadable text and one of a configuration without a primary region.
abbrev bad_reloads : List (Option ConfigMap)
bad_reloads =
    none
    ∷ some (record { data_of = (codes "regions.yaml", []) ∷ []; map_version = codes "2" })
    ∷ some (record { data_of = (codes "regions.yaml", codes "x") ∷ []; map_version = codes "3" })
    ∷ []

reload_all-Answers_example : (p : Region) × Answers (reload_all reads east_loader bad_reloads) p
reload_all-Answers_example = reload_all-Answers reads east_loader bad_reloads east_loader-Serves

abbrev topology_services : Services
topology_services = record {
  standby = some (standby_test (reload_all reads east_loader bad_reloads));
  known = ok none;
  current_epoch = ok (pos 3);
  creation = none;
  fencer = none;
  assignment = ok (pos 4);
  epoch_update = none;
  revalidator = none;
  recovery = none;
}

promote-elsewhere_example :
    let result =
      promote [] topology_services
        (codes "west")
        (codes "orders")
        (codes "east")
        (codes "0123456789abcdef")
        (pos 3)
        10
        20 in
    Declines [] topology_services
      (codes "orders")
      (codes "east")
      (codes "0123456789abcdef")
      (pos 3)
      result
    ⊎ ((p : Region) × (r : Region) × (get_primary_region (reload_all reads east_loader bad_reloads)
          ≡ ok p)
        × (get_region (reload_all reads east_loader bad_reloads) (codes "east") ≡ ok r)
        × (text_eq p.region_name (codes "east") ≡ false))
promote-elsewhere_example =
    promote-elsewhere reads east_loader bad_reloads east_loader-Serves [] topology_services
      (codes "west") (codes "orders") (codes "east") (codes "0123456789abcdef") (pos 3) 10 20 refl
