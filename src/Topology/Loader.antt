-- ===== src/Topology/Loader.antt =====
-- The `Loader` of control-plane/replication/topology/config.go. `unmarshal` is what gopkg.in/yaml.v3
-- makes of a text; the answers of the file system and of Kubernetes are arguments.
use astra_sync.Prelude.{
  suc, ℤ, pos, negsuc, Text, text_eq, is_empty, Bool, false, not, ◌&&◌, ◌||◌, Option, none, some,
  List, [], ◌∷◌, map, if◌then◌else◌, Result, ok, err, ◌>>=◌, Map, text_key, at, is_zero,
}
use astra_sync.Wal.Keys.{put_digits, digit_width}
use astra_sync.Topology.Config.{
  Error, region_not_found, unparsable, no_primary_region, no_config, nil_dereference,
  file_unreadable, config_map_unreadable, key_missing, Region, Topology, is_primary, is_standby,
  validate_topology,
}

pub record Loader : Type 0 where
  pub in_cluster : Bool
  pub key : Text
  pub config : Option Topology
  pub version : ℤ
  pub resource_version : Text

pub record ConfigMap : Type 0 where
  pub data_of : Map Text Text
  pub map_version : Text

-- "%d" of an `int64`.
unfoldable pub decimal : ℤ → Text
unfolding put_digits digit_width
decimal (pos n) = put_digits (digit_width 18 1 n) n
decimal (negsuc n) = 45 ∷ put_digits (digit_width 18 1 (suc n)) (suc n)

unfoldable pub version_string : Loader → Text
version_string l =
    if not (is_empty l.resource_version)
    then l.resource_version
    else (if is_zero l.version then [] else decimal l.version)

abbrev with_config {ℓ} :
    {A : Type ℓ} → Error → Loader → (Topology → Result Error A) → Result Error A
with_config e l f = elim l.config [ none ↦ err e | some t ↦ f t ]

unfoldable pub find_region : Text → List Region → Result Error Region
find_region n [] = err (region_not_found n)
find_region n (r ∷ rs) = if text_eq r.region_name n then ok r else find_region n rs

unfoldable pub get_region : Loader → Text → Result Error Region
get_region l n = with_config no_config l (λ t. find_region n t.regions)

unfoldable pub find_primary : List Region → Result Error Region
find_primary [] = err no_primary_region
find_primary (r ∷ rs) = if is_primary r.role then ok r else find_primary rs

unfoldable pub get_primary_region : Loader → Result Error Region
get_primary_region l = with_config no_config l (λ t. find_primary t.regions)

unfoldable pub standbys_of : List Region → List Region
standbys_of [] = []
standbys_of (r ∷ rs) = if is_standby r.role then r ∷ standbys_of rs else standbys_of rs

unfoldable pub get_standby_regions : Loader → Result Error (List Region)
get_standby_regions l = with_config nil_dereference l (λ t. ok (standbys_of t.regions))

unfoldable pub get_all_regions : Loader → Result Error (List Region)
get_all_regions l = with_config nil_dereference l (λ t. ok t.regions)

unfoldable pub get_config : Loader → Result Error Topology
get_config l = with_config nil_dereference l (λ t. ok t)

unfoldable pub replication_lag_threshold : Loader → Result Error ℤ
replication_lag_threshold l = with_config nil_dereference l (λ t. ok t.lag_threshold)

unfoldable pub get_region_names : Loader → Result Error (List Text)
get_region_names l =
    with_config nil_dereference l (λ t. ok (map (λ (r : Region). r.region_name) t.regions))

-- Some region has the name and meets the test.
unfoldable pub any_named : (Region → Bool) → Text → List Region → Bool
any_named p n [] = false
any_named p n (r ∷ rs) = (text_eq r.region_name n && p r) || any_named p n rs

unfoldable pub loader_is_primary : Loader → Text → Result Error Bool
loader_is_primary l n =
    with_config nil_dereference l
      (λ t. ok (any_named (λ (r : Region). is_primary r.role) n t.regions))

unfoldable pub loader_is_standby : Loader → Text → Result Error Bool
loader_is_standby l n =
    with_config nil_dereference l
      (λ t. ok (any_named (λ (r : Region). is_standby r.role) n t.regions))

module _ (unmarshal : Text → Option Topology) where
  -- The configuration of a text.
  unfoldable pub parse_topology : Text → Result Error Topology
  parse_topology data_text = elim (unmarshal data_text) [
    | none ↦ err unparsable
    | some t ↦ validate_topology t
  ]

  -- `none` is a file that cannot be read.
  unfoldable pub new_file_loader : Option Text → Result Error Loader
  new_file_loader none = err file_unreadable
  new_file_loader (some s) = do
    t ← parse_topology s
    ok (record {
      in_cluster = false;
      key = [];
      config = some t;
      version = pos 1;
      resource_version = [];
    })

  -- From the answer of Kubernetes on; a failure leaves the loader as it is.
  unfoldable pub load_map : Loader → ConfigMap → Result Error Loader
  load_map l cm = elim (at l.key cm.data_of) [
    | none ↦ err key_missing
    | some s ↦
        if text_eq cm.map_version (version_string l)
        then ok l
        else (parse_topology s >>= λ t.
            ok (record l { config = some t; version = pos 0; resource_version = cm.map_version }))
  ]

  abbrev kept : Loader → Result Error Loader → Result Error (Unit {0}) × Loader
  kept l (ok next) = (ok tt, next)
  kept l (err e) = (err e, l)

  -- `load` and `Reload`; `none` is a call of Kubernetes that fails.
  unfoldable pub reload : Loader → Option ConfigMap → Result Error (Unit {0}) × Loader
  reload l answer =
      if not l.in_cluster
      then (ok tt, l)
      else elim answer [ none ↦ (err config_map_unreadable, l) | some cm ↦ kept l (load_map l cm) ]
