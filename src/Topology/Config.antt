-- ===== src/Topology/Config.antt =====
-- Regions and the validation of `parseTopology`, control-plane/replication/topology/config.go.
use astra_sync.Prelude.{
  ℕ, ◌+◌, ℤ, pos, Text, text_eq, is_blank, Bool, true, false, not, ◌||◌, List, [], ◌∷◌, length, ltb,
  ◌==◌, is_neg, is_zero, if◌then◌else◌, Result, ok, check, ◌>>◌, ◌>>=◌,
}

pub data Error : Type 0 where
  region_not_found : Text → Error
  unparsable no_regions no_primary_region multiple_primary : Error
  name_and_role_required endpoints_required negative_threshold : Error
  duplicate_region : Text → Error
  unknown_role : Text → Error
  -- ErrInvalidConfig of a loader without a configuration, and the panic of a nil one.
  no_config nil_dereference : Error
  -- What reading a file and the calls of Kubernetes fail with.
  file_unreadable config_map_unreadable key_missing : Error

pub data RegionRole : Type 0 where
  primary standby : RegionRole
  other_role : Text → RegionRole

pub record Region : Type 0 where
  pub region_name : Text
  pub role : RegionRole
  pub api_server_endpoint : Text
  pub postgres_endpoint : Text
  pub object_storage_bucket : Text
  pub object_storage_prefix : Text

pub record Topology : Type 0 where
  pub regions : List Region
  pub lag_threshold : ℤ

abbrev pub is_primary : RegionRole → Bool
is_primary primary = true
is_primary _ = false

abbrev pub is_standby : RegionRole → Bool
is_standby standby = true
is_standby _ = false

abbrev blank_role : RegionRole → Bool
blank_role (other_role s) = is_blank s
blank_role _ = false

abbrev pub known_role : RegionRole → Bool
known_role (other_role s) = false
known_role _ = true

unfoldable pub seen_name : Text → List Text → Bool
seen_name n [] = false
seen_name n (m ∷ names) = text_eq m n || seen_name n names

abbrev pub endpoint_missing : Region → Bool
endpoint_missing r =
    is_blank r.api_server_endpoint
    || (is_blank r.postgres_endpoint
        || (is_blank r.object_storage_bucket || is_blank r.object_storage_prefix))

abbrev pub unnamed : Region → Bool
unnamed r = is_blank r.region_name || blank_role r.role

-- The loop over the regions: `names` holds the names met so far; the result is the number of primary
-- regions, added to `primaries`.
unfoldable pub check_regions : List Text → ℕ → List Region → Result Error ℕ
check_regions names primaries [] = ok primaries
check_regions names primaries (r ∷ rs) = do
  check (unnamed r) name_and_role_required
  check (seen_name r.region_name names) (duplicate_region r.region_name)
  check (not (known_role r.role)) (unknown_role r.region_name)
  check (endpoint_missing r) endpoints_required
  check_regions (r.region_name ∷ names) (if is_primary r.role then primaries + 1 else primaries) rs

-- The threshold defaults to 5 seconds.
unfoldable pub validate_topology : Topology → Result Error Topology
validate_topology t = do
  check (length t.regions == 0) no_regions
  primaries ← check_regions [] 0 t.regions
  check (primaries == 0) no_primary_region
  check (ltb 1 primaries) multiple_primary
  check (is_neg t.lag_threshold) negative_threshold
  ok (if is_zero t.lag_threshold then record t { lag_threshold = pos 5 } else t)
