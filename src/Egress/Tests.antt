-- ===== src/Egress/Tests.antt =====
-- Tests of the egress guard.
use astra_sync.Prelude.{
  ◌<◌, ◌≤◌, length, false, IsSorted, is_positive, int_lt, ℕ, zero, suc, pos, ◌≡◌, refl, Text, codes,
  text_eq, none, some, [], ◌∷◌, ◌++◌, true, ok, err, space_width, is_blank, all_of, text_lt,
  insert_by, sort_by,
}
use astra_sync.Job.Mutation.{matches_revision}
use astra_sync.Connection.Settings.{contains_any, all_equal}
use astra_sync.Connection.Policy.{
  Outside, Policy, validate_policy, new_policy, canonicalize, policy_of, contains, join,
  is_canonical,
}
use astra_sync.Topology.Loader.{decimal}
use astra_sync.Egress.Address.{
  Addr, ip4, prefix4, addr_lt, addr_eq, unmap, prefix_contains, same_network, is_private,
  is_link_local_multicast, is_link_local_unicast, is_multicast, is_loopback, is_unspecified,
}
use astra_sync.Egress.Denied.{
  canonical_addresses, collect, seen_addr, requires_explicit_allow, hard_denied, prefixes_contain,
}
use astra_sync.Egress.Host.{
  trim_space, trim_left, trim_right, trim_dot, trim_brackets, left_brackets, right_brackets,
  label_ends, host_label, labels_match, valid_host,
}
use astra_sync.Egress.Guard.{
  new_egress_guard, Network, EgressGuard, PinnedEndpoint, Dialed, connected, unreachable,
  policy_denied, resolve, dial_context, dial_on, dial_each, after_dial, skips, find_addresses,
  lookup, unmapped, out_of_bound, parse_prefixes, all_permitted, permitted,
}
use astra_sync.Egress.Laws.Pinned.{resolve-Bounded}
use astra_sync.Egress.Laws.Permitted.{Checked, dial_context-Checked}

abbrev hex_digits : Text
hex_digits = codes "0123456789abcdef0123456789abcdef0123456789abcdef0123456789abcdef"

abbrev sample_outside : Outside
sample_outside = record {
  is_uuid = λ s. true;
  masked_prefix = λ s. some s;
  sha256_hex = λ s. hex_digits;
}

-- The policy that allows 10.0.0.0/8.
abbrev ten_policy : Policy
ten_policy = record {
  revision = codes "sha256:" ++ hex_digits;
  allowed_cidrs = codes "10.0.0.0/8" ∷ [];
}

-- The name stands for 10.0.0.5 and 10.0.0.7.
abbrev sample_network : Network
sample_network = record {
  parse_addr = λ s. none;
  parse_prefix = λ s. some (prefix4 0x0a000000 8);
  lookup_ip = λ s. some (ip4 0x0a000007 ∷ ip4 0x0a000005 ∷ ip4 0x0a000007 ∷ []);
  port_of = λ s. some (codes "5432");
}

abbrev metadata_network : Network
metadata_network = record sample_network { lookup_ip = λ s. some (ip4 0xa9fea9fe ∷ []) }

abbrev sample_guard : EgressGuard
sample_guard = record {
  protected_cidrs = [];
  maximum_dns_addresses = pos 8;
  guard_timeout = pos 1000;
  maximum_dial_attempts = 2;
}

abbrev sample_host : Text
sample_host = codes " db.example. "

abbrev sample_endpoint : PinnedEndpoint
sample_endpoint = record {
  endpoint_host = codes "db.example";
  endpoint_port = 5432;
  addresses = ip4 0x0a000005 ∷ ip4 0x0a000007 ∷ [];
  dial_timeout = pos 1000;
  max_attempts = 2;
}

-- The first attempt fails.
abbrev sample_dial : ℕ → Addr → Dialed
sample_dial zero a = unreachable
sample_dial (suc k) a = connected

metadata-denied :
    resolve metadata_network sample_outside sample_guard sample_host 5432 ten_policy
    ≡ err policy_denied
unfolding resolve find_addresses lookup unmapped out_of_bound parse_prefixes all_permitted permitted
    trim_space trim_left trim_right trim_dot trim_brackets left_brackets right_brackets label_ends
    host_label labels_match valid_host canonical_addresses collect seen_addr requires_explicit_allow
    hard_denied prefixes_contain is_private is_link_local_multicast is_link_local_unicast
    is_multicast is_loopback is_unspecified addr_lt addr_eq unmap prefix_contains same_network
    validate_policy new_policy canonicalize policy_of contains join is_canonical matches_revision
    contains_any space_width is_blank all_of text_lt insert_by sort_by text_eq all_equal
metadata-denied = refl

resolved :
    resolve sample_network sample_outside sample_guard sample_host 5432 ten_policy
    ≡ ok sample_endpoint
unfolding resolve find_addresses lookup unmapped out_of_bound parse_prefixes all_permitted permitted
    trim_space trim_left trim_right trim_dot trim_brackets left_brackets right_brackets label_ends
    host_label labels_match valid_host canonical_addresses collect seen_addr requires_explicit_allow
    hard_denied prefixes_contain is_private is_link_local_multicast is_link_local_unicast
    is_multicast is_loopback is_unspecified addr_lt addr_eq unmap prefix_contains same_network
    validate_policy new_policy canonicalize policy_of contains join is_canonical matches_revision
    contains_any space_width is_blank all_of text_lt insert_by sort_by text_eq all_equal
resolved = refl

dialed :
    dial_context sample_network sample_dial sample_endpoint (codes "tcp") (codes "db.example:5432")
    ≡ ok (ip4 0x0a000007)
unfolding dial_context dial_on dial_each after_dial skips text_eq decimal
dialed = refl

dial_context-Checked_example :
    Checked sample_network sample_outside sample_guard 5432 ten_policy
      (codes "db.example:5432")
      (ip4 0x0a000007)
dial_context-Checked_example =
    dial_context-Checked sample_network sample_outside sample_guard sample_host 5432 ten_policy
      sample_dial sample_endpoint (codes "tcp") (codes "db.example:5432") (ip4 0x0a000007) resolved
      dialed

guard_made : new_egress_guard sample_network [] (pos 0) (pos 1000) ≡ ok sample_guard
unfolding new_egress_guard parse_prefixes
guard_made = refl

resolve-Bounded_example :
    (0 < length sample_endpoint.addresses)
    × (length sample_endpoint.addresses ≤ 32)
    × IsSorted addr_lt sample_endpoint.addresses
    × (sample_endpoint.max_attempts ≡ 2)
    × (is_positive sample_endpoint.dial_timeout ≡ true)
    × (int_lt (pos 30000000000) sample_endpoint.dial_timeout ≡ false)
resolve-Bounded_example =
    resolve-Bounded sample_network [] (pos 0) (pos 1000) sample_guard sample_outside sample_host
      5432 ten_policy sample_endpoint guard_made resolved
