-- ===== src/Egress/Guard.antt =====
-- `EgressGuard` and `PinnedEndpoint` of control-plane/scheduler/internal/connectiontest/egress.go. The
-- fields of `Network` are what the code asks of others: `parse_addr` and `parse_prefix` are
-- `netip.ParseAddr` and `netip.ParsePrefix` (with `Masked`), `lookup_ip` the system's resolver, and
-- `port_of` the port of `net.SplitHostPort`. `dial` is the answer of the connection attempt of a
-- number. A guard and a resolver are never nil here.
use astra_sync.Prelude.{
  ℕ, zero, suc, ℤ, pos, Text, text_eq, codes, Bool, true, not, ◌&&◌, ◌||◌, Option, none, some, List,
  [], ◌∷◌, length, ◌==◌, is_zero, is_positive, int_lt, if◌then◌else◌, Result, ok, err, check, ◌>>◌,
  ◌>>=◌,
}
use astra_sync.Connection.Policy.{Outside, Policy, validate_policy}
use astra_sync.Connection.Operation.{is_err}
use astra_sync.Topology.Loader.{decimal}
use astra_sync.Egress.Address.{Addr, invalid_addr, ip4, ip6, IpPrefix, unmap, addr_is_valid}
use astra_sync.Egress.Denied.{
  prefixes_contain, hard_denied, requires_explicit_allow, canonical_addresses,
}
use astra_sync.Egress.Host.{trim_space, trim_dot, trim_brackets, valid_host}

pub data Error : Type 0 where
  policy_denied dns_failed dial_failed context_ended : Error
  guard_invalid bound_invalid protected_invalid : Error

pub record Network : Type 0 where
  pub parse_addr : Text → Option Addr
  pub parse_prefix : Text → Option IpPrefix
  pub lookup_ip : Text → Option (List Addr)
  pub port_of : Text → Option Text

pub data Dialed : Type 0 where
  connected unreachable cancelled : Dialed

abbrev pub default_maximum_dns_addresses : ℤ
default_maximum_dns_addresses = pos 8

abbrev pub maximum_connection_attempts : ℕ
maximum_connection_attempts = 2

-- 30 seconds in nanoseconds.
abbrev pub maximum_dial_timeout : ℤ
maximum_dial_timeout = pos 30000000000

pub record EgressGuard : Type 0 where
  pub protected_cidrs : List IpPrefix
  pub maximum_dns_addresses : ℤ
  pub guard_timeout : ℤ
  pub maximum_dial_attempts : ℕ

pub record PinnedEndpoint : Type 0 where
  pub endpoint_host : Text
  pub endpoint_port : ℕ
  pub addresses : List Addr
  pub dial_timeout : ℤ
  pub max_attempts : ℕ

-- The addresses of a lookup: each must be valid, and is unmapped.
unfoldable pub unmapped : List Addr → Result Error (List Addr)
unmapped [] = ok []
unmapped (a ∷ as') = do
  check (not (addr_is_valid a)) dns_failed
  rest ← unmapped as'
  ok (unmap a ∷ rest)

-- Whether an address is one that the rules let through.
unfoldable pub permitted : List IpPrefix → List IpPrefix → Addr → Bool
permitted protected allowed a =
    not (hard_denied a || (requires_explicit_allow a protected && not (prefixes_contain allowed a)))

unfoldable pub all_permitted : List IpPrefix → List IpPrefix → List Addr → Bool
all_permitted protected allowed [] = true
all_permitted protected allowed (a ∷ as') =
    permitted protected allowed a && all_permitted protected allowed as'

unfoldable pub out_of_bound : ℤ → List Addr → Bool
out_of_bound bound found = (length found == 0) || int_lt bound (pos (length found))

-- What one attempt leads to; `rest` is what the attempts after it give.
unfoldable pub after_dial : Addr → Result Error Addr → Dialed → Result Error Addr
after_dial a rest connected = ok a
after_dial a rest unreachable = rest
after_dial a rest cancelled = err context_ended

module _ (n : Network) where
  unfoldable pub parse_prefixes : Error → (Text → Text) → List Text → Result Error (List IpPrefix)
  parse_prefixes e prepare [] = ok []
  parse_prefixes e prepare (v ∷ vs) = elim (n.parse_prefix (prepare v)) [
    | none ↦ err e
    | some p ↦ parse_prefixes e prepare vs >>= λ rest. ok (p ∷ rest)
  ]

  unfoldable pub new_egress_guard : List Text → ℤ → ℤ → Result Error EgressGuard
  new_egress_guard cidrs maximum timeout = do
    check (not (is_positive timeout) || int_lt maximum_dial_timeout timeout) guard_invalid
    let bound = if is_zero maximum then default_maximum_dns_addresses else maximum
    check (int_lt bound (pos 1) || int_lt (pos 32) bound) bound_invalid
    protected ← parse_prefixes protected_invalid trim_space cidrs
    ok record {
      protected_cidrs = protected;
      maximum_dns_addresses = bound;
      guard_timeout = timeout;
      maximum_dial_attempts = maximum_connection_attempts;
    }

  -- `SystemDNSResolver.Lookup`
  unfoldable pub lookup : Text → Result Error (List Addr)
  lookup host = elim (n.lookup_ip host) [ none ↦ err dns_failed | some values ↦ unmapped values ]

  -- An address itself, or what the resolver finds.
  unfoldable pub find_addresses : EgressGuard → Text → Result Error (List Addr)
  find_addresses g host = elim (n.parse_addr (trim_brackets host)) [
    | some literal ↦ ok (unmap literal ∷ [])
    | none ↦ elim (lookup host) [
      | err e ↦ err dns_failed
      | ok resolved ↦
          check (out_of_bound g.maximum_dns_addresses resolved) dns_failed >> ok resolved
    ]
  ]

  unfoldable pub resolve : Outside → EgressGuard → Text → ℕ → Policy → Result Error PinnedEndpoint
  resolve o g name port policy = do
    check ((port == 0) || is_err (validate_policy o policy)) policy_denied
    let host = trim_dot (trim_space name)
    check (not (valid_host n.parse_addr host)) policy_denied
    found ← find_addresses g host
    let pinned = canonical_addresses found
    check (out_of_bound g.maximum_dns_addresses pinned) dns_failed
    allowed ← parse_prefixes policy_denied (λ s. s) policy.allowed_cidrs
    check (not (all_permitted g.protected_cidrs allowed pinned)) policy_denied
    ok record {
      endpoint_host = host;
      endpoint_port = port;
      addresses = pinned;
      dial_timeout = g.guard_timeout;
      max_attempts = g.maximum_dial_attempts;
    }

  -- Whether the network that the caller names leaves an address out.
  unfoldable pub skips : Text → Addr → Bool
  skips network (ip4 a) = text_eq network (codes "tcp6")
  skips network (ip6 a zone) = text_eq network (codes "tcp4")
  skips network invalid_addr = text_eq network (codes "tcp4") || text_eq network (codes "tcp6")

  -- The loop over the first addresses; `attempts` are left. The result is the address connected to.
  unfoldable pub dial_each : (ℕ → Addr → Dialed) → Text → ℕ → ℕ → List Addr → Result Error Addr
  dial_each dial network index zero as' = err dial_failed
  dial_each dial network index (suc attempts) [] = err dial_failed
  dial_each dial network index (suc attempts) (a ∷ as') =
      let rest = dial_each dial network (suc index) attempts as' in
      if skips network a then rest else after_dial a rest (dial index a)

  unfoldable pub dial_on :
      (ℕ → Addr → Dialed) → PinnedEndpoint → Text → Option Text → Result Error Addr
  dial_on dial e network none = err policy_denied
  dial_on dial e network (some port) = do
    check (not (text_eq port (decimal (pos e.endpoint_port))) || (length e.addresses == 0))
        policy_denied
    dial_each dial network 0 e.max_attempts e.addresses

  unfoldable pub dial_context :
      (ℕ → Addr → Dialed) → PinnedEndpoint → Text → Text → Result Error Addr
  dial_context dial e network address = do
    check
        (not (
          text_eq network (codes "tcp")
          || (text_eq network (codes "tcp4") || text_eq network (codes "tcp6"))))
        policy_denied
    dial_on dial e network (n.port_of address)
