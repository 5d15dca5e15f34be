-- ===== src/Egress/Laws/Permitted.antt =====
-- The addresses that `Resolve` pins and `DialContext` connects to, of
-- control-plane/scheduler/internal/connectiontest/egress.go.
use astra_sync.Prelude.{
  ℕ, zero, suc, ℤ, pos, ◌≡◌, ◌∙◌, sym, ap, subst, Text, true, false, not, ◌||◌, List, [], ◌∷◌,
  length, ◌==◌, arith, ok, err, >>=-passes, check-passes, Bool-cases, Result, All, inl, inr, some,
  Option-cases, text_eq, text_eq_iff, codes,
}
use astra_sync.Connection.Policy.{Outside, Policy, validate_policy}
use astra_sync.Connection.Operation.{is_err}
use astra_sync.Topology.Loader.{decimal}
use astra_sync.Egress.Address.{Addr, IpPrefix}
use astra_sync.Egress.Denied.{
  prefixes_contain, hard_denied, requires_explicit_allow, canonical_addresses,
}
use astra_sync.Egress.Host.{trim_space, trim_dot, valid_host}
use astra_sync.Egress.Guard.{
  Network, EgressGuard, PinnedEndpoint, Dialed, connected, unreachable, cancelled, Error,
  policy_denied, dns_failed, after_dial, permitted, all_permitted, out_of_bound, parse_prefixes,
  find_addresses, resolve, skips, dial_each, dial_context, dial_on,
}

-- No rule forbids the address, and a prefix of the policy holds it where a rule asks for one.
pub record Allowed (protected allowed : List IpPrefix) (a : Addr) : Type 0 where
  pub not_denied : hard_denied a ≡ false
  pub allowed_if_restricted :
      requires_explicit_allow a protected ≡ true → prefixes_contain allowed a ≡ true

permitted-Allowed :
    (protected allowed : List IpPrefix) (a : Addr)
    → permitted protected allowed a ≡ true
    → Allowed protected allowed a
unfolding permitted
permitted-Allowed protected allowed a h = record {
  not_denied = ground (arith, h);
  allowed_if_restricted = λ r. ground (arith, h, r);
}

all_permitted-All :
    (protected allowed : List IpPrefix) (as' : List Addr)
    → all_permitted protected allowed as' ≡ true
    → All (Allowed protected allowed) as'
unfolding all_permitted
all_permitted-All protected allowed [] h = tt
all_permitted-All protected allowed (a ∷ as') h = (
  permitted-Allowed protected allowed a (ground (arith, h)),
  all_permitted-All protected allowed as' (ground (arith, h)),
)

after_dial-cases :
    (P : Addr → Type 0) (b : Addr) (rest : Result Error Addr) (d : Dialed) (a : Addr)
    → P b
    → (rest ≡ ok a → P a)
    → after_dial b rest d ≡ ok a
    → P a
unfolding after_dial
after_dial-cases P b rest connected a p later h = subst P (ground (arith, h)) p
after_dial-cases P b rest unreachable a p later h = later h
after_dial-cases P b rest cancelled a p later h = absurd (ground (arith, h))

abbrev addresses_of : Result Error PinnedEndpoint → List Addr → List Addr
addresses_of (ok e) other = e.addresses
addresses_of (err x) other = other

abbrev timeout_of : Result Error PinnedEndpoint → ℤ → ℤ
timeout_of (ok e) other = e.dial_timeout
timeout_of (err x) other = other

abbrev attempts_of : Result Error PinnedEndpoint → ℕ → ℕ
attempts_of (ok e) other = e.max_attempts
attempts_of (err x) other = other

abbrev endpoint_port_of : Result Error PinnedEndpoint → ℕ → ℕ
endpoint_port_of (ok e) other = e.endpoint_port
endpoint_port_of (err x) other = other

module _ (n : Network) where
  dial_each-All :
      (P : Addr → Type 0) (dial : ℕ → Addr → Dialed) (network : Text) (index attempts : ℕ)
      (as' : List Addr) (a : Addr)
      → All P as'
      → dial_each n dial network index attempts as' ≡ ok a
      → P a
  unfolding dial_each
  dial_each-All P dial network index zero as' a p h = absurd (ground (arith, h))
  dial_each-All P dial network index (suc k) [] a p h = absurd (ground (arith, h))
  dial_each-All P dial network index (suc k) (b ∷ as') a p h =
      let later = dial_each-All P dial network (suc index) k as' a p.1 in
      elim (Bool-cases (skips n network b)) [
        | inl skipped ↦ later (ground (arith, skipped, h))
        | inr taken ↦
            after_dial-cases P b (dial_each n dial network (suc index) k as') (dial index b) a p.0
              later (ground (arith, taken, h))
      ]

  -- What `Resolve` pins.
  pub record Pins (o : Outside) (g : EgressGuard) (port : ℕ) (policy : Policy) (e : PinnedEndpoint)
      : Type 0 where
    pub policy_valid : is_err (validate_policy o policy) ≡ false
    pub allowed : List IpPrefix
    pub policy_prefixes : parse_prefixes n policy_denied (λ s. s) policy.allowed_cidrs ≡ ok allowed
    pub all_allowed : All (Allowed g.protected_cidrs allowed) e.addresses
    pub port_kept : e.endpoint_port ≡ port
    pub found : List Addr
    pub canonical : canonical_addresses found ≡ e.addresses
    pub within : out_of_bound g.maximum_dns_addresses e.addresses ≡ false
    pub settings_kept :
        (e.dial_timeout ≡ g.guard_timeout) × (e.max_attempts ≡ g.maximum_dial_attempts)

  pub resolve-Pins :
      (o : Outside) (g : EgressGuard) (name : Text) (port : ℕ) (policy : Policy)
      (e : PinnedEndpoint)
      → resolve n o g name port policy ≡ ok e
      → Pins o g port policy e
  unfolding resolve
  resolve-Pins o g name port policy e h =
      let host = trim_dot (trim_space name) in
      let (valid, h₁) =
        check-passes ((port == 0) || is_err (validate_policy o policy)) policy_denied _ h in
      let (named, h₂) = check-passes (not (valid_host n.parse_addr host)) policy_denied _ h₁ in
      let (found, got, h₃) = >>=-passes (find_addresses n g host) _ h₂ in
      let pinned = canonical_addresses found in
      let (few, h₄) = check-passes (out_of_bound g.maximum_dns_addresses pinned) dns_failed _ h₃ in
      let (allowed, parsed, h₅) =
        >>=-passes (parse_prefixes n policy_denied (λ s. s) policy.allowed_cidrs) _ h₄ in
      let (passed, h₆) =
        check-passes (not (all_permitted g.protected_cidrs allowed pinned)) policy_denied _ h₅ in
      let same : pinned ≡ e.addresses = ap (λ r. addresses_of r pinned) h₆ in
      record {
        policy_valid = ground (arith, valid);
        allowed = allowed;
        policy_prefixes = parsed;
        all_allowed =
            subst (All (Allowed g.protected_cidrs allowed)) same
              (all_permitted-All g.protected_cidrs allowed pinned (ground (arith, passed)));
        port_kept = ap (λ r. endpoint_port_of r port) (sym h₆);
        found = found;
        canonical = same;
        within = subst (λ xs. out_of_bound g.maximum_dns_addresses xs ≡ false) same few;
        settings_kept = (
          ap (λ r. timeout_of r g.guard_timeout) (sym h₆),
          ap (λ r. attempts_of r g.maximum_dial_attempts) (sym h₆),
        );
      }

  -- What a connection that a test opened has been checked for.
  pub record Checked (o : Outside) (g : EgressGuard) (port : ℕ) (policy : Policy) (address : Text)
      (a : Addr) : Type 0 where
    pub policy_accepted : is_err (validate_policy o policy) ≡ false
    pub policy_allows : List IpPrefix
    pub policy_parsed :
        parse_prefixes n policy_denied (λ s. s) policy.allowed_cidrs ≡ ok policy_allows
    pub address_allowed : Allowed g.protected_cidrs policy_allows a
    pub port_asked : n.port_of address ≡ some (decimal (pos port))

  -- Whatever name a test asks for, whatever the resolver answers and whichever attempts fail: an
  -- address that DialContext connects to, on an endpoint that Resolve gave, is neither hard-denied
  -- nor, where it is private, restricted or protected, outside the prefixes of the policy; the policy
  -- is one that Validate accepts, and the port is the one that was resolved.
  pub dial_context-Checked :
      (o : Outside) (g : EgressGuard) (name : Text) (port : ℕ) (policy : Policy)
      (dial : ℕ → Addr → Dialed) (e : PinnedEndpoint) (network address : Text) (a : Addr)
      → resolve n o g name port policy ≡ ok e
      → dial_context n dial e network address ≡ ok a
      → Checked o g port policy address a
  unfolding dial_context dial_on
  dial_context-Checked o g name port policy dial e network address a resolved dialed =
      let pins = resolve-Pins o g name port policy e resolved in
      let (known, h₁) =
        check-passes
          (not (
            text_eq network (codes "tcp")
            || (text_eq network (codes "tcp4") || text_eq network (codes "tcp6"))))
          policy_denied _ dialed in
      elim (Option-cases (n.port_of address)) [
        | inl bad ↦ absurd (ground (arith, bad, h₁))
        | inr (p, split) ↦
            let (fits, h₂) =
              check-passes
                (not (text_eq p (decimal (pos e.endpoint_port))) || (length e.addresses == 0))
                policy_denied (dial_each n dial network 0 e.max_attempts e.addresses)
                (subst (λ r. dial_on n dial e network r ≡ ok a) split h₁) in
            let same : p ≡ decimal (pos e.endpoint_port) =
              (text_eq_iff p (decimal (pos e.endpoint_port))).0 (ground (arith, fits)) in
            record {
              policy_accepted = pins.policy_valid;
              policy_allows = pins.allowed;
              policy_parsed = pins.policy_prefixes;
              address_allowed =
                  dial_each-All (Allowed g.protected_cidrs pins.allowed) dial network 0
                    e.max_attempts e.addresses a pins.all_allowed h₂;
              port_asked = split ∙ ap some (same ∙ ap (λ x. decimal (pos x)) pins.port_kept);
            }
      ]
