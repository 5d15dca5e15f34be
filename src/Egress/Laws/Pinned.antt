-- ===== src/Egress/Laws/Pinned.antt =====
-- The endpoints that `Resolve` gives, for a guard of `NewEgressGuard`.
use astra_sync.Prelude.{
  ℕ, ℤ, pos, negsuc, ◌≡◌, ◌∙◌, ap, refl, [], ◌≤◌, ◌<◌, subst, Text, text_lt_asym, true, false, not,
  ◌||◌, List, length, int_lt, is_positive, is_zero, if◌then◌else◌, arith, ok, err, Result,
  >>=-passes, check-passes, IsSorted, sort_by-IsSorted,
}
use astra_sync.Connection.Policy.{Outside, Policy}
use astra_sync.Egress.Address.{Addr, invalid_addr, ip4, ip6, addr_lt}
use astra_sync.Egress.Denied.{collect, canonical_addresses}
use astra_sync.Egress.Host.{trim_space}
use astra_sync.Egress.Guard.{
  Network, EgressGuard, PinnedEndpoint, Error, guard_invalid, bound_invalid, protected_invalid,
  default_maximum_dns_addresses, maximum_dial_timeout, out_of_bound, parse_prefixes,
  new_egress_guard, resolve,
}
use astra_sync.Egress.Laws.Permitted.{resolve-Pins}

addr_lt-asym : (a b : Addr) → addr_lt a b ≡ true → addr_lt b a ≡ false
unfolding addr_lt
addr_lt-asym invalid_addr invalid_addr h = cc
addr_lt-asym invalid_addr (ip4 b) h = refl
addr_lt-asym invalid_addr (ip6 b w) h = refl
addr_lt-asym (ip4 a) invalid_addr h = cc
addr_lt-asym (ip4 a) (ip4 b) h = ground (arith, h)
addr_lt-asym (ip4 a) (ip6 b w) h = refl
addr_lt-asym (ip6 a z) invalid_addr h = cc
addr_lt-asym (ip6 a z) (ip4 b) h = cc
addr_lt-asym (ip6 a z) (ip6 b w) h = ground (arith, text_lt_asym z w)

few : (bound : ℤ) (l : ℕ) → int_lt (pos 32) bound ≡ false → int_lt bound (pos l) ≡ false → l ≤ 32
few (pos b) l h k = ground arith
few (negsuc b) l h k = absurd (cc)

bounded :
    (bound : ℤ) (xs : List Addr)
    → int_lt (pos 32) bound ≡ false
    → out_of_bound bound xs ≡ false
    → (0 < length xs) × (length xs ≤ 32)
unfolding out_of_bound
bounded bound xs h k = (ground arith, few bound (length xs) h (ground arith))

abbrev guard_in : Result Error EgressGuard → EgressGuard → EgressGuard
guard_in (ok g) other = g
guard_in (err x) other = other

module _ (n : Network) where
  -- What NewEgressGuard makes sure of.
  record Built (g : EgressGuard) : Type 0 where
    timeout_positive : is_positive g.guard_timeout ≡ true
    timeout_short : int_lt maximum_dial_timeout g.guard_timeout ≡ false
    bound_small : int_lt (pos 32) g.maximum_dns_addresses ≡ false
    two_attempts : g.maximum_dial_attempts ≡ 2

  new_egress_guard-Built :
      (cidrs : List Text) (maximum timeout : ℤ) (g : EgressGuard)
      → new_egress_guard n cidrs maximum timeout ≡ ok g
      → Built g
  unfolding new_egress_guard
  new_egress_guard-Built cidrs maximum timeout g h =
      let (timed, h₁) =
        check-passes (not (is_positive timeout) || int_lt maximum_dial_timeout timeout)
          guard_invalid _ h in
      let bound = if is_zero maximum then default_maximum_dns_addresses else maximum in
      let (small, h₂) =
        check-passes (int_lt bound (pos 1) || int_lt (pos 32) bound) bound_invalid _ h₁ in
      let (protected, parsed, h₃) =
        >>=-passes (parse_prefixes n protected_invalid trim_space cidrs) _ h₂ in
      subst Built (ap (λ r. guard_in r g) h₃) (record {
        timeout_positive = ground (arith, timed);
        timeout_short = ground (arith, timed);
        bound_small = ground (arith, small);
        two_attempts = refl;
      })

  -- Whatever the resolver returns, an endpoint that Resolve gives for a guard of NewEgressGuard has at
  -- least one address and at most 32, in ascending order; it is set to two attempts to connect,
  -- each with a positive timeout of at most 30 seconds.
  pub resolve-Bounded :
      (cidrs : List Text) (maximum timeout : ℤ) (g : EgressGuard) (o : Outside) (name : Text)
      (port : ℕ) (policy : Policy) (e : PinnedEndpoint)
      → new_egress_guard n cidrs maximum timeout ≡ ok g
      → resolve n o g name port policy ≡ ok e
      → (0 < length e.addresses)
        × (length e.addresses ≤ 32)
        × IsSorted addr_lt e.addresses
        × (e.max_attempts ≡ 2)
        × (is_positive e.dial_timeout ≡ true)
        × (int_lt (pos 30000000000) e.dial_timeout ≡ false)
  unfolding canonical_addresses
  resolve-Bounded cidrs maximum timeout g o name port policy e made resolved =
      let b = new_egress_guard-Built cidrs maximum timeout g made in
      let pins = resolve-Pins n o g name port policy e resolved in
      let (some_there, not_many) =
        bounded g.maximum_dns_addresses e.addresses b.bound_small pins.within in
      let (waits, tries) = pins.settings_kept in
      (
        some_there,
        not_many,
        subst (IsSorted addr_lt) pins.canonical
            (sort_by-IsSorted addr_lt addr_lt-asym (collect [] pins.found)),
        tries ∙ b.two_attempts,
        rw waits b.timeout_positive,
        rw waits b.timeout_short,
      )
