-- ===== src/Egress/Denied.antt =====
-- The classes of addresses of control-plane/scheduler/internal/connectiontest/egress.go: those that no
-- test may reach, and those that a policy must allow.
use astra_sync.Prelude.{
  ◌+◌, ◌*◌, ◌^◌, Bool, false, not, ◌||◌, List, [], ◌∷◌, ◌++◌, if◌then◌else◌, sort_by,
}
use astra_sync.Egress.Address.{
  Addr, IpPrefix, prefix4, prefix6, prefix_contains, unmap, addr_is_valid, addr_eq, addr_lt,
  is_unspecified, is_loopback, is_multicast, is_link_local_unicast, is_link_local_multicast,
  is_private,
}

abbrev pub hard_denied_prefixes : List IpPrefix
hard_denied_prefixes =
    prefix4 0 8
    ∷ prefix4 0x7f000000 8
    ∷ prefix4 0xa9fe0000 16
    ∷ prefix4 0xe0000000 4
    ∷ prefix4 0xf0000000 4
    ∷ prefix6 0 128
    ∷ prefix6 1 128
    ∷ prefix6 (0xfe80 * 2 ^ 112) 10
    ∷ prefix6 (0xff00 * 2 ^ 112) 8
    ∷ prefix4 0x646464c8 32
    ∷ prefix6 (0xfd000ec2 * 2 ^ 96 + 0x254) 128
    ∷ []

abbrev pub restricted_prefixes : List IpPrefix
restricted_prefixes =
    prefix4 0x64400000 10
    ∷ prefix4 0xc0000000 24
    ∷ prefix4 0xc6120000 15
    ∷ prefix6 (0xfc00 * 2 ^ 112) 7
    ∷ []

unfoldable pub prefixes_contain : List IpPrefix → Addr → Bool
prefixes_contain [] a = false
prefixes_contain (p ∷ ps) a = prefix_contains p a || prefixes_contain ps a

-- The special addresses of `hardDenied`, before it asks for the prefixes.
abbrev pub special : Addr → Bool
special a =
    not (addr_is_valid a)
    || (is_unspecified a
        || (is_loopback a
            || (is_multicast a || (is_link_local_unicast a || is_link_local_multicast a))))

unfoldable pub hard_denied : Addr → Bool
hard_denied a = special (unmap a) || prefixes_contain hard_denied_prefixes (unmap a)

unfoldable pub requires_explicit_allow : Addr → List IpPrefix → Bool
requires_explicit_allow a protected =
    is_private (unmap a)
    || (prefixes_contain restricted_prefixes (unmap a) || prefixes_contain protected (unmap a))

unfoldable pub seen_addr : Addr → List Addr → Bool
seen_addr a [] = false
seen_addr a (b ∷ bs) = addr_eq b a || seen_addr a bs

-- The loop; the addresses met so far are also the keys of `seen`.
unfoldable pub collect : List Addr → List Addr → List Addr
collect seen [] = seen
collect seen (v ∷ vs) =
    let skip = not (addr_is_valid (unmap v)) || seen_addr (unmap v) seen in
    collect (if skip then seen else seen ++ unmap v ∷ []) vs

unfoldable pub canonical_addresses : List Addr → List Addr
canonical_addresses values = sort_by addr_lt (collect [] values)
