-- ===== src/Egress/Address.antt =====
-- What control-plane/scheduler/internal/connectiontest/egress.go uses of `net/netip`: an address is
-- the number it stands for, a prefix the number and the count of its fixed bits. An IPv6 address
-- may have a zone, which is empty where it has none.
use astra_sync.Prelude.{
  ℕ, ◌-◌, ◌*◌, ◌/◌, ◌%◌, ◌^◌, Text, text_eq, text_lt, is_empty, Bool, true, false, ◌&&◌, ◌||◌, ltb,
  ◌==◌, if◌then◌else◌,
}

pub data Addr : Type 0 where
  invalid_addr : Addr
  ip4 : ℕ → Addr
  ip6 : ℕ → Text → Addr

pub data IpPrefix : Type 0 where
  prefix4 : ℕ → ℕ → IpPrefix
  prefix6 : ℕ → ℕ → IpPrefix

-- Whether two numbers of `width` bits agree on the first `bits`.
unfoldable pub same_network : ℕ → ℕ → ℕ → ℕ → Bool
same_network width bits a b = (a / 2 ^ (width - bits)) == (b / 2 ^ (width - bits))

-- `Prefix.Contains`: no prefix contains an address with a zone or of the other family.
unfoldable pub prefix_contains : IpPrefix → Addr → Bool
prefix_contains (prefix4 n bits) (ip4 a) = same_network 32 bits n a
prefix_contains (prefix6 n bits) (ip6 a zone) = is_empty zone && same_network 128 bits n a
prefix_contains p a = false

-- `Addr.Unmap`: an IPv4 address that is mapped into `::ffff:0:0/96` is the IPv4 address.
unfoldable pub unmap : Addr → Addr
unmap invalid_addr = invalid_addr
unmap (ip4 a) = ip4 a
unmap (ip6 a zone) = if (a / 2 ^ 32) == 0xffff then ip4 (a - 0xffff * 2 ^ 32) else ip6 a zone

abbrev pub addr_is_valid : Addr → Bool
addr_is_valid invalid_addr = false
addr_is_valid a = true

-- `==` of two addresses.
unfoldable pub addr_eq : Addr → Addr → Bool
addr_eq invalid_addr invalid_addr = true
addr_eq (ip4 a) (ip4 b) = a == b
addr_eq (ip6 a z) (ip6 b w) = (a == b) && text_eq z w
addr_eq a b = false

-- `Addr.Less`: first the family, then the number, then the zone.
unfoldable pub addr_lt : Addr → Addr → Bool
addr_lt invalid_addr invalid_addr = false
addr_lt invalid_addr b = true
addr_lt (ip4 a) (ip4 b) = ltb a b
addr_lt (ip4 a) (ip6 b w) = true
addr_lt (ip6 a z) (ip6 b w) = ltb a b || ((a == b) && text_lt z w)
addr_lt a b = false

unfoldable pub is_unspecified : Addr → Bool
is_unspecified (ip4 a) = a == 0
is_unspecified (ip6 a zone) = (a == 0) && is_empty zone
is_unspecified invalid_addr = false

unfoldable pub is_loopback : Addr → Bool
is_loopback (ip4 a) = same_network 32 8 0x7f000000 a
is_loopback (ip6 a zone) = a == 1
is_loopback invalid_addr = false

unfoldable pub is_multicast : Addr → Bool
is_multicast (ip4 a) = same_network 32 4 0xe0000000 a
is_multicast (ip6 a zone) = same_network 128 8 (0xff * 2 ^ 120) a
is_multicast invalid_addr = false

unfoldable pub is_link_local_unicast : Addr → Bool
is_link_local_unicast (ip4 a) = same_network 32 16 0xa9fe0000 a
is_link_local_unicast (ip6 a zone) = same_network 128 10 (0xfe80 * 2 ^ 112) a
is_link_local_unicast invalid_addr = false

-- An IPv6 address of the kind has any flags (its third digit) and the scope 2.
unfoldable pub is_link_local_multicast : Addr → Bool
is_link_local_multicast (ip4 a) = same_network 32 24 0xe0000000 a
is_link_local_multicast (ip6 a zone) =
    same_network 128 8 (0xff * 2 ^ 120) a && (((a / 2 ^ 112) % 16) == 2)
is_link_local_multicast invalid_addr = false

unfoldable pub is_private : Addr → Bool
is_private (ip4 a) =
    same_network 32 8 0x0a000000 a
    || (same_network 32 12 0xac100000 a || same_network 32 16 0xc0a80000 a)
is_private (ip6 a zone) = same_network 128 7 (0xfc * 2 ^ 120) a
is_private invalid_addr = false
