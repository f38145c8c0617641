-- ===== src/SwitchApi/Address.antt =====
-- What internal/switchapi uses of Go's net/netip: addresses and prefixes as values, and their tests.
use nosaic_switch.Base.{
  ℕ, ◌/◌, ◌%◌, ◌^◌, Bool, true, false, ltb, if◌then◌else◌, Eq, ◌==◌, Text, ℕ_discrete,
  Text-discrete, text_eq, nat_eq,
}
use nosaic_switch.Base.Int.{ℤ, pos, int_eq, ◌-ℤ◌}

-- netip.Addr: the zero value, an IPv4 address, or an IPv6 address with its zone. The number is the
-- address read as one big-endian integer.
pub data Addr : Type 0 where
  no_addr : Addr
  v4 : ℕ → Addr
  v6 : ℕ → Text → Addr

-- netip.Prefix: the length is kept plus one, so that the zero value is the invalid prefix.
pub record Prefix : Type 0 where
  pub addr : Addr
  pub bits_plus_one : ℕ

unfoldable pub Addr-discrete : Discrete Addr
unfolding ℕ_discrete Text-discrete
Addr-discrete = hlevel (ℕ_discrete, Text-discrete)

unfoldable pub Prefix-discrete : Discrete Prefix
unfolding ℕ_discrete Addr-discrete
Prefix-discrete = hlevel (ℕ_discrete, Addr-discrete)

instance abbrev pub addr_eq : Eq Addr
addr_eq = record { dec = Addr-discrete }

instance abbrev pub prefix_eq : Eq Prefix
prefix_eq = record { dec = Prefix-discrete }

-- The zero Prefix, which the contract reads as "any".
abbrev pub no_prefix : Prefix
no_prefix = record { addr = no_addr; bits_plus_one = 0 }

-- Prefix.IsValid and Prefix.Bits: -1 for an invalid prefix.
abbrev pub is_valid : Prefix → Bool
is_valid p = ltb 0 p.bits_plus_one

abbrev pub bits : Prefix → ℤ
bits p = pos p.bits_plus_one -ℤ pos 1

abbrev pub is4 : Addr → Bool
is4 (v4 _) = true
is4 _ = false

abbrev pub is6 : Addr → Bool
is6 (v6 _ _) = true
is6 _ = false

-- An IPv4 address mapped into ::ffff:0:0/96.
abbrev pub is4in6 : Addr → Bool
is4in6 (v6 n _) = n / 2 ^ 32 == 0xffff
is4in6 _ = false

-- 169.254.0.0/16 and fe80::/10; a mapped IPv4 address counts as the address it maps.
abbrev pub is_link_local_unicast : Addr → Bool
is_link_local_unicast (v4 n) = n / 2 ^ 16 == 0xa9fe
is_link_local_unicast (v6 n z) =
    if is4in6 (v6 n z) then n % 2 ^ 32 / 2 ^ 16 == 0xa9fe else n / 2 ^ 118 == 0x3fa
is_link_local_unicast no_addr = false

-- 224.0.0.0/4 and ff00::/8.
abbrev pub is_multicast : Addr → Bool
is_multicast (v4 n) = n / 2 ^ 28 == 0xe
is_multicast (v6 n z) = if is4in6 (v6 n z) then n % 2 ^ 32 / 2 ^ 28 == 0xe else n / 2 ^ 120 == 0xff
is_multicast no_addr = false
