-- ===== src/SwitchApi/Limits.antt =====
-- The checks that every datapath shares (internal/switchapi/stp.go).
pub mod Standard
use nosaic_switch.Base.{
  ℕ, zero, suc, ◌/◌, ◌%◌, Bool, true, false, not, ◌&&◌, ◌||◌, Option, none, some, List, [], ◌∷◌,
  ltb, if◌then◌else◌, ◌==◌, Text, text, length, text_eq, nat_eq,
}
use nosaic_switch.Base.Int.{ℤ, pos, negsuc, int_eq, ◌+ℤ◌, ◌-ℤ◌, ◌*ℤ◌, rem_ℤ, ltb_ℤ}
use nosaic_switch.Base.Exec.{Check, err, check_if}
use nosaic_switch.SwitchApi.Address.{
  Addr, Prefix, bits, is4, is6, is4in6, is_link_local_unicast, is_multicast,
}
use nosaic_switch.SwitchApi.Types.{StpConfig, MlagConfig, LagOptions}
use nosaic_switch.SwitchApi.Errors.{
  Error, stp_priority, stp_cost, stp_hello, stp_forward_delay, stp_max_age, stp_port_priority,
  stp_times, mlag_no_peer_link, mlag_peer_address, mlag_priority, mlag_hello, mlag_dead,
  mlag_settle, mlag_heartbeat_port, mlag_reload_delay, not_a_mac, multicast_mac,
  gateway_not_unicast, gateway_not_address, gateway_length, lacp_rate, lacp_port_priority,
  lacp_system_priority, mac_aging_range, tpid,
}

-- `x < low || x > high`
abbrev pub outside : ℤ → ℕ → ℕ → Bool
outside x low high = ltb_ℤ x (pos low) || ltb_ℤ (pos high) x

unfoldable pub valid_stp_priority : ℤ → Check Error
valid_stp_priority p = check_if (outside p 0 61440 || not (rem_ℤ p 4096 == pos 0)) (stp_priority p)

unfoldable pub valid_stp_cost : ℤ → Check Error
valid_stp_cost c = check_if (outside c 0 200000000) (stp_cost c)

-- 802.1D-2004's path cost for a speed in Mb/s.
unfoldable pub stp_default_cost : ℤ → ℤ
stp_default_cost (negsuc n) = pos 200000000
stp_default_cost (pos zero) = pos 200000000
stp_default_cost (pos (suc n)) = let c = 20000000 / suc n in if ltb c 1 then pos 1 else pos c

-- `parse_addr` is netip.ParseAddr.
unfoldable pub valid_mlag : (Text → Option Addr) → MlagConfig → Check Error
valid_mlag parse_addr c =
    if c.peer_link == []
    then err mlag_no_peer_link
    else if not (c.peer_address == [])
        && elim (parse_addr c.peer_address) [ none ↦ true | some _ ↦ false ]
    then err (mlag_peer_address c.peer_address)
    else check_if (outside c.priority 0 65535) (mlag_priority c.priority)

-- `parse_mac` is net.ParseMAC: the octets. A multicast address has the low bit of the first set.
unfoldable pub valid_virtual_mac : (Text → Option (List ℕ)) → Text → Check Error
valid_virtual_mac parse_mac mac = elim (parse_mac mac) [
  | none ↦ err (not_a_mac mac)
  | some hw ↦
      if length hw == 6
      then check_if (elim hw [ [] ↦ false | h ∷ _ ↦ h % 2 == 1 ]) (multicast_mac mac)
      else err (not_a_mac mac)
]

gateway_bits : Prefix → ℕ → Check Error
gateway_bits p max = check_if (outside (bits p) 1 max) (gateway_length p)

unfoldable pub valid_virtual_gateway : Prefix → Check Error
unfolding gateway_bits
valid_virtual_gateway p =
    if is6 p.addr && not (is4in6 p.addr)
    then (if is_link_local_unicast p.addr || is_multicast p.addr
        then err (gateway_not_unicast p)
        else gateway_bits p 128)
    else if not (is4 p.addr)
    then err (gateway_not_address p)
    else gateway_bits p 32

-- A value that was left out takes its default.
abbrev pub or_default : ℤ → ℕ → ℤ
or_default x d = if x == pos 0 then pos d else x

abbrev pub stp_hello_of : StpConfig → ℤ
stp_hello_of c = or_default c.hello_time 2

abbrev pub stp_forward_of : StpConfig → ℤ
stp_forward_of c = or_default c.forward_delay 15

abbrev pub stp_max_age_of : StpConfig → ℤ
stp_max_age_of c = or_default c.max_age 20

unfoldable pub stp_times_check : ℤ → ℤ → ℤ → Check Error
stp_times_check h f m =
    if outside h 1 10
    then err (stp_hello h)
    else if outside f 4 30
    then err (stp_forward_delay f)
    else if outside m 6 40
    then err (stp_max_age m)
    else check_if (ltb_ℤ (pos 2 *ℤ (f -ℤ pos 1)) m || ltb_ℤ m (pos 2 *ℤ (h +ℤ pos 1)))
        (stp_times m h f)

unfoldable pub valid_stp_times : StpConfig → Check Error
unfolding stp_times_check
valid_stp_times c = stp_times_check (stp_hello_of c) (stp_forward_of c) (stp_max_age_of c)

unfoldable pub valid_stp_port_priority : ℤ → Check Error
valid_stp_port_priority p =
    check_if (not (p == pos 0) && (outside p 16 240 || not (rem_ℤ p 16 == pos 0)))
      (stp_port_priority p)

unfoldable pub valid_lag_options : LagOptions → Check Error
valid_lag_options o =
    if not (o.rate == []) && not (o.rate == text "fast") && not (o.rate == text "slow")
    then err (lacp_rate o.rate)
    else check_if (outside o.port_priority 0 65535) (lacp_port_priority o.port_priority)

unfoldable pub valid_lacp_priority : ℤ → Check Error
valid_lacp_priority p = check_if (outside p 0 65535) (lacp_system_priority p)

abbrev pub mlag_hello_of : MlagConfig → ℤ
mlag_hello_of c = or_default c.hello_ms 1000

abbrev pub mlag_dead_of : MlagConfig → ℤ
mlag_dead_of c = or_default c.dead_ms 3500

abbrev pub mlag_settle_of : MlagConfig → ℤ
mlag_settle_of c = or_default c.settle_ms 2500

abbrev pub mlag_port_of : MlagConfig → ℤ
mlag_port_of c = or_default c.heartbeat_port 47101

unfoldable pub mlag_times_check : ℤ → ℤ → ℤ → ℤ → ℤ → Check Error
mlag_times_check h d s p reload =
    if outside h 100 10000
    then err (mlag_hello h)
    else if ltb_ℤ d (pos 2 *ℤ h) || ltb_ℤ (pos 60000) d
    then err (mlag_dead d h)
    else if outside s 0 60000
    then err (mlag_settle s)
    else if outside p 1 65535
    then err (mlag_heartbeat_port p)
    else check_if (outside reload 0 3600) (mlag_reload_delay reload)

unfoldable pub valid_mlag_times : MlagConfig → Check Error
unfolding mlag_times_check
valid_mlag_times c =
    mlag_times_check (mlag_hello_of c) (mlag_dead_of c) (mlag_settle_of c) (mlag_port_of c)
      c.reload_delay

abbrev pub default_mac_aging : ℤ
default_mac_aging = pos 300

unfoldable pub valid_mac_aging : ℤ → Check Error
valid_mac_aging s = check_if (not (s == pos 0) && outside s 10 1000000) (mac_aging_range s)

abbrev pub default_tpid : ℤ
default_tpid = pos 0x8100

unfoldable pub valid_tpid : ℤ → Check Error
valid_tpid t =
    check_if
      (not (t == pos 0 || t == pos 0x8100 || t == pos 0x88a8 || t == pos 0x9100 || t == pos 0x9200))
      (tpid t)
