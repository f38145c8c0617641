-- ===== src/Mem/Calls.antt =====
-- The switchapi.Switch interface as one step function: a call of a method that writes, and the state
-- that it leaves. Calls are serialised by the mutex, so a history is a list of calls.
use nosaic_switch.Base.{ℕ, Bool, Option, List, [], ◌∷◌, Text, text_eq, nat_eq}
use nosaic_switch.Base.Int.{ℤ, int_eq}
use nosaic_switch.SwitchApi.Address.{Addr, Prefix, prefix_eq}
use nosaic_switch.SwitchApi.Types.{
  Route, LagOptions, StpConfig, StpPortConfig, MlagConfig, gateway_eq,
}
use nosaic_switch.SwitchApi.Acl.{AclRule}
use nosaic_switch.Mem.State.{Switch, Op}
use nosaic_switch.Mem.Ports
use nosaic_switch.Mem.Vlans
use nosaic_switch.Mem.Svis
use nosaic_switch.Mem.Routes
use nosaic_switch.Mem.Acls
use nosaic_switch.Mem.Lags
use nosaic_switch.Mem.Stp
use nosaic_switch.Mem.Mlag

-- What the switch takes from Go's net packages: ParseAddr, ParseMAC and Prefix.String.
pub record Net : Type 0 where
  pub parse_addr : Text → Option Addr
  pub parse_mac : Text → Option (List ℕ)
  pub prefix_text : Prefix → Text

pub data Call : Type 0 where
  start close : Call
  set_port_admin : Text → Bool → Call
  set_port_mtu : Text → ℤ → Call
  add_vlan del_vlan : ℤ → Call
  set_port_vlan : Text → ℤ → Bool → Call
  del_port_vlan set_port_tunnel set_port_tpid : Text → ℤ → Call
  add_svi del_svi : ℤ → Call
  add_address del_address : Text → Prefix → Call
  add_route : Route → Call
  del_route : Prefix → Call
  set_acl : AclRule → Call
  del_acl : ℤ → Call
  add_lag : Text → Bool → Call
  set_lag_members : Text → List Text → Call
  del_lag : Text → Call
  set_lag_options : Text → LagOptions → Call
  set_lacp_system_priority : ℤ → Call
  set_stp : StpConfig → Call
  set_stp_port : Text → StpPortConfig → Call
  set_mac_aging : ℤ → Call
  set_mlag : MlagConfig → Call
  set_lag_mlag : Text → ℤ → Call
  set_virtual_mac : Text → Call
  add_virtual_gateway del_virtual_gateway : Text → Prefix → Call

module _ (net : Net) where
  unfoldable pub step : Call → Op Unit
  step start = Ports.start
  step close = Ports.close
  step (set_port_admin name up) = Ports.set_port_admin name up
  step (set_port_mtu name mtu) = Ports.set_port_mtu name mtu
  step (add_vlan vid) = Vlans.add_vlan vid
  step (del_vlan vid) = Vlans.del_vlan vid
  step (set_port_vlan name vid tagged) = Vlans.set_port_vlan name vid tagged
  step (del_port_vlan name vid) = Vlans.del_port_vlan name vid
  step (set_port_tunnel name svid) = Vlans.set_port_tunnel name svid
  step (set_port_tpid name tpid) = Vlans.set_port_tpid name tpid
  step (add_svi vid) = Svis.add_svi vid
  step (del_svi vid) = Svis.del_svi vid
  step (add_address name addr) = Svis.add_address name addr
  step (del_address name addr) = Svis.del_address name addr
  step (add_route r) = Routes.add_route r
  step (del_route p) = Routes.del_route p
  step (set_acl r) = Acls.set_acl r
  step (del_acl seq) = Acls.del_acl seq
  step (add_lag name lacp) = Lags.add_lag name lacp
  step (set_lag_members name ports) = Lags.set_lag_members name ports
  step (del_lag name) = Lags.del_lag name
  step (set_lag_options name o) = Lags.set_lag_options name o
  step (set_lacp_system_priority p) = Lags.set_lacp_system_priority p
  step (set_stp cfg) = Stp.set_stp cfg
  step (set_stp_port name cfg) = Stp.set_stp_port name cfg
  step (set_mac_aging seconds) = Stp.set_mac_aging seconds
  step (set_mlag cfg) = Mlag.set_mlag net.parse_addr cfg
  step (set_lag_mlag name id) = Mlag.set_lag_mlag name id
  step (set_virtual_mac mac) = Svis.set_virtual_mac net.parse_mac mac
  step (add_virtual_gateway svi addr) = Svis.add_virtual_gateway svi addr
  step (del_virtual_gateway svi addr) = Svis.del_virtual_gateway svi addr

  -- A refused call is one more call: the state is what it left.
  unfoldable pub run : List Call → Switch → Switch
  run [] s = s
  run (c ∷ cs) s = run cs (step c s).1
