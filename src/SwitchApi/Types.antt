-- ===== src/SwitchApi/Types.antt =====
-- The types of the contract (internal/switchapi/switchapi.go and acl.go). A field keeps the source's
-- name; "" is the empty text and Go's `int` is ℤ.
use nosaic_switch.Base.{
  ℕ, Bool, true, false, ◌&&◌, ◌||◌, List, [], if◌then◌else◌, Eq, ◌==◌, Text, text, Text-discrete,
  text_eq, nat_eq,
}
use nosaic_switch.Base.Int.{ℤ, pos, int_eq, leb_ℤ}
use nosaic_switch.SwitchApi.Address.{Addr, Prefix, addr_eq, prefix_eq, Prefix-discrete}

pub record Capabilities : Type 0 where
  pub contract : Text
  pub driver : Text
  pub max_ports : ℤ
  pub vlans : Bool
  pub max_vlans : ℤ
  pub svis : Bool
  pub lags : Bool
  pub max_lags : ℤ
  pub max_lag_members : ℤ
  pub lacp : Bool
  pub stp : Bool
  pub mlag : Bool
  pub virtual_gateway : Bool
  pub virtual_gateway6 : Bool
  pub mac_aging : Bool
  pub qinq : Bool
  pub l2_learning : Bool
  pub max_fdb : ℤ
  pub l3 : Bool
  pub max_v4 : ℤ
  pub max_v6 : ℤ
  pub ipv6 : Bool
  pub ecmp : Bool
  pub max_ecmp : ℤ
  pub acl : Bool
  pub acl_slices : ℤ
  pub acl_entries : ℤ
  pub acl6 : Bool
  pub acl6_entries : ℤ
  pub counters : Bool
  pub sfp : Bool
  pub breakout : Bool

-- Whether a route of this many next-hops can be installed.
unfoldable pub supports_ecmp : Capabilities → ℤ → Bool
supports_ecmp c paths =
    if leb_ℤ paths (pos 1) then true else c.ecmp && (c.max_ecmp == pos 0 || leb_ℤ paths c.max_ecmp)

pub record Port : Type 0 where
  pub name : Text
  pub index : ℕ

pub record PortStatus : Type 0 where
  pub name : Text
  pub admin_up : Bool
  pub oper_up : Bool
  pub speed_mbps : ℤ
  pub full_duplex : Bool
  pub mtu : ℤ

pub record Counters : Type 0 where
  pub rx_packets : ℕ
  pub tx_packets : ℕ
  pub rx_bytes : ℕ
  pub tx_bytes : ℕ
  pub rx_errors : ℕ
  pub tx_errors : ℕ
  pub rx_drops : ℕ
  pub tx_drops : ℕ

pub record NextHop : Type 0 where
  pub via : Addr
  pub port : Text

pub record Route : Type 0 where
  pub prefix : Prefix
  pub next_hops : List NextHop

pub record VlanMember : Type 0 where
  pub port : Text
  pub tagged : Bool
  pub tunnel : Bool
  pub tpid : ℤ

pub record Vlan : Type 0 where
  pub vid : ℤ
  pub members : List VlanMember
  pub svi : Bool

pub record LagOptions : Type 0 where
  pub rate : Text
  pub passive : Bool
  pub port_priority : ℤ

pub record LagMember : Type 0 where
  pub port : Text
  pub active : Bool

pub record Lag : Type 0 where
  pub name : Text
  pub lacp : Bool
  pub members : List LagMember
  pub mlag : ℤ
  pub options : LagOptions
  pub system_priority : ℤ

abbrev pub lacp_default_priority : ℤ
lacp_default_priority = pos 32768

pub record StpConfig : Type 0 where
  pub enabled : Bool
  pub priority : ℤ
  pub hello_time : ℤ
  pub forward_delay : ℤ
  pub max_age : ℤ

abbrev pub stp_default_priority : ℤ
stp_default_priority = pos 32768

pub record StpPortConfig : Type 0 where
  pub edge : Bool
  pub cost : ℤ
  pub priority : ℤ
  pub bpdu_guard : Bool
  pub root_guard : Bool

pub record StpPort : Type 0 where
  pub port : Text
  pub role : Text
  pub state : Text
  pub edge : Bool
  pub cost : ℤ
  pub priority : ℤ
  pub bpdu_guard : Bool
  pub root_guard : Bool
  pub guard : Text

pub record StpStatus : Type 0 where
  pub enabled : Bool
  pub priority : ℤ
  pub bridge_id : Text
  pub root_id : Text
  pub root_cost : ℤ
  pub root_port : Text
  pub topology_changes : ℤ
  pub ports : List StpPort
  pub hello_time : ℤ
  pub forward_delay : ℤ
  pub max_age : ℤ
  pub root_hello_time : ℤ
  pub root_forward_delay : ℤ
  pub root_max_age : ℤ

pub record MlagConfig : Type 0 where
  pub enabled : Bool
  pub peer_link : Text
  pub peer_address : Text
  pub priority : ℤ
  pub hello_ms : ℤ
  pub dead_ms : ℤ
  pub settle_ms : ℤ
  pub heartbeat_port : ℤ
  pub reload_delay : ℤ

-- The zero MLAGConfig: MLAG off.
abbrev pub no_mlag : MlagConfig
no_mlag = record {
  enabled = false;
  peer_link = [];
  peer_address = [];
  priority = pos 0;
  hello_ms = pos 0;
  dead_ms = pos 0;
  settle_ms = pos 0;
  heartbeat_port = pos 0;
  reload_delay = pos 0;
}

pub record MlagInterface : Type 0 where
  pub lag : Text
  pub id : ℤ
  pub local_up : Bool
  pub peer : Bool
  pub state : Text
  pub held : Text
  pub held_seconds : ℤ

pub record MlagStatus : Type 0 where
  pub enabled : Bool
  pub role : Text
  pub peer_link : Text
  pub peer_link_up : Bool
  pub peer_alive : Bool
  pub heartbeat : Bool
  pub peer : Text
  pub system_id : Text
  pub interfaces : List MlagInterface
  pub synced_macs : ℤ
  pub peer_address : Text
  pub priority : ℤ
  pub hello_ms : ℤ
  pub dead_ms : ℤ
  pub settle_ms : ℤ
  pub heartbeat_port : ℤ
  pub reload_delay : ℤ

abbrev pub mlag_max_id : ℤ
mlag_max_id = pos 1000

pub record VirtualGateway : Type 0 where
  pub svi : Text
  pub address : Prefix
  pub mac : Text

unfoldable pub VirtualGateway-discrete : Discrete VirtualGateway
unfolding Text-discrete Prefix-discrete
VirtualGateway-discrete = hlevel (Text-discrete, Prefix-discrete)

instance abbrev pub gateway_eq : Eq VirtualGateway
gateway_eq = record { dec = VirtualGateway-discrete }

abbrev pub default_virtual_mac : Text
default_virtual_mac = text "00:00:5e:00:01:01"

pub record FdbEntry : Type 0 where
  pub mac : Text
  pub vlan : ℤ
  pub port : Text
  pub static : Bool
