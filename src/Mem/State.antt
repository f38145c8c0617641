-- ===== src/Mem/State.antt =====
-- The state of the in-memory switch, its construction, and what its methods share: the types and `New`
-- of internal/nosd/mem/mem.go, `lookup`, `switchable`, and `stp` of stp.go.
-- A `*port` is named by its key: a port or a LAG by its name in `by_name` (the entry that `ports` and
-- `lags[name].port` also point to), an SVI by its VLAN in `svis`. Names never change after creation.
use nosaic_switch.Base.{
  ℕ, zero, suc, ◌+◌, Bool, true, false, not, Option, none, some, List, [], ◌∷◌, ◌++◌, if◌then◌else◌,
  ◌==◌, Text, text, text_eq, nat_eq,
}
use nosaic_switch.Base.Int.{ℤ, pos, negsuc, int_eq}
use nosaic_switch.Base.Map.{Map, lookup, insert, adjust, keys}
use nosaic_switch.Base.Exec.{Result, ok, err, Method, reads, modify, refuse_when}
use nosaic_switch.Base.Sort.{sort, text_le}
use nosaic_switch.Base.Decimal.{itoa}
use nosaic_switch.SwitchApi.Address.{Prefix, prefix_eq}
use nosaic_switch.SwitchApi.Types.{
  Capabilities, Route, LagOptions, StpConfig, StpPortConfig, MlagConfig, no_mlag, VirtualGateway,
  gateway_eq,
}
use nosaic_switch.SwitchApi.Errors.{Feature, Error}
use nosaic_switch.SwitchApi.Acl.{AclRule}

pub record PortState : Type 0 where
  pub name : Text
  pub lag : Text
  pub is_lag : Bool
  pub admin_up : Bool
  pub mtu : ℤ
  pub vlans : Map ℤ Bool
  pub addrs : Map Prefix Bool
  pub tunnel : ℤ
  pub tpid : ℤ

-- The LAG's own `port` is `by_name` at the LAG's name.
pub record LagState : Type 0 where
  pub lacp : Bool
  pub mlag : ℤ
  pub opts : LagOptions
  pub members : List Text

pub record StpState : Type 0 where
  pub cfg : StpConfig
  pub ports : Map Text StpPortConfig

pub record Config : Type 0 where
  pub ports : ℤ
  pub caps : Capabilities
  pub allow_ecmp_anyway : Bool

-- What a fully featured software datapath claims.
abbrev pub default_caps : Capabilities
default_caps = record {
  contract = text "1.13";
  driver = text "mem";
  max_ports = pos 64;
  vlans = true;
  max_vlans = pos 4094;
  svis = true;
  lags = true;
  max_lags = pos 64;
  max_lag_members = pos 8;
  lacp = true;
  stp = true;
  mlag = true;
  virtual_gateway = true;
  virtual_gateway6 = true;
  mac_aging = true;
  qinq = true;
  l2_learning = true;
  max_fdb = pos 0;
  l3 = true;
  max_v4 = pos 0;
  max_v6 = pos 0;
  ipv6 = true;
  ecmp = true;
  max_ecmp = pos 8;
  acl = true;
  acl_slices = pos 0;
  acl_entries = pos 1024;
  acl6 = true;
  acl6_entries = pos 512;
  counters = true;
  sfp = false;
  breakout = false;
}

pub record Switch : Type 0 where
  pub cfg : Config
  pub started : Bool
  pub ports : List Text
  pub by_name : Map Text PortState
  pub vlans : Map ℤ Bool
  pub svis : Map ℤ PortState
  pub lags : Map Text LagState
  pub routes : Map Prefix Route
  pub acls : Map ℤ AclRule
  pub stpst : Option StpState
  pub mlag : MlagConfig
  pub lacp_pri : ℤ
  pub vmac : Text
  pub gws : Map VirtualGateway Bool
  pub aging : Option ℤ

abbrev pub Op : Type 0 → Type 0
Op A = Method Switch Error A

-- `&port{name, mtu: 1500, ...}`
unfoldable pub new_port : Text → PortState
new_port n = record {
  name = n;
  lag = [];
  is_lag = false;
  admin_up = false;
  mtu = pos 1500;
  vlans = [];
  addrs = [];
  tunnel = pos 0;
  tpid = pos 0;
}

-- swp1, swp2, ... : `count` names from `first` on.
unfoldable pub front_names : ℕ → ℕ → List Text
front_names first zero = []
front_names first (suc count) = (text "swp" ++ itoa (pos first)) ∷ front_names (first + 1) count

unfoldable pub front_ports : List Text → Map Text PortState
unfolding new_port
front_ports [] = []
front_ports (n ∷ ns) = insert n (new_port n) (front_ports ns)

-- The number of ports, 4 unless the configuration says more than none.
abbrev pub port_count : ℤ → ℕ
port_count (pos zero) = 4
port_count (pos (suc n)) = suc n
port_count (negsuc _) = 4

abbrev with_defaults : Config → Config
with_defaults c = record c {
  ports = pos (port_count c.ports);
  caps = record c.caps {
    contract = if c.caps.contract == [] then text "1.13" else c.caps.contract;
    driver = if c.caps.driver == [] then text "mem" else c.caps.driver;
  };
}

unfoldable pub new : Config → Switch
unfolding front_names front_ports
new c =
    let names = front_names 1 (port_count c.ports) in
    record {
      cfg = with_defaults c;
      started = false;
      ports = names;
      by_name = front_ports names;
      vlans = [];
      svis = [];
      lags = [];
      routes = [];
      acls = [];
      stpst = none;
      mlag = no_mlag;
      lacp_pri = pos 0;
      vmac = [];
      gws = [];
      aging = none;
    }

-- Reading a `map[int]bool`: false at a missing key.
abbrev pub get_flag : ℤ → Map ℤ Bool → Bool
get_flag k m = elim (lookup k m) [ none ↦ false | some b ↦ b ]

-- `if !s.cfg.Caps.X { return switchapi.Unsupported(...) }`
unfoldable pub need : (Capabilities → Bool) → Feature → Op Unit
need c f = refuse_when (λ s. not (c s.cfg.caps)) (Error.unsupported f)

abbrev pub or_missing : {A : Type 0} → Error → Option A → Result Error A
or_missing e none = err e
or_missing e (some a) = ok a

unfoldable pub lookup_port : Text → Op PortState
lookup_port name = reads (λ s. or_missing (Error.no_such_port name) (lookup name s.by_name))

-- `s.lags[name]`, an error if it is not there.
unfoldable pub lookup_lag : Text → Op LagState
lookup_lag name = reads (λ s. or_missing (Error.no_such_lag name) (lookup name s.lags))

-- A write through the pointer that `lookup_port name` gave.
unfoldable pub update_port : Text → (PortState → PortState) → Op Unit
update_port name f = modify (λ s. record s { by_name = adjust name f s.by_name })

-- The names of everything that can be in a VLAN: the front-panel ports, then the LAGs in name order.
unfoldable pub switchable : Switch → List Text
switchable s = s.ports ++ sort text_le (keys s.lags)
