-- ===== src/Mem/Stp.antt =====
-- Spanning tree as one bridge alone sees it, and the age of learned addresses (internal/nosd/mem/stp.go
-- and aging.go).
use nosaic_switch.Base.{
  Bool, true, false, not, ◌&&◌, Option, none, some, List, [], ◌∷◌, ◌++◌, if◌then◌else◌, ◌==◌, Text,
  text, text_eq, nat_eq,
}
use nosaic_switch.Base.Int.{ℤ, pos, int_eq}
use nosaic_switch.Base.Map.{Map, lookup, insert}
use nosaic_switch.Base.Exec.{ok, lift, reads, modify, refuse_if, ◌>>=◌, ◌>>◌}
use nosaic_switch.SwitchApi.Address.{prefix_eq}
use nosaic_switch.SwitchApi.Types.{
  StpConfig, stp_default_priority, StpPortConfig, StpPort, StpStatus, gateway_eq,
}
use nosaic_switch.SwitchApi.Errors.{Feature, Error}
use nosaic_switch.SwitchApi.Limits.{
  or_default, valid_stp_priority, valid_stp_cost, stp_default_cost, stp_hello_of, stp_forward_of,
  stp_max_age_of, valid_stp_times, valid_stp_port_priority, default_mac_aging, valid_mac_aging,
}
use nosaic_switch.Mem.State.{PortState, StpState, Switch, Op, need, lookup_port, switchable}
use nosaic_switch.Base.Decimal.{hex4}

unfoldable pub default_stp : StpState
default_stp = record {
  cfg = record {
    enabled = false;
    priority = stp_default_priority;
    hello_time = pos 0;
    forward_delay = pos 0;
    max_age = pos 0;
  };
  ports = [];
}

-- `s.stp()`: the state is made when it is first asked for.
unfoldable pub stp_of : Switch → StpState
stp_of s = elim s.stpst [ none ↦ default_stp | some st ↦ st ]

unfoldable pub set_stp : StpConfig → Op Unit
set_stp cfg = do
  need (λ c. c.stp) Feature.stp
  lift (valid_stp_priority cfg.priority)
  lift (valid_stp_times cfg)
  modify (λ s. record s { stpst = some (record (stp_of s) { cfg = cfg }) })

unfoldable pub with_port : Text → StpPortConfig → StpState → StpState
with_port name cfg st = record st { ports = insert name cfg st.ports }

unfoldable pub set_stp_port : Text → StpPortConfig → Op Unit
unfolding with_port
set_stp_port name cfg = do
  need (λ c. c.stp) Feature.stp
  lift (valid_stp_cost cfg.cost)
  lift (valid_stp_port_priority cfg.priority)
  p ← lookup_port name
  refuse_if (not (p.lag == [])) (Error.lag_member name p.lag)
  modify (λ s. record s { stpst = some (with_port name cfg (stp_of s)) })

abbrev no_port_config : StpPortConfig
no_port_config = record {
  edge = false;
  cost = pos 0;
  priority = pos 0;
  bpdu_guard = false;
  root_guard = false;
}

abbrev port_config : Option StpPortConfig → StpPortConfig
port_config none = no_port_config
port_config (some c) = c

stp_port : Text → StpPortConfig → StpPort
stp_port name c = record {
  port = name;
  role = text "designated";
  state = text "forwarding";
  edge = c.edge;
  cost = if c.cost == pos 0 then stp_default_cost (pos 10000) else c.cost;
  priority = or_default c.priority 128;
  bpdu_guard = c.bpdu_guard;
  root_guard = c.root_guard;
  guard = [];
}

-- A port with no VLAN, or in a LAG, is not a bridge port.
abbrev is_bridge_port : PortState → Bool
is_bridge_port p = not (elim p.vlans [ [] ↦ true | _ ∷ _ ↦ false ]) && p.lag == []

stp_entry : StpState → Option PortState → List StpPort
unfolding stp_port
stp_entry st none = []
stp_entry st (some p) =
    if is_bridge_port p then stp_port p.name (port_config (lookup p.name st.ports)) ∷ [] else []

unfoldable pub stp_ports : StpState → List Text → Map Text PortState → List StpPort
unfolding stp_entry
stp_ports st [] m = []
stp_ports st (n ∷ ns) m = stp_entry st (lookup n m) ++ stp_ports st ns m

-- One bridge, always the root: its own times are the tree's.
unfoldable pub stp_status : Switch → StpStatus
unfolding stp_ports
stp_status s =
    let st = stp_of s in
    let id = hex4 st.cfg.priority ++ text ".020000000001" in
    record {
      enabled = st.cfg.enabled;
      priority = st.cfg.priority;
      bridge_id = id;
      root_id = id;
      root_cost = pos 0;
      root_port = [];
      topology_changes = pos 0;
      ports = stp_ports st (switchable s) s.by_name;
      hello_time = stp_hello_of st.cfg;
      forward_delay = stp_forward_of st.cfg;
      max_age = stp_max_age_of st.cfg;
      root_hello_time = stp_hello_of st.cfg;
      root_forward_delay = stp_forward_of st.cfg;
      root_max_age = stp_max_age_of st.cfg;
    }

unfoldable pub stp : Op StpStatus
stp = do
  need (λ c. c.stp) Feature.stp
  modify (λ s. record s { stpst = some (stp_of s) })
  reads (λ s. ok (stp_status s))

unfoldable pub set_mac_aging : ℤ → Op Unit
set_mac_aging seconds = do
  need (λ c. c.mac_aging) Feature.mac_aging
  lift (valid_mac_aging seconds)
  modify (λ s. record s { aging = some seconds })

abbrev aging_of : Option ℤ → ℤ
aging_of none = default_mac_aging
aging_of (some a) = a

unfoldable pub mac_aging : Op ℤ
mac_aging = do need (λ c. c.mac_aging) Feature.mac_aging; reads (λ s. ok (aging_of s.aging))
