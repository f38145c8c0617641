-- ===== src/SwitchApi/Errors.antt =====
-- The errors of internal/switchapi and internal/nosd/mem: one constructor for each message, with the
-- values that its text names.
use nosaic_switch.Base.{ℕ, Text}
use nosaic_switch.Base.Int.{ℤ}
use nosaic_switch.SwitchApi.Address.{Prefix}

-- What `Unsupported` says that the datapath lacks.
pub data Feature : Type 0 where
  counters vlans svis l2_learning l3 acl acl6 lags lacp stp mlag virtual_gateway : Feature
  virtual_gateway6 mac_aging qinq : Feature
  multipath : ℕ → Feature

pub data Error : Type 0 where
  -- ErrUnsupported, wrapped
  unsupported : Feature → Error
  -- a nil pointer is read: the process panics
  nil_pointer : Error
  no_such_port no_such_l3 no_such_lag : Text → Error
  mtu_out_of_range vlan_out_of_range no_such_vlan vlan_has_svi : ℤ → Error
  -- a port, and the LAG that it is a member of
  lag_member : Text → Text → Error
  -- a port, and the service VLAN that it is a tunnel port of
  tunnel_port : Text → ℤ → Error
  no_next_hops : Prefix → Error
  not_lag_name : Text → Error
  lags_in_use : Text → ℤ → Error
  too_many_members : Text → ℕ → ℤ → Error
  is_a_lag switched_port : Text → Error
  no_such_rule : ℤ → Error
  -- checks of values
  stp_priority stp_cost stp_hello stp_forward_delay stp_max_age stp_port_priority : ℤ → Error
  stp_times : ℤ → ℤ → ℤ → Error
  mlag_no_peer_link : Error
  mlag_peer_address : Text → Error
  mlag_priority mlag_hello mlag_settle mlag_heartbeat_port mlag_reload_delay mlag_id : ℤ → Error
  mlag_dead : ℤ → ℤ → Error
  mlag_peer_link_interface : Text → ℤ → Error
  mlag_is_peer_link : Text → Error
  mlag_id_taken : ℤ → Text → Error
  not_a_mac multicast_mac lacp_rate not_an_svi : Text → Error
  gateway_not_unicast gateway_not_address gateway_length : Prefix → Error
  lacp_port_priority lacp_system_priority mac_aging_range tpid : ℤ → Error
  acl_sequence acl_family acl_prefix_family : ℤ → Error
  acl_no_port : Text → Error
  acl_needs_l4 : Error
