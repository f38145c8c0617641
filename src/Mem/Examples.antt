-- ===== src/Mem/Examples.antt =====
-- The in-memory switch on a concrete history: its calls run, and the theorems apply to it.
use nosaic_switch.Base.{
  ◌≡◌, refl, true, false, none, some, List, [], ◌∷◌, map, if◌then◌else◌, ◌==◌, text, ℕ_discrete,
  Text-discrete, text_eq, nat_eq,
}
use nosaic_switch.Base.Int.{pos, int_eq, ℤ-discrete}
use nosaic_switch.Base.Map.{lookup, insert, delete, adjust, keys}
use nosaic_switch.Base.Exec.{ok, ◌>>=◌}
use nosaic_switch.Base.Decimal.{itoa}
use nosaic_switch.SwitchApi.Address.{Prefix, prefix_eq}
use nosaic_switch.SwitchApi.Types.{Route, Lag, no_mlag, MlagStatus, gateway_eq}
use nosaic_switch.SwitchApi.Names.{lag_name, valid_lag_name}
use nosaic_switch.Mem.State.{
  default_caps, Config, new_port, need, lookup_port, lookup_lag, update_port,
}
use nosaic_switch.Mem.Vlans
use nosaic_switch.Mem.Vlans.{drop_vlan, drop_native, join_vlan, leave_vlan, become_tunnel}
use nosaic_switch.Mem.Lags
use nosaic_switch.Mem.Lags.{
  new_lag, new_lag_port, create_lag, lags_full, too_many, member_check, check_members,
  release_members, join_members, join_all, wanted, set_lag_of,
}
use nosaic_switch.Mem.Mlag
use nosaic_switch.Mem.Mlag.{mlag_id_of, id_check, id_holder}
use nosaic_switch.Mem.Calls.{
  Net, Call, step, run, set_port_mtu, add_vlan, set_port_vlan, del_port_vlan, set_port_tunnel,
  add_svi, add_route, add_lag, set_lag_members, set_stp, set_mlag, set_lag_mlag,
  add_virtual_gateway,
}
use nosaic_switch.Mem.Writes.{after, Guard, Permit}
use nosaic_switch.Mem.Effect.{failed}
use nosaic_switch.Mem.State.{new}
use nosaic_switch.Mem.Aggregation.History.{IsAggregated, history-Aggregated}
use nosaic_switch.Mem.State.{front_names, front_ports}
use nosaic_switch.SwitchApi.Address.{v4, bits}
use nosaic_switch.Base.Decimal.{digits_run, value_from}
use nosaic_switch.Base.Unrepeated.{Unrepeated}
use mathlib.Core.List.{Perm}
use nosaic_switch.Mem.Outcome.{Outcome}
use nosaic_switch.Mem.Atomicity.{history-refused, history-done}
use nosaic_switch.Mem.Readers.{history-lags, history-mlag}
use nosaic_switch.Mem.Invariants.Known.{
  GatewaysKnown, SvisKnown, VlansFit, history-GatewaysKnown, history-SvisKnown, history-VlansFit,
}
use nosaic_switch.Mem.Invariants.Fit.{PortsFit}
use nosaic_switch.Mem.Invariants.Fit.History.{history-PortsFit}
use nosaic_switch.Mem.Invariants.Membership.{MembersKnown}
use nosaic_switch.Mem.Invariants.Membership.History.{history-MembersKnown}
use nosaic_switch.Mem.Invariants.MlagIds.{IdsApart, history-IdsApart}
use nosaic_switch.Mem.Invariants.AclPorts.{AclPortsKnown}
use nosaic_switch.Mem.Invariants.Settings.{IsConfigured, history-Configured}

-- The default datapath, with four ports.
abbrev four_ports : Config
four_ports = record { ports = pos 4; caps = default_caps; allow_ecmp_anyway = false }

-- One address and one MAC parse; a prefix reads as its length.
abbrev small_net : Net
small_net = record {
  parse_addr = λ t. if t == text "10.0.0.2" then some (v4 0x0a000002) else none;
  parse_mac =
      λ t. if t == text "02:00:00:00:00:01" then some (2 ∷ 0 ∷ 0 ∷ 0 ∷ 0 ∷ 1 ∷ []) else none;
  prefix_text = λ p. itoa (bits p);
}

abbrev net10 : Prefix
net10 = record { addr = v4 0x0a000000; bits_plus_one = 9 }

abbrev one_hop : Route
one_hop = record {
  prefix = net10;
  next_hops = record { via = v4 0x0a000002; port = text "swp1" } ∷ [];
}

-- VLANs, an SVI with a gateway, two LAGs of which one is the peer link and the other an interface of
-- the pair, a tunnel port, a route and spanning tree.
abbrev set_up : List Call
set_up =
    add_vlan (pos 10)
    ∷ add_vlan (pos 20)
    ∷ set_port_vlan (text "swp1") (pos 10) false
    ∷ set_port_vlan (text "swp1") (pos 20) false
    ∷ set_port_mtu (text "swp1") (pos 9000)
    ∷ add_svi (pos 10)
    ∷ add_virtual_gateway (text "vlan10") net10
    ∷ add_lag (text "po1") true
    ∷ add_lag (text "po2") false
    ∷ set_lag_members (text "po1") (text "swp2" ∷ text "swp3" ∷ [])
    ∷ set_port_tunnel (text "swp4") (pos 20)
    ∷ set_lag_mlag (text "po1") (pos 7)
    ∷ set_mlag
        (record no_mlag { enabled = true; peer_link = text "po2"; peer_address = text "10.0.0.2" })
    ∷ add_route one_hop
    ∷ set_stp (record {
      enabled = true;
      priority = pos 4096;
      hello_time = pos 2;
      forward_delay = pos 15;
      max_age = pos 20;
    })
    ∷ []

abbrev one_port : Config
one_port = record four_ports { ports = pos 1 }

abbrev switched : List Call
switched =
    add_vlan (pos 10) ∷ set_port_vlan (text "swp1") (pos 10) false ∷ add_lag (text "po1") true ∷ []

-- A port in a VLAN cannot be a member.
member_refused :
    failed
      (step small_net
        (set_lag_members (text "po1") (text "swp1" ∷ []))
        (run small_net switched (new one_port))).0
    ≡ true
unfolding step new run Vlans.add_vlan Vlans.set_port_vlan Lags.add_lag Lags.add_new_lag
    Lags.set_lag_members Lags.check_members Lags.lags_full Lags.new_lag need lookup_port lookup_lag
    update_port join_vlan lookup insert adjust drop_native ◌>>=◌ valid_lag_name front_names
    front_ports new_port itoa Text-discrete ℤ-discrete ℕ_discrete too_many digits_run value_from
    lag_name member_check
member_refused = refl

-- Once the port has left the VLAN it can.
abbrev left : List Call
left =
    add_vlan (pos 10)
    ∷ set_port_vlan (text "swp1") (pos 10) false
    ∷ del_port_vlan (text "swp1") (pos 10)
    ∷ add_lag (text "po1") true
    ∷ []

member_taken :
    failed
      (step small_net
        (set_lag_members (text "po1") (text "swp1" ∷ []))
        (run small_net left (new one_port))).0
    ≡ false
unfolding step new run Vlans.add_vlan Vlans.set_port_vlan join_vlan drop_native Vlans.del_port_vlan
    Lags.add_lag Lags.add_new_lag Lags.set_lag_members Lags.check_members Lags.release_members
    Lags.lags_full Lags.new_lag need lookup_port lookup_lag update_port leave_vlan lookup insert
    delete adjust ◌>>=◌ valid_lag_name front_names front_ports new_port itoa Text-discrete
    ℤ-discrete ℕ_discrete too_many digits_run value_from lag_name member_check
member_taken = refl

history-Aggregated_example : IsAggregated (run small_net set_up (new four_ports))
history-Aggregated_example = history-Aggregated small_net four_ports set_up

history-MembersKnown_example : MembersKnown (run small_net set_up (new four_ports))
history-MembersKnown_example = history-MembersKnown small_net four_ports set_up

history-PortsFit_example : PortsFit (run small_net set_up (new four_ports))
history-PortsFit_example = history-PortsFit small_net four_ports set_up

history-IdsApart_example : IdsApart (run small_net set_up (new four_ports))
history-IdsApart_example = history-IdsApart small_net four_ports set_up

history-Configured_example :
    IsConfigured small_net (run small_net set_up (new four_ports))
    × AclPortsKnown (run small_net set_up (new four_ports))
history-Configured_example = history-Configured small_net four_ports set_up

history-GatewaysKnown_example : GatewaysKnown (run small_net set_up (new four_ports))
history-GatewaysKnown_example = history-GatewaysKnown small_net four_ports set_up

history-SvisKnown_example : SvisKnown (run small_net set_up (new four_ports))
history-SvisKnown_example = history-SvisKnown small_net four_ports set_up

history-VlansFit_example : VlansFit (run small_net set_up (new four_ports))
history-VlansFit_example = history-VlansFit small_net four_ports set_up

history-refused_example :
    (step small_net
      (set_lag_members (text "po1") (text "swp1" ∷ []))
      (run small_net switched (new one_port))).1
    ≡ run small_net switched (new one_port)
history-refused_example =
    history-refused small_net one_port switched (set_lag_members (text "po1") (text "swp1" ∷ []))
      member_refused

history-done_example :
    ((step small_net
        (set_lag_members (text "po1") (text "swp1" ∷ []))
        (run small_net left (new one_port))).1
      ≡ after (set_lag_members (text "po1") (text "swp1" ∷ [])) (run small_net left (new one_port)))
    × (Guard small_net
          (set_lag_members (text "po1") (text "swp1" ∷ []))
          (run small_net left (new one_port))
        × Permit
            (set_lag_members (text "po1") (text "swp1" ∷ []))
            (run small_net left (new one_port)))
    × Outcome
        (set_lag_members (text "po1") (text "swp1" ∷ []))
        (run small_net left (new one_port))
        (step small_net
          (set_lag_members (text "po1") (text "swp1" ∷ []))
          (run small_net left (new one_port))).1
history-done_example =
    history-done small_net one_port left (set_lag_members (text "po1") (text "swp1" ∷ []))
      member_taken

history-lags_example :
    (gs : List Lag) × ((Lags.lags (run small_net set_up (new four_ports))).0 ≡ ok gs)
    × Unrepeated (run small_net set_up (new four_ports)).lags
    × Perm (map (λ x. x.name) gs) (keys (run small_net set_up (new four_ports)).lags)
history-lags_example = history-lags small_net four_ports set_up refl

history-mlag_example :
    (st : MlagStatus) × ((Mlag.mlag (run small_net set_up (new four_ports))).0 ≡ ok st)
history-mlag_example = history-mlag small_net four_ports set_up refl
