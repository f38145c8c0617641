-- ===== src/Mem/Writes.antt =====
-- What a call writes when its checks pass, and what those checks have found.
use nosaic_switch.Base.{
  ◌≡◌, ◌≢◌, not, ◌||◌, ◌==◌, true, false, none, some, List, [], ◌∷◌, if◌then◌else◌, Text, length,
  contains, text_eq, nat_eq,
}
use nosaic_switch.Base.Int.{pos, int_eq}
use nosaic_switch.Base.Map.{Map, lookup, insert, delete, adjust, has, keys}
use nosaic_switch.Base.Exec.{Result, ok, err}
use nosaic_switch.SwitchApi.Address.{prefix_eq, is6}
use nosaic_switch.SwitchApi.Types.{no_mlag, gateway_eq}
use nosaic_switch.SwitchApi.Names.{svi_name, valid_lag_name}
use nosaic_switch.SwitchApi.Errors.{Error}
use nosaic_switch.SwitchApi.Limits.{
  outside, valid_stp_priority, valid_stp_cost, valid_mlag, valid_virtual_mac, valid_virtual_gateway,
  valid_stp_times, valid_stp_port_priority, valid_lag_options, valid_lacp_priority,
  valid_mlag_times, valid_mac_aging, valid_tpid,
}
use nosaic_switch.SwitchApi.Acl.{validate}
use nosaic_switch.Mem.State.{PortState, LagState, Switch, new_port, get_flag, switchable}
use nosaic_switch.Mem.Vlans.{drop_vlan, join_vlan, leave_vlan, become_tunnel}
use nosaic_switch.Mem.Svis.{Place, place_of, write_at, drop_gateways, names_svi, gateway_key}
use nosaic_switch.Mem.Routes.{too_many_paths}
use nosaic_switch.Mem.Lags.{
  create_lag, lags_full, too_many, check_members, join_members, set_lag_of,
}
use nosaic_switch.Mem.Stp.{stp_of, with_port}
use nosaic_switch.Mem.Mlag.{mlag_id_of, id_check}
use nosaic_switch.Mem.Calls.{
  Net, Call, start, close, set_port_admin, set_port_mtu, add_vlan, del_vlan, set_port_vlan,
  del_port_vlan, set_port_tunnel, set_port_tpid, add_svi, del_svi, add_address, del_address,
  add_route, del_route, set_acl, del_acl, add_lag, set_lag_members, del_lag, set_lag_options,
  set_lacp_system_priority, set_stp, set_stp_port, set_mac_aging, set_mlag, set_lag_mlag,
  set_virtual_mac, add_virtual_gateway, del_virtual_gateway,
}

-- The members of a LAG, none of a LAG that is not there.
unfoldable pub members_of : Text → Map Text LagState → List Text
members_of name m = elim (lookup name m) [ none ↦ [] | some l ↦ l.members ]

-- The ports after the members that are not wanted have left.
unfoldable pub released : List Text → List Text → Map Text PortState → Map Text PortState
released want [] m = m
released want (n ∷ ns) m =
    released want ns (if contains want n then m else adjust n (set_lag_of []) m)

abbrev pub write_place : Result Error Place → (PortState → PortState) → Switch → Switch
write_place (err _) f s = s
write_place (ok place) f s = write_at place f s

abbrev pub after : Call → Switch → Switch
after start s = record s { started = true }
after close s = record s { started = false }
after (set_port_admin name up) s = record s {
  by_name = adjust name (λ p. record p { admin_up = up }) s.by_name;
}
after (set_port_mtu name mtu) s = record s {
  by_name = adjust name (λ p. record p { mtu = mtu }) s.by_name;
}
after (add_vlan vid) s = record s { vlans = insert vid true s.vlans }
after (del_vlan vid) s = record s {
  vlans = delete vid s.vlans;
  by_name = drop_vlan vid (switchable s) s.by_name;
}
after (set_port_vlan name vid tagged) s = record s {
  by_name = adjust name (join_vlan vid tagged) s.by_name;
}
after (del_port_vlan name vid) s = record s { by_name = adjust name (leave_vlan vid) s.by_name }
after (set_port_tunnel name svid) s = record s {
  by_name = adjust name (become_tunnel svid) s.by_name;
}
after (set_port_tpid name tpid) s = record s {
  by_name = adjust name (λ p. record p { tpid = tpid }) s.by_name;
}
after (add_svi vid) s = record s {
  svis = if has vid s.svis then s.svis else insert vid (new_port (svi_name vid)) s.svis;
}
after (del_svi vid) s = record s {
  svis = delete vid s.svis;
  gws = drop_gateways (svi_name vid) s.gws;
}
after (add_address name addr) s =
    write_place (place_of name s) (λ p. record p { addrs = insert addr true p.addrs }) s
after (del_address name addr) s =
    write_place (place_of name s) (λ p. record p { addrs = delete addr p.addrs }) s
after (add_route r) s = record s { routes = insert r.prefix r s.routes }
after (del_route p) s = record s { routes = delete p s.routes }
after (set_acl r) s = record s { acls = insert r.seq r s.acls }
after (del_acl seq) s = record s { acls = delete seq s.acls }
after (add_lag name lacp) s =
    if has name s.lags
    then record s { lags = adjust name (λ l. record l { lacp = lacp }) s.lags }
    else create_lag name lacp s
after (set_lag_members name ports) s =
    join_members name ports
      (record s { by_name = released ports (members_of name s.lags) s.by_name })
after (del_lag name) s =
    if has name s.lags
    then record s {
      by_name = delete name (released [] (members_of name s.lags) s.by_name);
      lags = delete name s.lags;
    }
    else s
after (set_lag_options name o) s = record s {
  lags = adjust name (λ l. record l { opts = o }) s.lags;
}
after (set_lacp_system_priority p) s = record s { lacp_pri = p }
after (set_stp cfg) s = record s { stpst = some (record (stp_of s) { cfg = cfg }) }
after (set_stp_port name cfg) s = record s { stpst = some (with_port name cfg (stp_of s)) }
after (set_mac_aging seconds) s = record s { aging = some seconds }
after (set_mlag cfg) s = record s { mlag = if cfg.enabled then cfg else no_mlag }
after (set_lag_mlag name id) s = record s {
  lags = adjust name (λ l. record l { mlag = id }) s.lags;
}
after (set_virtual_mac mac) s = record s { vmac = mac }
after (add_virtual_gateway svi addr) s = record s { gws = insert (gateway_key svi addr) true s.gws }
after (del_virtual_gateway svi addr) s = record s { gws = delete (gateway_key svi addr) s.gws }

-- A port that is there, is in no LAG, and meets `P`.
abbrev pub Single : Text → (PortState → Type 0) → Switch → Type 0
Single name P s = (p : PortState) × (lookup name s.by_name ≡ some p) × (p.lag ≡ []) × P p

-- What the datapath's capabilities and the tables say of a call that succeeds: the features that it
-- takes are there, and so is what it names, where the checks of `Guard` do not say so.
abbrev pub Permit : Call → Switch → Type 0
Permit start s = Unit
Permit close s = Unit
Permit (set_port_admin name up) s = has name s.by_name ≡ true
Permit (set_port_mtu name mtu) s = has name s.by_name ≡ true
Permit (add_vlan vid) s = s.cfg.caps.vlans ≡ true
Permit (del_vlan vid) s = s.cfg.caps.vlans ≡ true
Permit (set_port_vlan name vid tagged) s = s.cfg.caps.vlans ≡ true
Permit (del_port_vlan name vid) s = (s.cfg.caps.vlans ≡ true) × (has name s.by_name ≡ true)
Permit (set_port_tunnel name svid) s = s.cfg.caps.qinq ≡ true
Permit (set_port_tpid name tpid) s = (s.cfg.caps.qinq ≡ true) × (has name s.by_name ≡ true)
Permit (add_svi vid) s = s.cfg.caps.svis ≡ true
Permit (del_svi vid) s = s.cfg.caps.svis ≡ true
Permit (add_address name addr) s =
    (s.cfg.caps.l3 ≡ true) × ((place : Place) × (place_of name s ≡ ok place))
Permit (del_address name addr) s =
    (s.cfg.caps.l3 ≡ true) × ((place : Place) × (place_of name s ≡ ok place))
Permit (add_route r) s = s.cfg.caps.l3 ≡ true
Permit (del_route p) s = s.cfg.caps.l3 ≡ true
Permit (set_acl r) s = (if r.family == pos 6 then s.cfg.caps.acl6 else s.cfg.caps.acl) ≡ true
Permit (del_acl seq) s = ((s.cfg.caps.acl || s.cfg.caps.acl6) ≡ true) × (has seq s.acls ≡ true)
Permit (add_lag name lacp) s = (s.cfg.caps.lags ≡ true) × ((not lacp || s.cfg.caps.lacp) ≡ true)
Permit (set_lag_members name ports) s = s.cfg.caps.lags ≡ true
Permit (del_lag name) s = s.cfg.caps.lags ≡ true
Permit (set_lag_options name o) s = (s.cfg.caps.lags ≡ true) × (has name s.lags ≡ true)
Permit (set_lacp_system_priority p) s = s.cfg.caps.lacp ≡ true
Permit (set_stp cfg) s = s.cfg.caps.stp ≡ true
Permit (set_stp_port name cfg) s = s.cfg.caps.stp ≡ true
Permit (set_mac_aging seconds) s = s.cfg.caps.mac_aging ≡ true
Permit (set_mlag cfg) s = s.cfg.caps.mlag ≡ true
Permit (set_lag_mlag name id) s = s.cfg.caps.mlag ≡ true
Permit (set_virtual_mac mac) s = s.cfg.caps.virtual_gateway ≡ true
Permit (add_virtual_gateway svi addr) s =
    (s.cfg.caps.virtual_gateway ≡ true)
    × ((not (is6 addr.addr) || s.cfg.caps.virtual_gateway6) ≡ true)
Permit (del_virtual_gateway svi addr) s = s.cfg.caps.virtual_gateway ≡ true

module _ (net : Net) where
  abbrev pub Guard : Call → Switch → Type 0
  Guard (set_port_mtu name mtu) s = (outside mtu 68 9216 ≡ false)
  Guard (add_vlan vid) s = (outside vid 1 4094 ≡ false)
  Guard (del_vlan vid) s = (has vid s.svis ≡ false)
  Guard (set_port_vlan name vid tagged) s =
      Single name (λ p. p.tunnel ≡ pos 0) s × (get_flag vid s.vlans ≡ true)
  Guard (set_port_tunnel name svid) s = Single name (λ p. Unit) s × (get_flag svid s.vlans ≡ true)
  Guard (set_port_tpid name tpid) s = (valid_tpid tpid ≡ ok tt)
  Guard (add_svi vid) s = (get_flag vid s.vlans ≡ true)
  Guard (add_route r) s = (length r.next_hops ≢ 0) × (too_many_paths r s ≡ false)
  Guard (set_acl r) s = (validate r (some (λ name. has name s.by_name)) ≡ ok tt)
  Guard (add_lag name lacp) s =
      (valid_lag_name name ≡ ok tt) × (has name s.lags ≡ false → lags_full s ≡ false)
  Guard (set_lag_members name ports) s =
      (has name s.lags ≡ true)
      × (too_many s ports ≡ false)
      × (check_members name ports s.by_name ≡ ok tt)
  Guard (set_lag_options name o) s = (valid_lag_options o ≡ ok tt)
  Guard (set_lacp_system_priority p) s = (valid_lacp_priority p ≡ ok tt)
  Guard (set_stp cfg) s = (valid_stp_priority cfg.priority ≡ ok tt) × (valid_stp_times cfg ≡ ok tt)
  Guard (set_stp_port name cfg) s =
      (valid_stp_cost cfg.cost ≡ ok tt)
      × (valid_stp_port_priority cfg.priority ≡ ok tt)
      × Single name (λ p. Unit) s
  Guard (set_mac_aging seconds) s = (valid_mac_aging seconds ≡ ok tt)
  Guard (set_mlag cfg) s =
      cfg.enabled ≡ true
      → (valid_mlag net.parse_addr cfg ≡ ok tt)
        × (valid_mlag_times cfg ≡ ok tt)
        × Single cfg.peer_link (λ p. Unit) s
        × (mlag_id_of (lookup cfg.peer_link s.lags) ≡ pos 0)
  Guard (set_lag_mlag name id) s =
      (outside id 0 1000 ≡ false) × (has name s.lags ≡ true) × (id_check name id s ≡ ok tt)
  Guard (set_virtual_mac mac) s = (valid_virtual_mac net.parse_mac mac ≡ ok tt)
  Guard (add_virtual_gateway svi addr) s =
      (valid_virtual_gateway addr ≡ ok tt) × (names_svi svi (keys s.svis) ≡ true)
  Guard _ s = Unit
