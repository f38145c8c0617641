-- ===== src/Mem/Vlans.antt =====
-- VLANs and provider bridging: AddVLAN to VLANs of internal/nosd/mem/mem.go, and qinq.go.
use nosaic_switch.Base.{
  Bool, true, false, not, ◌&&◌, Option, none, some, List, [], ◌∷◌, ◌++◌, if◌then◌else◌, ◌==◌, Text,
  text_eq, nat_eq,
}
use nosaic_switch.Base.Int.{ℤ, pos, int_eq, ltb_ℤ}
use nosaic_switch.Base.Map.{Map, lookup, insert, delete, adjust, has, keys}
use nosaic_switch.Base.Exec.{ok, lift, reads, modify, refuse_if, refuse_when, ◌>>=◌, ◌>>◌}
use nosaic_switch.Base.Sort.{sort}
use nosaic_switch.SwitchApi.Address.{prefix_eq}
use nosaic_switch.SwitchApi.Types.{VlanMember, Vlan, gateway_eq}
use nosaic_switch.SwitchApi.Errors.{Feature, Error}
use nosaic_switch.SwitchApi.Limits.{outside, default_tpid, valid_tpid}
use nosaic_switch.Mem.State.{
  PortState, Switch, Op, get_flag, need, lookup_port, update_port, switchable,
}

unfoldable pub add_vlan : ℤ → Op Unit
add_vlan vid = do
  need (λ c. c.vlans) Feature.vlans
  refuse_if (outside vid 1 4094) (Error.vlan_out_of_range vid)
  modify (λ s. record s { vlans = insert vid true s.vlans })

-- `for p in names { delete(p.vlans, vid) }`
unfoldable pub drop_vlan : ℤ → List Text → Map Text PortState → Map Text PortState
drop_vlan vid [] m = m
drop_vlan vid (n ∷ ns) m =
    drop_vlan vid ns (adjust n (λ p. record p { vlans = delete vid p.vlans }) m)

unfoldable pub del_vlan : ℤ → Op Unit
del_vlan vid = do
  need (λ c. c.vlans) Feature.vlans
  refuse_when (λ s. has vid s.svis) (Error.vlan_has_svi vid)
  modify (λ s. record s {
    vlans = delete vid s.vlans;
    by_name = drop_vlan vid (switchable s) s.by_name;
  })

-- The untagged memberships other than `vid` go.
unfoldable pub drop_native : ℤ → Map ℤ Bool → Map ℤ Bool
drop_native vid [] = []
drop_native vid ((v, tagged) ∷ m) =
    let rest = drop_native vid m in
    if not tagged && not (v == vid) then rest else (v, tagged) ∷ rest

-- One native VLAN per port: an untagged membership replaces the last.
unfoldable pub join_vlan : ℤ → Bool → PortState → PortState
join_vlan vid tagged p = record p {
  vlans = insert vid tagged (if tagged then p.vlans else drop_native vid p.vlans);
}

unfoldable pub set_port_vlan : Text → ℤ → Bool → Op Unit
set_port_vlan name vid tagged = do
  need (λ c. c.vlans) Feature.vlans
  p ← lookup_port name
  refuse_if (not (p.lag == [])) (Error.lag_member name p.lag)
  refuse_when (λ s. not (get_flag vid s.vlans)) (Error.no_such_vlan vid)
  refuse_if (not (p.tunnel == pos 0)) (Error.tunnel_port name p.tunnel)
  update_port name (join_vlan vid tagged)

abbrev is_empty : Map ℤ Bool → Bool
is_empty [] = true
is_empty (_ ∷ _) = false

-- Without VLANs the port is routed again, with 802.1Q's own tag.
unfoldable pub leave_vlan : ℤ → PortState → PortState
leave_vlan vid p = record p {
  vlans = delete vid p.vlans;
  tunnel = if p.tunnel == vid then pos 0 else p.tunnel;
  tpid = if is_empty (delete vid p.vlans) then pos 0 else p.tpid;
}

unfoldable pub del_port_vlan : Text → ℤ → Op Unit
del_port_vlan name vid = do
  need (λ c. c.vlans) Feature.vlans
  lookup_port name
  update_port name (leave_vlan vid)

abbrev pub tpid_or : ℤ → ℤ
tpid_or t = if t == pos 0 then default_tpid else t

member_entry : ℤ → PortState → Option Bool → List VlanMember
member_entry vid p none = []
member_entry vid p (some tagged) =
    record { port = p.name; tagged = tagged; tunnel = p.tunnel == vid; tpid = tpid_or p.tpid } ∷ []

port_entry : ℤ → Option PortState → List VlanMember
unfolding member_entry
port_entry vid none = []
port_entry vid (some p) = member_entry vid p (lookup vid p.vlans)

unfoldable pub vlan_members : ℤ → List Text → Map Text PortState → List VlanMember
unfolding port_entry
vlan_members vid [] m = []
vlan_members vid (n ∷ ns) m = port_entry vid (lookup n m) ++ vlan_members vid ns m

vlan_entries : Switch → List ℤ → List Vlan
unfolding vlan_members
vlan_entries s [] = []
vlan_entries s (vid ∷ vids) =
    record { vid = vid; members = vlan_members vid (switchable s) s.by_name; svi = has vid s.svis }
    ∷ vlan_entries s vids

unfoldable pub vlans : Op (List Vlan)
unfolding vlan_entries
vlans = do
  need (λ c. c.vlans) Feature.vlans
  reads (λ s. ok (sort (λ v w. ltb_ℤ v.vid w.vid) (vlan_entries s (keys s.vlans))))

-- A tunnel port's service VLAN is its only membership.
unfoldable pub become_tunnel : ℤ → PortState → PortState
become_tunnel svid p = record p { vlans = (svid, false) ∷ []; tunnel = svid }

unfoldable pub set_port_tunnel : Text → ℤ → Op Unit
set_port_tunnel name svid = do
  need (λ c. c.qinq) Feature.qinq
  p ← lookup_port name
  refuse_if (not (p.lag == [])) (Error.lag_member name p.lag)
  refuse_when (λ s. not (get_flag svid s.vlans)) (Error.no_such_vlan svid)
  update_port name (become_tunnel svid)

unfoldable pub set_port_tpid : Text → ℤ → Op Unit
set_port_tpid name tpid = do
  need (λ c. c.qinq) Feature.qinq
  lift (valid_tpid tpid)
  lookup_port name
  update_port name (λ p. record p { tpid = tpid })
