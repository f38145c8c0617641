-- ===== src/Mem/Outcome.antt =====
-- What the tables say behind a call that succeeds (internal/nosd/mem), where the write that `after` lists
-- uses a function of the code.
use nosaic_switch.Base.{
  ◌≡◌, ◌≢◌, refl, sym, ap, ◌∙◌, Eq, inl, inr, Bool, true, false, ◌&&◌, none, some, arith, ==_refl,
  Bool-cases, Option-cases, Text, contains, if◌then◌else◌, text_eq, nat_eq,
}
use nosaic_switch.Base.Int.{ℤ, int_eq}
use nosaic_switch.Base.Map.{
  Map, lookup, insert, delete, adjust, adjusted, has, lookup-insert, lookup-delete, lookup-adjust,
  has-delete,
}
use nosaic_switch.Base.Every.{Every}
use nosaic_switch.SwitchApi.Address.{prefix_eq}
use nosaic_switch.SwitchApi.Types.{gateway_eq}
use nosaic_switch.SwitchApi.Names.{svi_name}
use nosaic_switch.Mem.State.{PortState, LagState, StpState, Switch}
use nosaic_switch.Mem.Vlans.{join_vlan, leave_vlan, become_tunnel}
use nosaic_switch.Mem.Lags.{wanted, new_lag}
use nosaic_switch.Mem.Stp.{with_port}
use nosaic_switch.Mem.Calls.{
  Net, Call, del_vlan, set_port_vlan, del_port_vlan, set_port_tunnel, del_svi, add_lag,
  set_lag_members, del_lag, set_stp, set_stp_port,
}
use nosaic_switch.Mem.Writes.{after, Guard}
use nosaic_switch.Mem.Views.{contains-wanted}
use nosaic_switch.Mem.Aggregation.History.{IsAggregated}
use nosaic_switch.Mem.Invariants.Known.{drop_gateways-gone}
use nosaic_switch.Mem.Invariants.Membership.{del_vlan-gone}

-- `s` before the call, `t` behind it.
abbrev pub Outcome : Call → Switch → Switch → Type 0
Outcome (del_vlan vid) s t = Every (λ n p. lookup vid p.vlans ≡ none) t.by_name
Outcome (set_port_vlan name vid tagged) s t =
    (p : PortState) × (lookup name t.by_name ≡ some p) × (lookup vid p.vlans ≡ some tagged)
Outcome (del_port_vlan name vid) s t =
    (p : PortState) → lookup name t.by_name ≡ some p → lookup vid p.vlans ≡ none
Outcome (set_port_tunnel name svid) s t =
    (p : PortState) × (lookup name t.by_name ≡ some p)
    × (p.tunnel ≡ svid)
    × (lookup svid p.vlans ≡ some false)
Outcome (del_svi vid) s t = (has vid t.svis ≡ false) × Every (λ g b. g.svi ≢ svi_name vid) t.gws
Outcome (add_lag name lacp) s t = (l : LagState) × (lookup name t.lags ≡ some l) × (l.lacp ≡ lacp)
Outcome (set_lag_members name ports) s t =
    (l : LagState) × (lookup name t.lags ≡ some l)
    × ((n : Text) → contains l.members n ≡ (contains s.ports n && contains ports n))
Outcome (del_lag name) s t =
    (has name t.lags ≡ false) × (has name s.lags ≡ true → has name t.by_name ≡ false)
Outcome (set_stp cfg) s t = (st : StpState) × (t.stpst ≡ some st) × (st.cfg ≡ cfg)
Outcome (set_stp_port name cfg) s t =
    (st : StpState) × (t.stpst ≡ some st) × (lookup name st.ports ≡ some cfg)
Outcome _ s t = Unit

adjusted_lem :
    {V : Type 0} (k : Text) (f : V → V) (m : Map Text V) {v : V}
    → lookup k m ≡ some v
    → lookup k (adjust k f m) ≡ some (f v)
adjusted_lem k f m e =
    lookup-adjust k k f m ∙ ap (λ b. adjusted b f (lookup k m)) (==_refl k) ∙ ap (adjusted true f) e

inserted :
    {K V : Type 0} ⦃e : Eq K⦄ (k : K) (v : V) (m : Map K V) → lookup k (insert k v m) ≡ some v
inserted k v m = lookup-insert k k v m ∙ ap (λ b. if b then some v else lookup k m) (==_refl k)

deleted : {V : Type 0} (k : Text) (m : Map Text V) → has k (delete k m) ≡ false
deleted k m = ground (arith, has-delete k k m, ==_refl k)

joined :
    (vid : ℤ) (tagged : Bool) (p : PortState)
    → lookup vid (join_vlan vid tagged p).vlans ≡ some tagged
unfolding join_vlan
joined vid tagged p = inserted vid tagged _

left_vlan :
    (name : Text) (vid : ℤ) (m : Map Text PortState) (p : PortState)
    → lookup name (adjust name (leave_vlan vid) m) ≡ some p
    → lookup vid p.vlans ≡ none
unfolding leave_vlan
left_vlan name vid m p e = elim (Option-cases (lookup name m)) [
  | inl gone ↦ absurd (ground (arith, lookup-adjust name name (leave_vlan vid) m, ==_refl name))
  | inr (q, there) ↦
      let is : some (leave_vlan vid q) ≡ some p =
        sym (adjusted_lem name (leave_vlan vid) m there) ∙ e in
      let same : leave_vlan vid q ≡ p = cc in
      ap (λ (r : PortState). lookup vid r.vlans) (sym same)
      ∙ ground (arith, ==_refl vid, lookup-delete vid vid q.vlans)
]

tunnelled : (svid : ℤ) (p : PortState) → lookup svid (become_tunnel svid p).vlans ≡ some false
unfolding become_tunnel lookup
tunnelled svid p = ground (arith, ==_refl svid)

tunnel_named : (svid : ℤ) (p : PortState) → (become_tunnel svid p).tunnel ≡ svid
unfolding become_tunnel
tunnel_named svid p = refl

module _ (net : Net) where
  pub after-Outcome :
      (c : Call) (s : Switch) → IsAggregated s → Guard net c s → Outcome c s (after c s)
  unfolding with_port
  after-Outcome (del_vlan vid) s a g = del_vlan-gone s vid a
  after-Outcome (set_port_vlan name vid tagged) s a g =
      let (p, e, single, plain) = g.0 in
      (join_vlan vid tagged p, adjusted_lem name _ s.by_name e, joined vid tagged p)
  after-Outcome (del_port_vlan name vid) s a g = left_vlan name vid s.by_name
  after-Outcome (set_port_tunnel name svid) s a g =
      let (p, e, single, plain) = g.0 in
      (become_tunnel svid p, adjusted_lem name _ s.by_name e, tunnel_named svid p, tunnelled svid p)
  after-Outcome (del_svi vid) s a g = (
    ground (arith, has-delete vid vid s.svis, ==_refl vid),
    λ k b e. drop_gateways-gone (svi_name vid) k b s.gws e,
  )
  after-Outcome (add_lag name lacp) s a g = elim (Bool-cases (has name s.lags)) [
    | inr fresh ↦ rw fresh (new_lag lacp, inserted name (new_lag lacp) s.lags, refl)
    | inl old ↦ elim (Option-cases (lookup name s.lags)) [
      | inl gone ↦ absurd (ground (arith, old, gone))
      | inr (l, e) ↦ rw old (record l { lacp = lacp }, adjusted_lem name _ s.lags e, refl)
    ]
  ]
  after-Outcome (set_lag_members name ports) s a g = elim (Option-cases (lookup name s.lags)) [
    | inl gone ↦ absurd (let there : has name s.lags ≡ true = g.0 in ground (arith, gone, there))
    | inr (l, e) ↦ (
      record l { members = wanted ports s.ports },
      adjusted_lem name _ s.lags e,
      contains-wanted ports s.ports,
    )
  ]
  after-Outcome (del_lag name) s a g = elim (Bool-cases (has name s.lags)) [
    | inl there ↦ rw there (deleted name s.lags, λ h. deleted name _)
    | inr gone ↦ rw gone (gone, λ h. cc)
  ]
  after-Outcome (set_stp cfg) s a g = (_, refl, refl)
  after-Outcome (set_stp_port name cfg) s a g = (_, refl, inserted name cfg _)
  after-Outcome _ s a g = tt
