-- ===== src/Mem/Invariants/Settings.antt =====
-- The settings that the in-memory switch holds, and the checks of internal/switchapi.
use nosaic_switch.Base.{
  ◌≡◌, refl, ap, ◌∙◌, ◌≢◌, Bool, true, false, none, some, List, if◌then◌else◌, length, ℕ_discrete,
  Text-discrete, text_eq, nat_eq,
}
use nosaic_switch.Base.Int.{ℤ, int_eq, ℤ-discrete}
use nosaic_switch.Base.Map.{has}
use nosaic_switch.Base.Exec.{ok}
use nosaic_switch.SwitchApi.Address.{prefix_eq}
use nosaic_switch.SwitchApi.Types.{MlagConfig, no_mlag, gateway_eq}
use nosaic_switch.SwitchApi.Names.{svi_name}
use nosaic_switch.SwitchApi.Limits.{
  outside, valid_stp_priority, valid_stp_cost, valid_mlag, valid_virtual_gateway, valid_stp_times,
  valid_stp_port_priority, valid_lag_options, valid_lacp_priority, valid_mlag_times,
  valid_mac_aging,
}
use nosaic_switch.SwitchApi.Acl.{validate}
use nosaic_switch.Mem.State.{Config, Switch}
use nosaic_switch.Mem.Svis.{place_of, gateway_key}
use nosaic_switch.Mem.Routes.{too_many_paths}
use nosaic_switch.Mem.Lags.{new_lag}
use nosaic_switch.Mem.Stp.{stp_of, with_port}
use nosaic_switch.Mem.Calls.{
  Net, Call, run, del_svi, add_address, del_address, add_route, del_route, set_acl, del_acl,
  add_lag, set_lag_members, del_lag, set_lag_options, set_lacp_system_priority, set_stp,
  set_stp_port, set_mac_aging, set_mlag, set_lag_mlag, add_virtual_gateway, del_virtual_gateway,
}
use nosaic_switch.Base.Every.{Every, Every-empty, Every-insert, Every-delete, Every-adjust}
use nosaic_switch.Mem.Writes.{after, Guard}
use nosaic_switch.Mem.State.{new}
use nosaic_switch.Mem.Aggregation.History.{IsAggregated}
use nosaic_switch.Mem.Invariants.AclPorts.{AclPortsKnown, history-AclPortsKnown}
use nosaic_switch.Mem.Invariants.{history-keeps, place-keeps, choice-keeps}
use nosaic_switch.SwitchApi.Acl.{validate-unasked}
use nosaic_switch.SwitchApi.Limits.{stp_times_check}
use nosaic_switch.Mem.Stp.{default_stp}
use nosaic_switch.Mem.Invariants.Known.{drop_gateways-some}

-- A route has a next-hop and no more paths than the switch takes, and stands under its prefix.
abbrev pub RoutesFit : Switch → Type 0
RoutesFit s =
    Every (λ p r. (r.prefix ≡ p) × (length r.next_hops ≢ 0) × (too_many_paths r s ≡ false)) s.routes

-- An access list's rule is valid, whatever port it names, and stands under its sequence number.
abbrev pub AclsFit : Switch → Type 0
AclsFit s = Every (λ seq r. (r.seq ≡ seq) × (validate r none ≡ ok tt)) s.acls

abbrev pub LagsFit : Switch → Type 0
LagsFit s =
    Every (λ n l. (valid_lag_options l.opts ≡ ok tt) × (outside l.mlag 0 1000 ≡ false)) s.lags

abbrev pub StpFits : Switch → Type 0
StpFits s =
    let st = stp_of s in
    (valid_stp_priority st.cfg.priority ≡ ok tt)
    × (valid_stp_times st.cfg ≡ ok tt)
    × Every (λ n c. (valid_stp_cost c.cost ≡ ok tt) × (valid_stp_port_priority c.priority ≡ ok tt))
        st.ports

abbrev pub AgingFits : Switch → Type 0
AgingFits s = (a : ℤ) → s.aging ≡ some a → valid_mac_aging a ≡ ok tt

abbrev pub GatewaysFit : Switch → Type 0
GatewaysFit s = Every (λ g b. valid_virtual_gateway g.address ≡ ok tt) s.gws

abbrev pub MlagFits : Net → Switch → Type 0
MlagFits net s =
    s.mlag.enabled ≡ true
    → (valid_mlag net.parse_addr s.mlag ≡ ok tt) × (valid_mlag_times s.mlag ≡ ok tt)

-- The settings that the switch holds are ones that the checks accept; the port that an access-list rule
-- names is not asked for here.
abbrev pub IsConfigured : Net → Switch → Type 0
IsConfigured net s =
    RoutesFit s
    × AclsFit s
    × LagsFit s
    × StpFits s
    × AgingFits s
    × GatewaysFit s
    × MlagFits net s
    × (valid_lacp_priority s.lacp_pri ≡ ok tt)

some_aging : (a b : ℤ) → valid_mac_aging a ≡ ok tt → some a ≡ some b → valid_mac_aging b ≡ ok tt
some_aging a b v e = ap valid_mac_aging (cc) ∙ v

new_lag-Fits :
    (lacp : Bool)
    → (valid_lag_options (new_lag lacp).opts ≡ ok tt) × (outside (new_lag lacp).mlag 0 1000 ≡ false)
unfolding new_lag valid_lag_options ℕ_discrete Text-discrete
new_lag-Fits lacp = (refl, refl)

mlag_off : (b : Bool) (cfg : MlagConfig) → (if b then cfg else no_mlag).enabled ≡ true → b ≡ true
mlag_off true cfg e = refl
mlag_off false cfg e = e

mlag-Fits :
    (net : Net) (cfg : MlagConfig) (b : Bool)
    → (b ≡ true → (valid_mlag net.parse_addr cfg ≡ ok tt) × (valid_mlag_times cfg ≡ ok tt))
    → (if b then cfg else no_mlag).enabled ≡ true
    → (valid_mlag net.parse_addr (if b then cfg else no_mlag) ≡ ok tt)
      × (valid_mlag_times (if b then cfg else no_mlag) ≡ ok tt)
mlag-Fits net cfg true g e = g refl
mlag-Fits net cfg false g e = cc

module _ (net : Net) where
  after-Configured :
      (c : Call) (s : Switch)
      → IsAggregated s
      → Guard net c s
      → IsConfigured net s
      → IsConfigured net (after c s)
  unfolding too_many_paths stp_of with_port
  after-Configured (add_route r) s a g h =
      (Every-insert r.prefix r s.routes h.0 (refl, g.0, g.1), h.1, h.2, h.3, h.4, h.5, h.6, h.7)
  after-Configured (del_route p) s a g h =
      (Every-delete p s.routes h.0, h.1, h.2, h.3, h.4, h.5, h.6, h.7)
  after-Configured (set_acl r) s a g h = (
    h.0,
    Every-insert r.seq r s.acls h.1 (refl, validate-unasked r _ g),
    h.2,
    h.3,
    h.4,
    h.5,
    h.6,
    h.7,
  )
  after-Configured (del_acl seq) s a g h =
      (h.0, Every-delete seq s.acls h.1, h.2, h.3, h.4, h.5, h.6, h.7)
  after-Configured (add_lag name lacp) s a g h =
      choice-keeps (IsConfigured net) (has name s.lags) _ _
        (h.0, h.1, Every-adjust name _ s.lags h.2 (λ l e old. old), h.3, h.4, h.5, h.6, h.7)
        (h.0, h.1, Every-insert name _ s.lags h.2 (new_lag-Fits lacp), h.3, h.4, h.5, h.6, h.7)
  after-Configured (del_lag name) s a g h =
      choice-keeps (IsConfigured net) (has name s.lags) _ _
        (h.0, h.1, Every-delete name s.lags h.2, h.3, h.4, h.5, h.6, h.7) h
  after-Configured (set_lag_members name ports) s a g h =
      (h.0, h.1, Every-adjust name _ s.lags h.2 (λ l e old. old), h.3, h.4, h.5, h.6, h.7)
  after-Configured (set_lag_options name o) s a g h =
      (h.0, h.1, Every-adjust name _ s.lags h.2 (λ l e old. (g, old.1)), h.3, h.4, h.5, h.6, h.7)
  after-Configured (set_lag_mlag name id) s a g h =
      (h.0, h.1, Every-adjust name _ s.lags h.2 (λ l e old. (old.0, g.0)), h.3, h.4, h.5, h.6, h.7)
  after-Configured (set_lacp_system_priority p) s a g h = (h.0, h.1, h.2, h.3, h.4, h.5, h.6, g)
  after-Configured (set_stp cfg) s a g h = (h.0, h.1, h.2, (g.0, g.1, h.3.2), h.4, h.5, h.6, h.7)
  after-Configured (set_stp_port name cfg) s a g h =
      (h.0, h.1, h.2, (h.3.0, h.3.1, Every-insert name cfg _ h.3.2 (g.0, g.1)), h.4, h.5, h.6, h.7)
  after-Configured (set_mac_aging seconds) s a g h =
      (h.0, h.1, h.2, h.3, (λ b e. some_aging seconds b g e), h.5, h.6, h.7)
  after-Configured (set_mlag cfg) s a g h = (
    h.0,
    h.1,
    h.2,
    h.3,
    h.4,
    h.5,
    mlag-Fits net cfg cfg.enabled (λ on. ((g on).0, (g on).1)),
    h.7,
  )
  after-Configured (add_virtual_gateway svi addr) s a g h =
      (h.0, h.1, h.2, h.3, h.4, Every-insert (gateway_key svi addr) true s.gws h.5 g.0, h.6, h.7)
  after-Configured (del_virtual_gateway svi addr) s a g h =
      (h.0, h.1, h.2, h.3, h.4, Every-delete (gateway_key svi addr) s.gws h.5, h.6, h.7)
  after-Configured (del_svi vid) s a g h = (
    h.0,
    h.1,
    h.2,
    h.3,
    h.4,
    (λ k b e. let (c, was) = drop_gateways-some (svi_name vid) k b s.gws e in h.5 k c was),
    h.6,
    h.7,
  )
  after-Configured (add_address name addr) s a g h =
      place-keeps (IsConfigured net) s (place_of name s) _ (λ n. h) (λ v. h) h
  after-Configured (del_address name addr) s a g h =
      place-keeps (IsConfigured net) s (place_of name s) _ (λ n. h) (λ v. h) h
  after-Configured _ s a g h = h

new-Configured : (net : Net) (cfg : Config) → IsConfigured net (new cfg)
unfolding new stp_of default_stp valid_stp_priority valid_stp_times stp_times_check
    valid_lacp_priority ℕ_discrete ℤ-discrete
new-Configured net cfg = (
  Every-empty _,
  Every-empty _,
  Every-empty _,
  (refl, refl, Every-empty _),
  (λ a e. cc),
  Every-empty _,
  (λ e. cc),
  refl,
)

-- After any calls on a new switch, these settings that it holds are ones that the checks of switchapi
-- accept: routes have a next-hop and no more paths than the switch takes; LAG options, MLAG ids from 0 to
-- 1000, spanning tree, MAC aging, virtual gateways, MLAG where it is on, and the LACP priority pass their
-- checks; an access-list rule stands under its sequence number, passes all of Validate but the check of
-- its port, and names no port, a port that is there, or the name of a LAG, which may be gone since.
pub history-Configured :
    (net : Net) (cfg : Config) (cs : List Call)
    → IsConfigured net (run net cs (new cfg)) × AclPortsKnown (run net cs (new cfg))
history-Configured net cfg cs = (
  history-keeps net (IsConfigured net) (after-Configured net) cfg cs (new-Configured net cfg),
  history-AclPortsKnown net cfg cs,
)
