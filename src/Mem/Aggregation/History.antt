-- ===== src/Mem/Aggregation/History.antt =====
-- Ports and LAGs agree after any history of calls.
use nosaic_switch.Base.{
  ◌≡◌, refl, ap, ◌∙◌, Bool, true, false, List, [], ◌∷◌, arith, if◌then◌else◌, Text, text_eq, nat_eq,
}
use nosaic_switch.Base.Int.{ℤ, int_eq}
use nosaic_switch.Base.Map.{Map, delete, adjust, has}
use nosaic_switch.Base.Exec.{Result, ok, err}
use nosaic_switch.SwitchApi.Address.{prefix_eq}
use nosaic_switch.SwitchApi.Types.{gateway_eq}
use nosaic_switch.SwitchApi.Names.{valid_lag_name}
use nosaic_switch.SwitchApi.Errors.{Error}
use nosaic_switch.Mem.State.{PortState, Config, Switch, switchable}
use nosaic_switch.Mem.Vlans.{join_vlan, leave_vlan, become_tunnel}
use nosaic_switch.Mem.Svis.{Place, at_port, at_svi, place_of, write_at}
use nosaic_switch.Mem.Lags.{create_lag}
use nosaic_switch.Mem.Calls.{
  Net, Call, step, run, set_port_admin, set_port_mtu, del_vlan, set_port_vlan, del_port_vlan,
  set_port_tunnel, set_port_tpid, add_address, del_address, add_lag, set_lag_members, del_lag,
  set_lag_options, set_lag_mlag,
}
use nosaic_switch.Mem.Writes.{members_of, released, write_place, after, Single, Guard}
use nosaic_switch.Mem.Effect.{Effect-keeps}
use nosaic_switch.Mem.Steps.{step-Effect}
use nosaic_switch.Mem.State.{new, port_count}
use nosaic_switch.Mem.Aggregation.{Aggregated, Aggregated-Linked}
use nosaic_switch.Mem.Aggregation.Initial.{front-Aggregated}
use nosaic_switch.Mem.Aggregation.Writes.{
  IsLocal, adjust-Aggregated, settings-Aggregated, drop_vlan-Aggregated,
}
use nosaic_switch.Mem.Aggregation.Members.{members-Aggregated}
use nosaic_switch.Mem.Aggregation.Lifetime.{create-Aggregated, delete-Aggregated}

abbrev pub IsAggregated : Switch → Type 0
IsAggregated s = Aggregated s.ports s.by_name s.lags

-- A write that touches neither names, kinds, LAGs nor VLANs.
plain-IsLocal :
    (ps : Map Text PortState) (name : Text) (f : PortState → PortState)
    → ((p : PortState) → (f p).lag ≡ p.lag)
    → ((p : PortState) → (f p).is_lag ≡ p.is_lag)
    → ((p : PortState) → (f p).name ≡ p.name)
    → ((p : PortState) → (f p).vlans ≡ p.vlans)
    → IsLocal ps name f
plain-IsLocal ps name f l k n v = record {
  same_lag = l;
  same_kind = k;
  same_name = n;
  no_vlan = λ p e h q. v p ∙ q;
}

-- A write of the VLANs of a port that is in no LAG.
Single-IsLocal :
    (s : Switch) (name : Text) (f : PortState → PortState) (P : PortState → Type 0)
    → Single name P s
    → ((p : PortState) → (f p).lag ≡ p.lag)
    → ((p : PortState) → (f p).is_lag ≡ p.is_lag)
    → ((p : PortState) → (f p).name ≡ p.name)
    → IsLocal s.by_name name f
Single-IsLocal s name f P g l k n = record {
  same_lag = l;
  same_kind = k;
  same_name = n;
  no_vlan = λ p e h q.
      absurd
        (h (let same : p ≡ g.0 = ground (arith, g.1) in ap (λ (r : PortState). r.lag) same ∙ g.2));
}

place-Aggregated :
    (s : Switch) (place : Result Error Place) (f : PortState → PortState)
    → ((p : PortState) → (f p).lag ≡ p.lag)
    → ((p : PortState) → (f p).is_lag ≡ p.is_lag)
    → ((p : PortState) → (f p).name ≡ p.name)
    → ((p : PortState) → (f p).vlans ≡ p.vlans)
    → IsAggregated s
    → IsAggregated (write_place place f s)
unfolding write_at
place-Aggregated s (err e) f l k n v a = a
place-Aggregated s (ok (at_svi vid)) f l k n v a = a
place-Aggregated s (ok (at_port name)) f l k n v a =
    adjust-Aggregated name f (plain-IsLocal s.by_name name f l k n v) a

leave-IsLocal : (s : Switch) (name : Text) (vid : ℤ) → IsLocal s.by_name name (leave_vlan vid)
unfolding leave_vlan delete
leave-IsLocal s name vid = record {
  same_lag = λ p. refl;
  same_kind = λ p. refl;
  same_name = λ p. refl;
  no_vlan = λ p e h q. rw q;
}

add_lag-Aggregated :
    (s : Switch) (name : Text) (lacp : Bool) (b : Bool)
    → has name s.lags ≡ b
    → valid_lag_name name ≡ ok tt
    → IsAggregated s
    → IsAggregated (
        if b
        then record s { lags = adjust name (λ l. record l { lacp = lacp }) s.lags }
        else create_lag name lacp s)
add_lag-Aggregated s name lacp true e g a = settings-Aggregated name _ (λ l. refl) a
add_lag-Aggregated s name lacp false e g a = create-Aggregated a name lacp g e

del_lag-Aggregated :
    (s : Switch) (name : Text) (b : Bool)
    → has name s.lags ≡ b
    → IsAggregated s
    → IsAggregated (
        if b
        then record s {
          by_name = delete name (released [] (members_of name s.lags) s.by_name);
          lags = delete name s.lags;
        }
        else s)
del_lag-Aggregated s name false e a = a
del_lag-Aggregated s name true e a = delete-Aggregated a name e

module _ (net : Net) where
  after-Aggregated :
      (c : Call) (s : Switch) → Guard net c s → IsAggregated s → IsAggregated (after c s)
  unfolding join_vlan become_tunnel
  after-Aggregated (set_port_admin name up) s g a =
      adjust-Aggregated name _
        (plain-IsLocal _ name _ (λ p. refl) (λ p. refl) (λ p. refl) (λ p. refl)) a
  after-Aggregated (set_port_mtu name mtu) s g a =
      adjust-Aggregated name _
        (plain-IsLocal _ name _ (λ p. refl) (λ p. refl) (λ p. refl) (λ p. refl)) a
  after-Aggregated (set_port_tpid name tpid) s g a =
      adjust-Aggregated name _
        (plain-IsLocal _ name _ (λ p. refl) (λ p. refl) (λ p. refl) (λ p. refl)) a
  after-Aggregated (del_vlan vid) s g a = drop_vlan-Aggregated vid (switchable s) a
  after-Aggregated (set_port_vlan name vid tagged) s g a =
      adjust-Aggregated name _ (Single-IsLocal s name _ _ g.0 (λ p. refl) (λ p. refl) (λ p. refl)) a
  after-Aggregated (set_port_tunnel name svid) s g a =
      adjust-Aggregated name _ (Single-IsLocal s name _ _ g.0 (λ p. refl) (λ p. refl) (λ p. refl)) a
  after-Aggregated (del_port_vlan name vid) s g a =
      adjust-Aggregated name _ (leave-IsLocal s name vid) a
  after-Aggregated (add_address name addr) s g a =
      place-Aggregated s (place_of name s) _ (λ p. refl) (λ p. refl) (λ p. refl) (λ p. refl) a
  after-Aggregated (del_address name addr) s g a =
      place-Aggregated s (place_of name s) _ (λ p. refl) (λ p. refl) (λ p. refl) (λ p. refl) a
  after-Aggregated (add_lag name lacp) s g a =
      add_lag-Aggregated s name lacp (has name s.lags) refl g.0 a
  after-Aggregated (set_lag_members name want) s g a = members-Aggregated name want a g.2 g.0
  after-Aggregated (del_lag name) s g a = del_lag-Aggregated s name (has name s.lags) refl a
  after-Aggregated (set_lag_options name o) s g a = settings-Aggregated name _ (λ l. refl) a
  after-Aggregated (set_lag_mlag name id) s g a = settings-Aggregated name _ (λ l. refl) a
  after-Aggregated _ s g a = a

  pub step-Aggregated : (c : Call) (s : Switch) → IsAggregated s → IsAggregated (step net c s).1
  step-Aggregated c s a =
      Effect-keeps IsAggregated (step-Effect net c s (Aggregated-Linked a)) a
        (λ g. after-Aggregated c s g.0 a)

  pub run-Aggregated : (cs : List Call) (s : Switch) → IsAggregated s → IsAggregated (run net cs s)
  unfolding run
  run-Aggregated [] s a = a
  run-Aggregated (c ∷ cs) s a = run-Aggregated cs (step net c s).1 (step-Aggregated c s a)

pub new-Aggregated : (cfg : Config) → IsAggregated (new cfg)
unfolding new
new-Aggregated cfg = front-Aggregated 1 (port_count cfg.ports)

-- After any calls on a new switch, refused or not, a port says that it is in a LAG exactly when the LAG
-- lists it, the LAG interfaces are the ports that the switch knows as LAGs and the front-panel ports
-- are the rest, and no member of a LAG has a VLAN.
pub history-Aggregated :
    (net : Net) (cfg : Config) (cs : List Call) → IsAggregated (run net cs (new cfg))
history-Aggregated net cfg cs = run-Aggregated net cs (new cfg) (new-Aggregated cfg)
