-- ===== src/Mem/Invariants/Fit/History.antt =====
-- The ports of the in-memory switch through every call (internal/nosd/mem).
use nosaic_switch.Base.{
  ◌≡◌, refl, sym, ap, ◌∙◌, inl, inr, Bool, true, false, List, [], ◌∷◌, arith, if◌then◌else◌,
  Bool-cases, Text, contains, text_eq, nat_eq,
}
use nosaic_switch.Base.Int.{int_eq}
use nosaic_switch.Base.Map.{Map, lookup, delete, adjust, has}
use nosaic_switch.Base.Exec.{Result, ok, err}
use nosaic_switch.SwitchApi.Address.{prefix_eq}
use nosaic_switch.SwitchApi.Types.{gateway_eq}
use nosaic_switch.SwitchApi.Errors.{Error}
use nosaic_switch.SwitchApi.Limits.{outside, valid_tpid}
use nosaic_switch.Mem.State.{PortState, Config, Switch, switchable}
use nosaic_switch.Mem.Svis.{Place, at_port, at_svi, place_of, write_at}
use nosaic_switch.Mem.Lags.{create_lag, join_all, wanted, set_lag_of}
use nosaic_switch.Mem.Calls.{
  Net, Call, run, set_port_admin, set_port_mtu, del_vlan, set_port_vlan, del_port_vlan,
  set_port_tunnel, set_port_tpid, add_address, del_address, add_lag, set_lag_members, del_lag,
}
use nosaic_switch.Base.Every.{Every, Every-insert, Every-delete, Every-adjust}
use nosaic_switch.Mem.Writes.{members_of, released, write_place, after, Guard}
use nosaic_switch.Mem.State.{new}
use nosaic_switch.Mem.State.{front_names, port_count}
use nosaic_switch.Mem.Aggregation.Initial.{front-Every}
use nosaic_switch.Mem.Aggregation.Writes.{drop_vlan-Every}
use nosaic_switch.Mem.Invariants.{history-keeps}
use nosaic_switch.Mem.Invariants.Fit.{
  IsFit, PortsFit, fresh-IsFit, fresh_lag-IsFit, join-IsFit, drop-IsFit, leave-IsFit, tunnel-IsFit,
}

abbrev AllFit : Map Text PortState → Type 0
AllFit m = Every (λ n p. IsFit p) m

-- A write that touches none of what `IsFit` is about.
same-IsFit :
    (p q : PortState)
    → q.mtu ≡ p.mtu
    → q.tpid ≡ p.tpid
    → q.vlans ≡ p.vlans
    → q.tunnel ≡ p.tunnel
    → IsFit p
    → IsFit q
same-IsFit p q m t v u h = record {
  mtu = ap (λ x. outside x 68 9216) m ∙ h.mtu;
  tpid = ap valid_tpid t ∙ h.tpid;
  native = λ a b e f. h.native a b (ap (lookup a) (sym v) ∙ e) (ap (lookup b) (sym v) ∙ f);
  tunnel = λ a b on e.
      let (same, plain) = h.tunnel a b (λ z. on (u ∙ z)) (ap (lookup a) (sym v) ∙ e) in
      (same ∙ sym u, plain);
}

adjust-Fit :
    (name : Text) (f : PortState → PortState) (m : Map Text PortState)
    → ((p : PortState) → IsFit p → IsFit (f p))
    → AllFit m
    → AllFit (adjust name f m)
adjust-Fit name f m keep h = Every-adjust name f m h (λ p e old. keep p old)

set_lag-Fit : (g n : Text) (m : Map Text PortState) → AllFit m → AllFit (adjust n (set_lag_of g) m)
set_lag-Fit g n m h =
    adjust-Fit n (set_lag_of g) m (λ p old. same-IsFit p _ refl refl refl refl old) h

released-Fit :
    (want ns : List Text) (m : Map Text PortState) → AllFit m → AllFit (released want ns m)
unfolding released
released-Fit want [] m h = h
released-Fit want (n ∷ ns) m h = elim (Bool-cases (contains want n)) [
  | inl keep ↦ rw keep (released-Fit want ns m h)
  | inr drop ↦ rw drop (released-Fit want ns _ (set_lag-Fit [] n m h))
]

join_all-Fit :
    (g : Text) (ns : List Text) (m : Map Text PortState) → AllFit m → AllFit (join_all g ns m)
unfolding join_all
join_all-Fit g [] m h = h
join_all-Fit g (n ∷ ns) m h = join_all-Fit g ns _ (set_lag-Fit g n m h)

place-Fit :
    (s : Switch) (place : Result Error Place) (f : PortState → PortState)
    → ((p : PortState) → IsFit p → IsFit (f p))
    → PortsFit s
    → PortsFit (write_place place f s)
unfolding write_at
place-Fit s (err e) f keep h = h
place-Fit s (ok (at_svi vid)) f keep h = h
place-Fit s (ok (at_port name)) f keep h = adjust-Fit name f s.by_name keep h

add_lag-Fit :
    (s : Switch) (name : Text) (lacp : Bool) (b : Bool)
    → PortsFit s
    → PortsFit (
        if b
        then record s { lags = adjust name (λ l. record l { lacp = lacp }) s.lags }
        else create_lag name lacp s)
add_lag-Fit s name lacp true h = h
add_lag-Fit s name lacp false h = Every-insert name _ s.by_name h (fresh_lag-IsFit name)

del_lag-Fit :
    (s : Switch) (name : Text) (b : Bool)
    → PortsFit s
    → PortsFit (
        if b
        then record s {
          by_name = delete name (released [] (members_of name s.lags) s.by_name);
          lags = delete name s.lags;
        }
        else s)
del_lag-Fit s name true h =
    Every-delete name _ (released-Fit [] (members_of name s.lags) s.by_name h)
del_lag-Fit s name false h = h

module _ (net : Net) where
  after-Fit : (c : Call) (s : Switch) → Guard net c s → PortsFit s → PortsFit (after c s)
  after-Fit (set_port_admin name up) s g h =
      adjust-Fit name _ _ (λ p old. same-IsFit p _ refl refl refl refl old) h
  after-Fit (set_port_mtu name mtu) s g h =
      adjust-Fit name _ _
        (λ p old. record { mtu = g; tpid = old.tpid; native = old.native; tunnel = old.tunnel }) h
  after-Fit (set_port_tpid name tpid) s g h =
      adjust-Fit name _ _
        (λ p old. record { mtu = old.mtu; tpid = g; native = old.native; tunnel = old.tunnel }) h
  after-Fit (del_vlan vid) s g h =
      drop_vlan-Every _ vid (switchable s) s.by_name (λ n p old. drop-IsFit vid p old) h
  after-Fit (set_port_vlan name vid tagged) s g h = Every-adjust name _ s.by_name h λ p e old.
      let (q, there, single, plain) = g.0 in
      let same : q ≡ p = ground arith in
      join-IsFit vid tagged p (ap (λ (r : PortState). r.tunnel) (sym same) ∙ plain) old
  after-Fit (del_port_vlan name vid) s g h = adjust-Fit name _ _ (λ p old. leave-IsFit vid p old) h
  after-Fit (set_port_tunnel name svid) s g h =
      adjust-Fit name _ _ (λ p old. tunnel-IsFit svid p old) h
  after-Fit (add_address name addr) s g h =
      place-Fit s (place_of name s) _ (λ p old. same-IsFit p _ refl refl refl refl old) h
  after-Fit (del_address name addr) s g h =
      place-Fit s (place_of name s) _ (λ p old. same-IsFit p _ refl refl refl refl old) h
  after-Fit (add_lag name lacp) s g h = add_lag-Fit s name lacp (has name s.lags) h
  after-Fit (set_lag_members name ports) s g h =
      join_all-Fit name (wanted ports s.ports) _
        (released-Fit ports (members_of name s.lags) s.by_name h)
  after-Fit (del_lag name) s g h = del_lag-Fit s name (has name s.lags) h
  after-Fit _ s g h = h

new-Fit : (cfg : Config) → PortsFit (new cfg)
unfolding new
new-Fit cfg = front-Every _ fresh-IsFit (front_names 1 (port_count cfg.ports))

-- After any calls on a new switch, every port and LAG has an MTU from 68 to 9216 and a TPID that the
-- switch takes, is an untagged member of at most one VLAN, and, when it is a tunnel port, is a member
-- of no VLAN but its service VLAN, and there untagged.
pub history-PortsFit : (net : Net) (cfg : Config) (cs : List Call) → PortsFit (run net cs (new cfg))
history-PortsFit net cfg cs =
    history-keeps net PortsFit (λ c s a g h. after-Fit net c s g h) cfg cs (new-Fit cfg)
