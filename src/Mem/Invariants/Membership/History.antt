-- ===== src/Mem/Invariants/Membership/History.antt =====
-- The VLANs of the ports through every call (internal/nosd/mem).
use nosaic_switch.Base.{
  ◌≡◌, refl, sym, ap, ◌∙◌, inl, inr, Bool, true, false, not, ◌&&◌, some, List, [], ◌∷◌, arith, ◌==◌,
  Bool-cases, Text, contains, text_eq, nat_eq,
}
use nosaic_switch.Base.Int.{ℤ, int_eq}
use nosaic_switch.Base.Map.{Map, lookup, adjust, has, lookup-insert, lookup-delete, has-insert}
use nosaic_switch.SwitchApi.Address.{prefix_eq}
use nosaic_switch.SwitchApi.Types.{gateway_eq}
use nosaic_switch.Mem.State.{PortState, Config, Switch, new_port, get_flag}
use nosaic_switch.Mem.Vlans.{drop_native, join_vlan, leave_vlan, become_tunnel}
use nosaic_switch.Mem.Svis.{place_of}
use nosaic_switch.Mem.Lags.{new_lag_port, join_all, wanted, set_lag_of}
use nosaic_switch.Mem.Calls.{
  Net, Call, run, set_port_admin, set_port_mtu, add_vlan, del_vlan, set_port_vlan, del_port_vlan,
  set_port_tunnel, set_port_tpid, add_address, del_address, add_lag, set_lag_members, del_lag,
}
use nosaic_switch.Base.Every.{Every, Every-insert, Every-delete, Every-adjust}
use nosaic_switch.Mem.Writes.{members_of, released, after, Guard}
use nosaic_switch.Mem.State.{new}
use nosaic_switch.Mem.Aggregation.History.{IsAggregated}
use nosaic_switch.Mem.State.{front_names, port_count}
use nosaic_switch.Mem.Aggregation.Initial.{front-Every}
use nosaic_switch.Mem.Invariants.{history-keeps, place-keeps, choice-keeps}
use nosaic_switch.Mem.Invariants.Membership.{HasOnly, MembersKnown, del_vlan-Known}

no_vlans : (vlans : Map ℤ Bool) (n : Text) (p : PortState) → p.vlans ≡ [] → HasOnly vlans n p
unfolding lookup
no_vlans vlans n p e v t f = absurd (ground arith)

same_vlans :
    (vlans : Map ℤ Bool) (n : Text) (p q : PortState)
    → q.vlans ≡ p.vlans
    → HasOnly vlans n p
    → HasOnly vlans n q
same_vlans vlans n p q e h v t f = h v t (ap (lookup v) (sym e) ∙ f)

drop_native-some :
    (vid v : ℤ) (t : Bool) (m : Map ℤ Bool)
    → lookup v (drop_native vid m) ≡ some t
    → (u : Bool) × (lookup v m ≡ some u)
unfolding drop_native lookup
drop_native-some vid v t [] e = absurd (ground arith)
drop_native-some vid v t ((w, b) ∷ m) e = elim (Bool-cases (w == v)) [
  | inl same ↦ (b, ground (arith, same))
  | inr other ↦ elim (Bool-cases (not b && not (w == vid))) [
    | inl goes ↦
        let (u, there) = drop_native-some vid v t m (ground (arith, goes)) in
        (u, ground (arith, other, there))
    | inr stays ↦
        let (u, there) = drop_native-some vid v t m (ground (arith, stays, other)) in
        (u, ground (arith, other, there))
  ]
]

join-Known :
    (vlans : Map ℤ Bool) (n : Text) (vid : ℤ) (tagged : Bool) (p : PortState)
    → has vid vlans ≡ true
    → HasOnly vlans n p
    → HasOnly vlans n (join_vlan vid tagged p)
unfolding join_vlan
join-Known vlans n vid true p k h v t e = elim (int_eq.dec vid v) [
  | yes same ↦ ap (λ x. has x vlans) (sym same) ∙ k
  | no other ↦ h v t (ground (arith, lookup-insert vid v true p.vlans))
]
join-Known vlans n vid false p k h v t e = elim (int_eq.dec vid v) [
  | yes same ↦ ap (λ x. has x vlans) (sym same) ∙ k
  | no other ↦
      let (u, there) =
        drop_native-some vid v t p.vlans
          (ground (arith, lookup-insert vid v false (drop_native vid p.vlans), other)) in
      h v u there
]

leave-Known :
    (vlans : Map ℤ Bool) (n : Text) (vid : ℤ) (p : PortState)
    → HasOnly vlans n p
    → HasOnly vlans n (leave_vlan vid p)
unfolding leave_vlan
leave-Known vlans n vid p h v t e = h v t (ground (arith, lookup-delete vid v p.vlans))

tunnel-Known :
    (vlans : Map ℤ Bool) (n : Text) (svid : ℤ) (p : PortState)
    → has svid vlans ≡ true
    → HasOnly vlans n (become_tunnel svid p)
unfolding become_tunnel lookup
tunnel-Known vlans n svid p k v t e = elim (int_eq.dec svid v) [
  | yes same ↦ ap (λ x. has x vlans) (sym same) ∙ k
  | no other ↦ absurd (ground arith)
]

module _ (vlans : Map ℤ Bool) where
  adjust-Known :
      (name : Text) (f : PortState → PortState) (m : Map Text PortState)
      → ((p : PortState) → (f p).vlans ≡ p.vlans)
      → Every (HasOnly vlans) m
      → Every (HasOnly vlans) (adjust name f m)
  adjust-Known name f m same h =
      Every-adjust name f m h (λ p e old. same_vlans vlans name p (f p) (same p) old)

  released-Known :
      (want ns : List Text) (m : Map Text PortState)
      → Every (HasOnly vlans) m
      → Every (HasOnly vlans) (released want ns m)
  unfolding released
  released-Known want [] m h = h
  released-Known want (n ∷ ns) m h = elim (Bool-cases (contains want n)) [
    | inl keep ↦ rw keep (released-Known want ns m h)
    | inr drop ↦ rw drop (released-Known want ns _ (adjust-Known n (set_lag_of []) m (λ p. refl) h))
  ]

  join_all-Known :
      (g : Text) (ns : List Text) (m : Map Text PortState)
      → Every (HasOnly vlans) m
      → Every (HasOnly vlans) (join_all g ns m)
  unfolding join_all
  join_all-Known g [] m h = h
  join_all-Known g (n ∷ ns) m h =
      join_all-Known g ns _ (adjust-Known n (set_lag_of g) m (λ p. refl) h)

flag-has : (v : ℤ) (m : Map ℤ Bool) → get_flag v m ≡ true → has v m ≡ true
flag-has v m e = ground arith

module _ (net : Net) where
  after-Known :
      (c : Call) (s : Switch)
      → IsAggregated s
      → Guard net c s
      → MembersKnown s
      → MembersKnown (after c s)
  unfolding new_port
  after-Known (set_port_admin name up) s a g h = adjust-Known s.vlans name _ s.by_name (λ p. refl) h
  after-Known (set_port_mtu name mtu) s a g h = adjust-Known s.vlans name _ s.by_name (λ p. refl) h
  after-Known (set_port_tpid name tpid) s a g h =
      adjust-Known s.vlans name _ s.by_name (λ p. refl) h
  after-Known (add_vlan vid) s a g h =
      λ n p e v t f. ground (arith, has-insert vid v true s.vlans, h n p e v t f)
  after-Known (del_vlan vid) s a g h = del_vlan-Known s vid a h
  after-Known (set_port_vlan name vid tagged) s a g h =
      Every-adjust name _ s.by_name h
        (λ p e old. join-Known s.vlans name vid tagged p (flag-has vid s.vlans g.1) old)
  after-Known (del_port_vlan name vid) s a g h =
      Every-adjust name _ s.by_name h (λ p e old. leave-Known s.vlans name vid p old)
  after-Known (set_port_tunnel name svid) s a g h =
      Every-adjust name _ s.by_name h
        (λ p e old. tunnel-Known s.vlans name svid p (flag-has svid s.vlans g.1))
  after-Known (add_address name addr) s a g h =
      place-keeps MembersKnown s (place_of name s) _
        (λ n. adjust-Known s.vlans n _ s.by_name (λ p. refl) h) (λ v. h) h
  after-Known (del_address name addr) s a g h =
      place-keeps MembersKnown s (place_of name s) _
        (λ n. adjust-Known s.vlans n _ s.by_name (λ p. refl) h) (λ v. h) h
  after-Known (add_lag name lacp) s a g h =
      choice-keeps MembersKnown (has name s.lags) _ _ h
        (Every-insert name _ s.by_name h (no_vlans s.vlans name (new_lag_port name) refl))
  after-Known (set_lag_members name ports) s a g h =
      join_all-Known s.vlans name (wanted ports s.ports) _
        (released-Known s.vlans ports (members_of name s.lags) s.by_name h)
  after-Known (del_lag name) s a g h =
      choice-keeps MembersKnown (has name s.lags) _ _
        (Every-delete name _ (released-Known s.vlans [] (members_of name s.lags) s.by_name h)) h
  after-Known _ s a g h = h

new-Known : (cfg : Config) → MembersKnown (new cfg)
unfolding new new_port
new-Known cfg =
    front-Every (HasOnly []) (λ n. no_vlans [] n (new_port n) refl)
      (front_names 1 (port_count cfg.ports))

-- After any calls on a new switch, each VLAN that a port or a LAG is in is a VLAN of the switch.
pub history-MembersKnown :
    (net : Net) (cfg : Config) (cs : List Call) → MembersKnown (run net cs (new cfg))
history-MembersKnown net cfg cs =
    history-keeps net MembersKnown (after-Known net) cfg cs (new-Known cfg)
