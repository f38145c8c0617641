-- ===== src/Mem/Invariants/Known.antt =====
-- The tables of VLANs, SVIs and virtual gateways (internal/nosd/mem/mem.go and gateway.go).
use nosaic_switch.Base.{
  ◌≡◌, refl, sym, ap, ◌∙◌, ◌≢◌, inl, inr, Bool, true, false, some, List, [], ◌∷◌, arith, ◌==◌,
  Bool-cases, Text, text_eq, nat_eq,
}
use nosaic_switch.Base.Int.{ℤ, int_eq}
use nosaic_switch.Base.Map.{
  Map, lookup, delete, adjust, has, keys, has-adjust, has-insert, has-delete, has-some,
}
use nosaic_switch.SwitchApi.Address.{prefix_eq}
use nosaic_switch.SwitchApi.Types.{VirtualGateway, gateway_eq}
use nosaic_switch.SwitchApi.Names.{svi_name}
use nosaic_switch.SwitchApi.Limits.{outside}
use nosaic_switch.Mem.State.{PortState, Config, Switch, new_port, get_flag}
use nosaic_switch.Mem.Svis.{place_of, drop_gateways, names_svi, gateway_key}
use nosaic_switch.Mem.Calls.{
  Net, Call, run, add_vlan, del_vlan, add_svi, del_svi, add_address, del_address, add_lag, del_lag,
  add_virtual_gateway, del_virtual_gateway,
}
use nosaic_switch.Base.Every.{Every, Every-empty, Every-insert, Every-delete, Every-adjust}
use nosaic_switch.Mem.Writes.{after, Guard}
use nosaic_switch.Mem.State.{new}
use nosaic_switch.Mem.Invariants.{history-keeps, place-keeps, choice-keeps}

-- Every VLAN is one of 802.1Q's, and the map holds no VLAN that is marked as absent.
abbrev pub VlansFit : Switch → Type 0
VlansFit s = Every (λ vid b. (outside vid 1 4094 ≡ false) × (b ≡ true)) s.vlans

-- Every SVI has its VLAN and its name.
abbrev pub SvisKnown : Switch → Type 0
SvisKnown s = Every (λ v p. (has v s.vlans ≡ true) × (p.name ≡ svi_name v)) s.svis

-- Every virtual gateway stands on an SVI.
abbrev pub GatewaysKnown : Switch → Type 0
GatewaysKnown s = Every (λ g b. (v : ℤ) × (has v s.svis ≡ true) × (svi_name v ≡ g.svi)) s.gws

flag-has : (v : ℤ) (m : Map ℤ Bool) → get_flag v m ≡ true → has v m ≡ true
flag-has v m e = ground arith

-- The gateways that are left were there, and are on another SVI.
pub drop_gateways-some :
    (name : Text) (g : VirtualGateway) (b : Bool) (m : Map VirtualGateway Bool)
    → lookup g (drop_gateways name m) ≡ some b
    → (c : Bool) × (lookup g m ≡ some c)
unfolding drop_gateways lookup
drop_gateways-some name g b [] e = cc
drop_gateways-some name g b ((k, c) ∷ m) e = elim (Bool-cases (k == g)) [
  | inl same ↦ (c, ground (arith, same))
  | inr other ↦
      let (d, there) = drop_gateways-some name g b m (ground (arith, other)) in
      (d, ground (arith, other, there))
]

pub drop_gateways-gone :
    (name : Text) (g : VirtualGateway) (b : Bool) (m : Map VirtualGateway Bool)
    → lookup g (drop_gateways name m) ≡ some b
    → g.svi ≢ name
unfolding drop_gateways lookup
drop_gateways-gone name g b [] e q = absurd (ground arith)
drop_gateways-gone name g b ((k, c) ∷ m) e q = elim (gateway_eq.dec k g) [
  | yes same ↦
      drop_gateways-gone name g b m
        (let here : k.svi ≡ name = ap (λ (x : VirtualGateway). x.svi) same ∙ q in
          ground (arith, here))
        q
  | no other ↦ drop_gateways-gone name g b m (ground (arith, other)) q
]

names_svi-some :
    (name : Text) (m : Map ℤ PortState)
    → names_svi name (keys m) ≡ true
    → (v : ℤ) × (has v m ≡ true) × (svi_name v ≡ name)
unfolding names_svi keys lookup
names_svi-some name [] e = absurd (ground arith)
names_svi-some name ((v, p) ∷ m) e = elim (text_eq.dec (svi_name v) name) [
  | yes same ↦ (v, ground arith, same)
  | no other ↦
      let (w, there, named) = names_svi-some name m (ground (arith, other)) in
      (w, ground (arith, there), named)
]

has-other : (k v : ℤ) (m : Map ℤ PortState) → has v m ≡ true → k ≢ v → has v (delete k m) ≡ true
has-other k v m e d = ground (arith, has-delete k v m)

adjust-GatewaysKnown :
    (s : Switch) (f : PortState → PortState)
    → GatewaysKnown s
    → (vid : ℤ) → GatewaysKnown (record s { svis = adjust vid f s.svis })
adjust-GatewaysKnown s f h vid k b e =
    let (v, there, named) = h k b e in (v, has-adjust vid v f s.svis ∙ there, named)

module _ (net : Net) where
  after-VlansFit : (c : Call) (s : Switch) → Guard net c s → VlansFit s → VlansFit (after c s)
  after-VlansFit (add_vlan vid) s g h = Every-insert vid true s.vlans h (g, refl)
  after-VlansFit (del_vlan vid) s g h = Every-delete vid s.vlans h
  after-VlansFit (add_lag name lacp) s g h = choice-keeps VlansFit (has name s.lags) _ _ h h
  after-VlansFit (del_lag name) s g h = choice-keeps VlansFit (has name s.lags) _ _ h h
  after-VlansFit (add_address name addr) s g h =
      place-keeps VlansFit s (place_of name s) _ (λ n. h) (λ v. h) h
  after-VlansFit (del_address name addr) s g h =
      place-keeps VlansFit s (place_of name s) _ (λ n. h) (λ v. h) h
  after-VlansFit _ s g h = h

  after-SvisKnown : (c : Call) (s : Switch) → Guard net c s → SvisKnown s → SvisKnown (after c s)
  unfolding new_port
  after-SvisKnown (add_vlan vid) s g h = λ v p e.
      let (there, named) = h v p e in (ground (arith, has-insert vid v true s.vlans), named)
  after-SvisKnown (del_vlan vid) s g h = λ v p e.
      let (there, named) = h v p e in
      (ground (arith, has-delete vid v s.vlans, has-some v s.svis e), named)
  after-SvisKnown (add_svi vid) s g h = elim (Bool-cases (has vid s.svis)) [
    | inl old ↦ rw old h
    | inr fresh ↦ rw fresh (Every-insert vid _ s.svis h (flag-has vid s.vlans g, refl))
  ]
  after-SvisKnown (del_svi vid) s g h = Every-delete vid s.svis h
  after-SvisKnown (add_lag name lacp) s g h = choice-keeps SvisKnown (has name s.lags) _ _ h h
  after-SvisKnown (del_lag name) s g h = choice-keeps SvisKnown (has name s.lags) _ _ h h
  after-SvisKnown (add_address name addr) s g h =
      place-keeps SvisKnown s (place_of name s) _ (λ n. h)
        (λ v. Every-adjust v _ s.svis h (λ p e old. old)) h
  after-SvisKnown (del_address name addr) s g h =
      place-keeps SvisKnown s (place_of name s) _ (λ n. h)
        (λ v. Every-adjust v _ s.svis h (λ p e old. old)) h
  after-SvisKnown _ s g h = h

  after-GatewaysKnown :
      (c : Call) (s : Switch) → Guard net c s → GatewaysKnown s → GatewaysKnown (after c s)
  after-GatewaysKnown (add_svi vid) s g h = elim (Bool-cases (has vid s.svis)) [
    | inl old ↦ rw old h
    | inr fresh ↦ rw fresh (λ k b e.
        let (v, there, named) = h k b e in
        (v, ground (arith, has-insert vid v (new_port (svi_name vid)) s.svis), named))
  ]
  after-GatewaysKnown (del_svi vid) s g h = λ k b e.
      let (v, there, named) =
        (let (c, was) = drop_gateways-some (svi_name vid) k b s.gws e in h k c was) in
      (
        v,
        has-other vid v s.svis there
            (λ q. drop_gateways-gone (svi_name vid) k b s.gws e (sym named ∙ ap svi_name (sym q))),
        named,
      )
  after-GatewaysKnown (add_virtual_gateway svi addr) s g h =
      Every-insert (gateway_key svi addr) true s.gws h (names_svi-some svi s.svis g.1)
  after-GatewaysKnown (del_virtual_gateway svi addr) s g h =
      Every-delete (gateway_key svi addr) s.gws h
  after-GatewaysKnown (add_lag name lacp) s g h =
      choice-keeps GatewaysKnown (has name s.lags) _ _ h h
  after-GatewaysKnown (del_lag name) s g h = choice-keeps GatewaysKnown (has name s.lags) _ _ h h
  after-GatewaysKnown (add_address name addr) s g h =
      place-keeps GatewaysKnown s (place_of name s) _ (λ n. h) (adjust-GatewaysKnown s _ h) h
  after-GatewaysKnown (del_address name addr) s g h =
      place-keeps GatewaysKnown s (place_of name s) _ (λ n. h) (adjust-GatewaysKnown s _ h) h
  after-GatewaysKnown _ s g h = h

-- After any calls on a new switch, every VLAN that it holds is from 1 to 4094.
pub history-VlansFit : (net : Net) (cfg : Config) (cs : List Call) → VlansFit (run net cs (new cfg))
unfolding new
history-VlansFit net cfg cs =
    history-keeps net VlansFit (λ c s a g h. after-VlansFit net c s g h) cfg cs (Every-empty _)

-- After any calls on a new switch, every SVI stands on a VLAN that is there and is named after it.
pub history-SvisKnown :
    (net : Net) (cfg : Config) (cs : List Call) → SvisKnown (run net cs (new cfg))
unfolding new
history-SvisKnown net cfg cs =
    history-keeps net SvisKnown (λ c s a g h. after-SvisKnown net c s g h) cfg cs (Every-empty _)

-- After any calls on a new switch, every virtual gateway stands on an SVI that is there.
pub history-GatewaysKnown :
    (net : Net) (cfg : Config) (cs : List Call) → GatewaysKnown (run net cs (new cfg))
unfolding new
history-GatewaysKnown net cfg cs =
    history-keeps net GatewaysKnown (λ c s a g h. after-GatewaysKnown net c s g h) cfg cs
      (Every-empty _)
