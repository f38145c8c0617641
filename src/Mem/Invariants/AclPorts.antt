-- ===== src/Mem/Invariants/AclPorts.antt =====
-- The ports that access-list rules name (internal/nosd/mem/mem.go). SetACL asks that the port is there;
-- DelLAG removes the port of a LAG and leaves the rules that name it.
use nosaic_switch.Base.{
  ◌≡◌, refl, sym, ap, ◌∙◌, ◌⊎◌, inl, inr, Bool, true, false, List, [], ◌∷◌, arith, Bool-cases,
  Option-cases, Text, contains, if◌then◌else◌, text_eq, nat_eq,
}
use nosaic_switch.Base.Int.{ℤ, int_eq}
use nosaic_switch.Base.Map.{
  Map, lookup, insert, delete, adjust, has, has-adjust, has-insert, has-delete,
}
use nosaic_switch.Base.Exec.{ok}
use nosaic_switch.Base.Every.{Every, Every-empty, Every-insert, Every-delete, Every-adjust}
use nosaic_switch.SwitchApi.Address.{prefix_eq}
use nosaic_switch.SwitchApi.Types.{gateway_eq}
use nosaic_switch.SwitchApi.Names.{valid_lag_name}
use nosaic_switch.SwitchApi.Acl.{AclRule, IsSound, validate_iff}
use nosaic_switch.Mem.State.{PortState, Config, Switch, new, switchable}
use nosaic_switch.Mem.Vlans.{drop_vlan}
use nosaic_switch.Mem.Svis.{place_of}
use nosaic_switch.Mem.Lags.{new_lag_port, wanted, join_all, set_lag_of}
use nosaic_switch.Mem.Calls.{
  Net, Call, run, del_vlan, set_port_admin, set_port_mtu, set_port_vlan, del_port_vlan,
  set_port_tunnel, set_port_tpid, add_address, del_address, set_acl, del_acl, add_lag,
  set_lag_members, del_lag, set_lag_options, set_lag_mlag,
}
use nosaic_switch.Mem.Writes.{after, Guard, members_of, released}
use nosaic_switch.Mem.Invariants.{history-keeps, place-keeps}

-- No port, a port that is there, or the name of a LAG.
abbrev pub NamesPort : Map Text PortState → Text → Type 0
NamesPort m name = (name ≡ []) ⊎ ((has name m ≡ true) ⊎ (valid_lag_name name ≡ ok tt))

abbrev pub AclPortsKnown : Switch → Type 0
AclPortsKnown s = Every (λ seq r. NamesPort s.by_name r.in_port) s.acls

abbrev LagsNamed : Switch → Type 0
LagsNamed s = Every (λ n l. valid_lag_name n ≡ ok tt) s.lags

abbrev IsNamed : Switch → Type 0
IsNamed s = AclPortsKnown s × LagsNamed s

has-drop_vlan :
    (vid : ℤ) (ns : List Text) (m : Map Text PortState) (n : Text)
    → has n (drop_vlan vid ns m) ≡ has n m
unfolding drop_vlan
has-drop_vlan vid [] m n = refl
has-drop_vlan vid (k ∷ ns) m n = has-drop_vlan vid ns _ n ∙ has-adjust k n _ m

has-join_all :
    (name : Text) (ns : List Text) (m : Map Text PortState) (n : Text)
    → has n (join_all name ns m) ≡ has n m
unfolding join_all
has-join_all name [] m n = refl
has-join_all name (k ∷ ns) m n = has-join_all name ns _ n ∙ has-adjust k n _ m

has-released :
    (want ns : List Text) (m : Map Text PortState) (n : Text) → has n (released want ns m) ≡ has n m
unfolding released
has-released want [] m n = refl
has-released want (k ∷ ns) m n = has-released want ns _ n ∙ either (contains want k)
  where
    either : (b : Bool) → has n (if b then m else adjust k (set_lag_of []) m) ≡ has n m
    either true = refl
    either false = has-adjust k n _ m

-- Where no port goes away, what named a port still does.
kept-Known :
    (m m' : Map Text PortState) (acls : Map ℤ AclRule)
    → ((n : Text) → has n m' ≡ has n m)
    → Every (λ seq r. NamesPort m r.in_port) acls
    → Every (λ seq r. NamesPort m' r.in_port) acls
kept-Known m m' acls same h = λ seq r e. elim (h seq r e) [
  | inl no_port ↦ inl no_port
  | inr (inl there) ↦ inr (inl (same r.in_port ∙ there))
  | inr (inr lag) ↦ inr (inr lag)
]

adjust-Known :
    (s : Switch) (name : Text) (f : PortState → PortState)
    → AclPortsKnown s
    → AclPortsKnown (record s { by_name = adjust name f s.by_name })
adjust-Known s name f h = kept-Known s.by_name _ s.acls (λ n. has-adjust name n f s.by_name) h

insert-Known :
    (s : Switch) (name : Text) (p : PortState)
    → AclPortsKnown s
    → Every (λ seq r. NamesPort (insert name p s.by_name) r.in_port) s.acls
insert-Known s name p h = λ seq r e. elim (h seq r e) [
  | inl no_port ↦ inl no_port
  | inr (inl there) ↦ inr (inl (ground (arith, has-insert name r.in_port p s.by_name, there)))
  | inr (inr lag) ↦ inr (inr lag)
]

-- The port that goes away is that of a LAG.
delete-Known :
    (m : Map Text PortState) (acls : Map ℤ AclRule) (name : Text)
    → valid_lag_name name ≡ ok tt
    → Every (λ seq r. NamesPort m r.in_port) acls
    → Every (λ seq r. NamesPort (delete name m) r.in_port) acls
delete-Known m acls name v h = λ seq r e. elim (h seq r e) [
  | inl no_port ↦ inl no_port
  | inr (inr lag) ↦ inr (inr lag)
  | inr (inl there) ↦ elim (text_eq.dec name r.in_port) [
    | yes same ↦ inr (inr (ap valid_lag_name (sym same) ∙ v))
    | no other ↦ inr (inl (ground (arith, has-delete name r.in_port m, there)))
  ]
]

named_lag :
    (s : Switch) (name : Text) → LagsNamed s → has name s.lags ≡ true → valid_lag_name name ≡ ok tt
named_lag s name h e = elim (Option-cases (lookup name s.lags)) [
  | inl gone ↦ absurd (ground (arith, e, gone))
  | inr (l, there) ↦ h name l there
]

asked : (m : Map Text PortState) (r : AclRule) → IsSound r (λ n. has n m) → NamesPort m r.in_port
asked m r h = elim h.port [ inl e ↦ inl e | inr e ↦ inr (inl e) ]

module _ (net : Net) where
  after-Named : (c : Call) (s : Switch) → Guard net c s → IsNamed s → IsNamed (after c s)
  after-Named (set_port_admin name up) s g h = (adjust-Known s name _ h.0, h.1)
  after-Named (set_port_mtu name mtu) s g h = (adjust-Known s name _ h.0, h.1)
  after-Named (set_port_vlan name vid tagged) s g h = (adjust-Known s name _ h.0, h.1)
  after-Named (del_port_vlan name vid) s g h = (adjust-Known s name _ h.0, h.1)
  after-Named (set_port_tunnel name svid) s g h = (adjust-Known s name _ h.0, h.1)
  after-Named (set_port_tpid name tpid) s g h = (adjust-Known s name _ h.0, h.1)
  after-Named (del_vlan vid) s g h =
      (kept-Known s.by_name _ s.acls (has-drop_vlan vid (switchable s) s.by_name) h.0, h.1)
  after-Named (add_address name addr) s g h =
      place-keeps IsNamed s (place_of name s) _ (λ n. (adjust-Known s n _ h.0, h.1)) (λ v. h) h
  after-Named (del_address name addr) s g h =
      place-keeps IsNamed s (place_of name s) _ (λ n. (adjust-Known s n _ h.0, h.1)) (λ v. h) h
  after-Named (set_acl r) s g h = (
    Every-insert r.seq r s.acls h.0
        (asked s.by_name r ((validate_iff r (λ n. has n s.by_name)).0 g)),
    h.1,
  )
  after-Named (del_acl seq) s g h = (Every-delete seq s.acls h.0, h.1)
  after-Named (add_lag name lacp) s g h = elim (Bool-cases (has name s.lags)) [
    | inl old ↦ rw old (h.0, Every-adjust name _ s.lags h.1 (λ l e was. was))
    | inr fresh ↦
        rw fresh (insert-Known s name (new_lag_port name) h.0, Every-insert name _ s.lags h.1 g.0)
  ]
  after-Named (set_lag_members name ports) s g h = (
    kept-Known s.by_name _ s.acls
        (λ n.
          has-join_all name (wanted ports s.ports) _ n
          ∙ has-released ports (members_of name s.lags) s.by_name n)
        h.0,
    Every-adjust name _ s.lags h.1 (λ l e was. was),
  )
  after-Named (del_lag name) s g h = elim (Bool-cases (has name s.lags)) [
    | inr gone ↦ rw gone h
    | inl there ↦ rw there (
      delete-Known (released [] (members_of name s.lags) s.by_name) s.acls name
          (named_lag s name h.1 there)
          (kept-Known s.by_name _ s.acls (has-released [] (members_of name s.lags) s.by_name) h.0),
      Every-delete name s.lags h.1,
    )
  ]
  after-Named (set_lag_options name o) s g h =
      (h.0, Every-adjust name _ s.lags h.1 (λ l e was. was))
  after-Named (set_lag_mlag name id) s g h = (h.0, Every-adjust name _ s.lags h.1 (λ l e was. was))
  after-Named _ s g h = h

-- A rule names no port, a port that is there, or a LAG, which may have been deleted since.
pub history-AclPortsKnown :
    (net : Net) (cfg : Config) (cs : List Call) → AclPortsKnown (run net cs (new cfg))
unfolding new
history-AclPortsKnown net cfg cs =
    (history-keeps net IsNamed (λ c s a g h. after-Named net c s g h) cfg cs
      (Every-empty _, Every-empty _)).0
