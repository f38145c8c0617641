-- ===== src/Mem/Readers.antt =====
-- Reading the LAGs and the MLAG pair, which follows the members of each LAG to their ports
-- (internal/nosd/mem/mem.go and mlag.go).
use nosaic_switch.Base.{
  ◌≡◌, refl, ap, ◌∙◌, subst, inl, inr, Bool, true, false, List, [], ◌∷◌, map, arith, ◌==◌,
  Bool-cases, Option-cases, Text, All, text_eq, nat_eq,
}
use nosaic_switch.Base.Int.{pos, int_eq}
use nosaic_switch.Base.Map.{Map, lookup, has, keys}
use nosaic_switch.Base.Exec.{ok, ◌>>=◌}
use nosaic_switch.Base.Sort.{sort, text_le}
use nosaic_switch.SwitchApi.Address.{prefix_eq}
use nosaic_switch.SwitchApi.Types.{LagMember, Lag, MlagInterface, MlagStatus, gateway_eq}
use nosaic_switch.Mem.State.{PortState, LagState, Config, Switch, need}
use nosaic_switch.Mem.Svis.{place_of}
use nosaic_switch.Mem.Lags
use nosaic_switch.Mem.Lags.{
  new_lag, new_lag_port, create_lag, lags_full, too_many, member_check, check_members,
  release_members, join_members, join_all, wanted, set_lag_of,
}
use nosaic_switch.Mem.Mlag
use nosaic_switch.Mem.Mlag.{mlag_id_of, id_check, id_holder}
use nosaic_switch.Mem.Calls.{
  Net, Call, run, add_address, del_address, add_lag, set_lag_members, del_lag, set_lag_options,
  set_lag_mlag,
}
use nosaic_switch.Mem.Writes.{after, Guard}
use nosaic_switch.Mem.Steps.{Present}
use nosaic_switch.Mem.State.{new}
use nosaic_switch.Mem.Aggregation.{Aggregated-Linked}
use nosaic_switch.Mem.Aggregation.History.{IsAggregated, history-Aggregated}
use nosaic_switch.Mem.Invariants.{history-keeps, place-keeps, choice-keeps}
use nosaic_switch.Base.Unrepeated.{
  Unrepeated, Unrepeated-insert, Unrepeated-adjust, Unrepeated-delete, Every-All,
}
use nosaic_switch.Mem.Lags.{member_list, lag_list, lag_options, lacp_priority}
use nosaic_switch.Mem.Mlag.{any_up, mlag_interfaces, mlag_interface, mlag_status}
use nosaic_switch.Base.Sort.{sort-perm}
use mathlib.Core.List.{Perm}
use mathlib.Core.List.Perm

-- No call changes the configuration.
abbrev HasCfg : Config → Switch → Type 0
HasCfg cfg s = s.cfg ≡ (new cfg).cfg

module _ (net : Net) (cfg : Config) where
  after-HasCfg :
      (c : Call) (s : Switch)
      → IsAggregated s
      → Guard net c s
      → HasCfg cfg s
      → HasCfg cfg (after c s)
  after-HasCfg (add_lag name lacp) s a g h = choice-keeps (HasCfg cfg) (has name s.lags) _ _ h h
  after-HasCfg (del_lag name) s a g h = choice-keeps (HasCfg cfg) (has name s.lags) _ _ h h
  after-HasCfg (add_address name addr) s a g h =
      place-keeps (HasCfg cfg) s (place_of name s) _ (λ n. h) (λ v. h) h
  after-HasCfg (del_address name addr) s a g h =
      place-keeps (HasCfg cfg) s (place_of name s) _ (λ n. h) (λ v. h) h
  after-HasCfg _ s a g h = h

history-lags_cap :
    (net : Net) (cfg : Config) (cs : List Call)
    → (run net cs (new cfg)).cfg.caps.lags ≡ cfg.caps.lags
unfolding new
history-lags_cap net cfg cs =
    ap (λ (c : Config). c.caps.lags)
      (history-keeps net (HasCfg cfg) (after-HasCfg net cfg) cfg cs refl)

history-mlag_cap :
    (net : Net) (cfg : Config) (cs : List Call)
    → (run net cs (new cfg)).cfg.caps.mlag ≡ cfg.caps.mlag
unfolding new
history-mlag_cap net cfg cs =
    ap (λ (c : Config). c.caps.mlag)
      (history-keeps net (HasCfg cfg) (after-HasCfg net cfg) cfg cs refl)

-- The LAGs are a map: no name stands twice.
abbrev pub LagsOnce : Switch → Type 0
LagsOnce s = Unrepeated s.lags

module _ (net : Net) where
  after-LagsOnce :
      (c : Call) (s : Switch) → IsAggregated s → Guard net c s → LagsOnce s → LagsOnce (after c s)
  after-LagsOnce (add_lag name lacp) s a g h =
      choice-keeps LagsOnce (has name s.lags) _ _ (Unrepeated-adjust name _ s.lags h)
        (Unrepeated-insert name (new_lag lacp) s.lags h)
  after-LagsOnce (del_lag name) s a g h =
      choice-keeps LagsOnce (has name s.lags) _ _ (Unrepeated-delete name s.lags h) h
  after-LagsOnce (set_lag_members name ports) s a g h = Unrepeated-adjust name _ s.lags h
  after-LagsOnce (set_lag_options name o) s a g h = Unrepeated-adjust name _ s.lags h
  after-LagsOnce (set_lag_mlag name id) s a g h = Unrepeated-adjust name _ s.lags h
  after-LagsOnce (add_address name addr) s a g h =
      place-keeps LagsOnce s (place_of name s) _ (λ n. h) (λ v. h) h
  after-LagsOnce (del_address name addr) s a g h =
      place-keeps LagsOnce s (place_of name s) _ (λ n. h) (λ v. h) h
  after-LagsOnce _ s a g h = h

history-LagsOnce : (net : Net) (cfg : Config) (cs : List Call) → LagsOnce (run net cs (new cfg))
unfolding new
history-LagsOnce net cfg cs = history-keeps net LagsOnce (after-LagsOnce net) cfg cs tt

-- Every entry's members are ports.
AllPresent : Map Text PortState → Map Text LagState → Type 0
AllPresent ps m = All (λ (x : Text × LagState). Present x.1.members ps) m

history-AllPresent :
    (net : Net) (cfg : Config) (cs : List Call)
    → AllPresent (run net cs (new cfg)).by_name (run net cs (new cfg)).lags
unfolding AllPresent
history-AllPresent net cfg cs =
    let s = run net cs (new cfg) in
    Every-All (λ n l. Present l.members s.by_name) s.lags (history-LagsOnce net cfg cs)
      (Aggregated-Linked (history-Aggregated net cfg cs))

member_list-Present :
    (ns : List Text) (m : Map Text PortState)
    → Present ns m
    → (ms : List LagMember) × (member_list ns m ≡ ok ms) × (map (λ x. x.port) ms ≡ ns)
unfolding member_list
member_list-Present [] m h = ([], refl, refl)
member_list-Present (n ∷ ns) m h = elim (Option-cases (lookup n m)) [
  | inl gone ↦ absurd (ground arith)
  | inr (p, there) ↦
      let (ms, is, names) = member_list-Present ns m h.1 in
      (
        record { port = n; active = p.admin_up } ∷ ms,
        ground (arith, there, is),
        ap (λ xs. n ∷ xs) names,
      )
]

lag_list-Present :
    (s : Switch) (ls : Map Text LagState)
    → AllPresent s.by_name ls
    → (gs : List Lag) × (lag_list s ls ≡ ok gs) × (map (λ x. x.name) gs ≡ keys ls)
unfolding lag_list AllPresent keys
lag_list-Present s [] h = ([], refl, refl)
lag_list-Present s ((n, l) ∷ ls) h =
    let (ms, is, names) = member_list-Present l.members s.by_name h.0 in
    let (gs, rest, order) = lag_list-Present s ls h.1 in
    (
      record {
        name = n;
        lacp = l.lacp;
        members = ms;
        mlag = l.mlag;
        options = lag_options l.opts;
        system_priority = lacp_priority s.lacp_pri;
      }
          ∷ gs,
      ground (arith, is, rest),
      ap (λ xs. n ∷ xs) order,
    )

any_up-Present :
    (ns : List Text) (m : Map Text PortState) → Present ns m → (b : Bool) × (any_up ns m ≡ ok b)
unfolding any_up
any_up-Present [] m h = (false, refl)
any_up-Present (n ∷ ns) m h = elim (Option-cases (lookup n m)) [
  | inl gone ↦ absurd (ground arith)
  | inr (p, there) ↦ elim (Bool-cases p.admin_up) [
    | inl up ↦ (true, ground (arith, there, up))
    | inr down ↦ let (b, is) = any_up-Present ns m h.1 in (b, ground (arith, there, down, is))
  ]
]

mlag_interfaces-Present :
    (ls : Map Text LagState) (m : Map Text PortState)
    → AllPresent m ls
    → (is : List MlagInterface) × (mlag_interfaces ls m ≡ ok is)
unfolding mlag_interfaces AllPresent
mlag_interfaces-Present [] m h = ([], refl)
mlag_interfaces-Present ((n, l) ∷ ls) m h = elim (Bool-cases (l.mlag == pos 0)) [
  | inl no_id ↦
      let (is, rest) = mlag_interfaces-Present ls m h.1 in (is, ground (arith, no_id, rest))
  | inr id ↦
      let (up, found) = any_up-Present l.members m h.0 in
      let (is, rest) = mlag_interfaces-Present ls m h.1 in
      (mlag_interface n l up ∷ is, ground (arith, id, found, rest))
]

lags-found :
    (s : Switch) (gs : List Lag)
    → s.cfg.caps.lags ≡ true
    → lag_list s s.lags ≡ ok gs
    → (Lags.lags s).0 ≡ ok (sort (λ g h. text_le g.name h.name) gs)
unfolding Lags.lags need ◌>>=◌
lags-found s gs able is = ground (arith, able, is)

mlag-found :
    (s : Switch) (is : List MlagInterface)
    → s.cfg.caps.mlag ≡ true
    → mlag_interfaces s.lags s.by_name ≡ ok is
    → (Mlag.mlag s).0 ≡ ok (mlag_status s is)
unfolding Mlag.mlag need ◌>>=◌
mlag-found s is able found = ground (arith, able, found)

-- After any calls on a new switch whose datapath has LAGs, listing the LAGs succeeds (no member's port
-- is a nil pointer) and lists each LAG that the switch holds exactly once.
pub history-lags :
    (net : Net) (cfg : Config) (cs : List Call)
    → cfg.caps.lags ≡ true
    → (gs : List Lag) × ((Lags.lags (run net cs (new cfg))).0 ≡ ok gs)
      × Unrepeated (run net cs (new cfg)).lags
      × Perm (map (λ x. x.name) gs) (keys (run net cs (new cfg)).lags)
history-lags net cfg cs able =
    let s = run net cs (new cfg) in
    let (gs, is, names) = lag_list-Present s s.lags (history-AllPresent net cfg cs) in
    (
      sort (λ g h. text_le g.name h.name) gs,
      lags-found s gs (history-lags_cap net cfg cs ∙ able) is,
      history-LagsOnce net cfg cs,
      subst (λ ns. Perm (map (λ x. x.name) (sort (λ g h. text_le g.name h.name) gs)) ns) names
          (Perm.map (λ x. x.name) (sort-perm (λ g h. text_le g.name h.name) gs)),
    )

-- After any calls on a new switch whose datapath has MLAG, reading its status succeeds.
pub history-mlag :
    (net : Net) (cfg : Config) (cs : List Call)
    → cfg.caps.mlag ≡ true
    → (st : MlagStatus) × ((Mlag.mlag (run net cs (new cfg))).0 ≡ ok st)
history-mlag net cfg cs able =
    let s = run net cs (new cfg) in
    let (is, found) = mlag_interfaces-Present s.lags s.by_name (history-AllPresent net cfg cs) in
    (mlag_status s is, mlag-found s is (history-mlag_cap net cfg cs ∙ able) found)
