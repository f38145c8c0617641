-- ===== src/Mem/Steps.antt =====
-- Every call does what `after` says once its guard holds, and nothing otherwise.
use nosaic_switch.Base.{
  ◌≡◌, refl, ◌∙◌, inl, inr, Bool, true, false, Option, none, some, List, [], ◌∷◌, arith,
  if◌then◌else◌, Bool-cases, Option-cases, Text, All, contains, text_eq, nat_eq,
}
use nosaic_switch.Base.Int.{int_eq}
use nosaic_switch.Base.Map.{Map, lookup, adjust, has, has-adjust, has-some}
use nosaic_switch.Base.Exec.{ok, pure, modify, ◌>>=◌, ◌>>◌}
use nosaic_switch.SwitchApi.Address.{prefix_eq}
use nosaic_switch.SwitchApi.Types.{MlagConfig, no_mlag, gateway_eq}
use nosaic_switch.SwitchApi.Names.{valid_lag_name}
use nosaic_switch.Mem.State.{PortState, LagState, Switch, Op}
use nosaic_switch.Mem.Ports
use nosaic_switch.Mem.Vlans
use nosaic_switch.Mem.Vlans.{drop_vlan, drop_native, join_vlan, leave_vlan, become_tunnel}
use nosaic_switch.Mem.Svis
use nosaic_switch.Mem.Svis.{
  Place, at_port, at_svi, place_of, write_at, l3lookup, update_at, drop_gateways, names_svi,
  gateway_key,
}
use nosaic_switch.Mem.Routes
use nosaic_switch.Mem.Routes.{too_many_paths}
use nosaic_switch.Mem.Acls
use nosaic_switch.Mem.Lags
use nosaic_switch.Mem.Lags.{
  new_lag, new_lag_port, create_lag, lags_full, too_many, member_check, check_members,
  release_members, join_members, join_all, wanted, set_lag_of,
}
use nosaic_switch.Mem.Stp
use nosaic_switch.Mem.Stp.{stp_of, with_port}
use nosaic_switch.Mem.Mlag
use nosaic_switch.Mem.Mlag.{mlag_id_of, id_check, id_holder}
use nosaic_switch.Mem.Calls.{
  Net, Call, step, start, close, set_port_admin, set_port_mtu, add_vlan, del_vlan, set_port_vlan,
  del_port_vlan, set_port_tunnel, set_port_tpid, add_svi, del_svi, add_address, del_address,
  add_route, del_route, set_acl, del_acl, add_lag, set_lag_members, del_lag, set_lag_options,
  set_lacp_system_priority, set_stp, set_stp_port, set_mac_aging, set_mlag, set_lag_mlag,
  set_virtual_mac, add_virtual_gateway, del_virtual_gateway,
}
use nosaic_switch.Mem.Writes.{members_of, released, write_place, after, Guard, Permit}
use nosaic_switch.Mem.Effect.{
  Effect, check-Effect, test-Effect, Effect-weaken, reads-Effect, refuse_if-Effect,
  refuse_when-Effect, need-Effect, lookup_port-Effect, lookup_lag-Effect, modify-Effect,
  update_port-Effect,
}

-- All the names are ports of the switch.
abbrev pub Present : List Text → Map Text PortState → Type 0
Present ns m = All (λ n. has n m ≡ true) ns

-- No LAG has a member that is no port.
abbrev pub Linked : Map Text LagState → Map Text PortState → Type 0
Linked lags ports = (g : Text) (l : LagState) → lookup g lags ≡ some l → Present l.members ports

pub Present-adjust :
    (k : Text) (f : PortState → PortState) (m : Map Text PortState) (ns : List Text)
    → Present ns m
    → Present ns (adjust k f m)
Present-adjust k f m [] h = tt
Present-adjust k f m (n ∷ ns) h = (has-adjust k n f m ∙ h.0, Present-adjust k f m ns h.1)

pub release_members-released :
    (want ns : List Text) (s : Switch)
    → Present ns s.by_name
    → release_members want ns s ≡ (ok tt, record s { by_name = released want ns s.by_name })
unfolding release_members released
release_members-released want [] s h = refl
release_members-released want (n ∷ ns) s h = elim (Bool-cases (contains want n)) [
  | inl keep ↦ rw keep (release_members-released want ns s h.1)
  | inr drop ↦ elim (Option-cases (lookup n s.by_name)) [
    | inl gone ↦ absurd (ground arith)
    | inr (p, e) ↦
        rw (drop, e)
          (release_members-released want ns
            (record s { by_name = adjust n (set_lag_of []) s.by_name })
            (Present-adjust n (set_lag_of []) s.by_name ns h.1))
  ]
]

-- A part that is known to succeed.
then-Effect :
    {G : Type 0} {s s' : Switch} (t : Switch) (m : Op Unit) (f : Switch → Switch)
    → m s ≡ (ok tt, t)
    → f t ≡ s'
    → G
    → Effect (m >> modify f) s G s'
unfolding ◌>>=◌
then-Effect t m f e d g = record { refused = λ h. ground arith; done = λ h. (ground arith, g) }

place-Effect :
    (name : Text) (f : PortState → PortState) (s : Switch)
    → Effect
        (l3lookup name >>= λ place. update_at place f)
        s
        ((place : Place) × (place_of name s ≡ ok place))
        (write_place (place_of name s) f s)
unfolding l3lookup update_at
place-Effect name f s = reads-Effect _ _ λ place e. rw e (modify-Effect _ (place, refl))

module _ (net : Net) where
  mlag-Effect :
      (cfg : MlagConfig) (b : Bool) (s : Switch)
      → cfg.enabled ≡ b
      → Effect
          (if b
            then Mlag.enable_mlag net.parse_addr cfg
            else modify (λ s. record s { mlag = no_mlag }))
          s
          (Guard net (set_mlag cfg) s)
          (record s { mlag = if b then cfg else no_mlag })
  unfolding Mlag.enable_mlag
  mlag-Effect cfg false s on = modify-Effect _ (λ h. cc)
  mlag-Effect cfg true s on = check-Effect _ _ λ v. check-Effect _ _ λ t.
      lookup_port-Effect _ _ λ p e. refuse_if-Effect _ _ _ λ single. reads-Effect _ _ λ id i.
        refuse_if-Effect _ _ _
          λ zero. modify-Effect _ (λ h. (v, t, (p, e, ground arith, tt), ground arith))

  add_lag-Effect :
      (name : Text) (lacp : Bool) (s : Switch) (o : Option LagState)
      → lookup name s.lags ≡ o
      → valid_lag_name name ≡ ok tt
      → Effect
          (elim o [ none ↦ Lags.add_new_lag name lacp | some _ ↦ Lags.set_lacp name lacp ])
          s
          (Guard net (add_lag name lacp) s)
          (after (add_lag name lacp) s)
  unfolding Lags.add_new_lag Lags.set_lacp
  add_lag-Effect name lacp s (some l) e v =
      Effect-weaken (λ u. (v, λ h. absurd (ground arith))) (ground arith)
        (modify-Effect {G = Unit} _ tt)
  add_lag-Effect name lacp s none e v = record {
    refused = λ h. ground arith;
    done = λ h. (ground arith, (v, λ _. ground arith));
  }

  del_lag-Effect :
      (name : Text) (s : Switch) (o : Option LagState)
      → lookup name s.lags ≡ o
      → Linked s.lags s.by_name
      → Effect (Lags.delete_lag name o) s Unit (after (del_lag name) s)
  unfolding Lags.delete_lag members_of pure
  del_lag-Effect name s none e v = record { refused = λ h. refl; done = λ h. (ground arith, tt) }
  del_lag-Effect name s (some l) e v =
      Effect-weaken (λ u. u) (ground arith)
        (then-Effect _ _ _ (release_members-released [] l.members s (v name l e)) refl tt)

  members-Effect :
      (name : Text) (ports : List Text) (l : LagState) (s : Switch)
      → lookup name s.lags ≡ some l
      → Linked s.lags s.by_name
      → too_many s ports ≡ false
      → check_members name ports s.by_name ≡ ok tt
      → Effect
          (release_members ports l.members >> modify (join_members name ports))
          s
          (Guard net (set_lag_members name ports) s)
          (after (set_lag_members name ports) s)
  unfolding members_of
  members-Effect name ports l s e v few fit =
      Effect-weaken (λ u. (has-some name s.lags e, few, fit)) (ground arith)
        (then-Effect _ _ _ (release_members-released ports l.members s (v name l e)) refl tt)

  -- A call on a switch whose LAG members are ports either fails and changes nothing, or it succeeds, its
  -- guard and its permit hold and the state becomes `after`.
  pub step-Effect :
      (c : Call) (s : Switch)
      → Linked s.lags s.by_name
      → Effect (step net c) s (Guard net c s × Permit c s) (after c s)
  unfolding step Ports.start Ports.close Ports.set_port_admin Ports.set_port_mtu Vlans.add_vlan
      Vlans.del_vlan Vlans.set_port_vlan Vlans.del_port_vlan Vlans.set_port_tunnel
      Vlans.set_port_tpid Svis.add_svi Svis.del_svi Svis.add_address Svis.del_address
      Routes.add_route Routes.del_route Acls.set_acl Acls.del_acl Lags.add_lag Lags.set_lag_members
      Lags.del_lag Lags.set_lag_options Lags.set_lacp_system_priority Stp.set_stp Stp.set_stp_port
      Stp.set_mac_aging Mlag.set_mlag Mlag.set_lag_mlag Svis.set_virtual_mac
      Svis.add_virtual_gateway Svis.del_virtual_gateway
  step-Effect start s v = modify-Effect _ (tt, tt)
  step-Effect close s v = modify-Effect _ (tt, tt)
  step-Effect (set_port_admin name up) s v =
      lookup_port-Effect _ _ λ p e. update_port-Effect _ _ (tt, has-some name s.by_name e)
  step-Effect (set_port_mtu name mtu) s v =
      lookup_port-Effect _ _ λ p e.
        refuse_if-Effect _ _ _ λ fits. update_port-Effect _ _ (fits, has-some name s.by_name e)
  step-Effect (add_vlan vid) s v =
      need-Effect _ _ _ λ cap. refuse_if-Effect _ _ _ λ fits. modify-Effect _ (fits, cap)
  step-Effect (del_vlan vid) s v =
      need-Effect _ _ _ λ cap. refuse_when-Effect _ _ _ λ bare. modify-Effect _ (bare, cap)
  step-Effect (set_port_vlan name vid tagged) s v = need-Effect _ _ _ λ cap.
      lookup_port-Effect _ _ λ p e. refuse_if-Effect _ _ _ λ single.
        refuse_when-Effect _ _ _ λ known.
          refuse_if-Effect _ _ _ λ plain.
            update_port-Effect _ _ (((p, e, ground arith, ground arith), ground arith), cap)
  step-Effect (del_port_vlan name vid) s v = need-Effect _ _ _ λ cap.
      lookup_port-Effect _ _ λ p e. update_port-Effect _ _ (tt, (cap, has-some name s.by_name e))
  step-Effect (set_port_tunnel name svid) s v = need-Effect _ _ _ λ cap.
      lookup_port-Effect _ _ λ p e. refuse_if-Effect _ _ _ λ single.
        refuse_when-Effect _ _ _
          λ known. update_port-Effect _ _ (((p, e, ground arith, tt), ground arith), cap)
  step-Effect (set_port_tpid name tpid) s v = need-Effect _ _ _ λ cap. check-Effect _ _ λ fits.
      lookup_port-Effect _ _ λ p e. update_port-Effect _ _ (fits, (cap, has-some name s.by_name e))
  step-Effect (add_svi vid) s v =
      need-Effect _ _ _ λ cap. refuse_when-Effect _ _ _ λ known. modify-Effect _ (ground arith, cap)
  step-Effect (del_svi vid) s v = need-Effect _ _ _ λ cap. modify-Effect _ (tt, cap)
  step-Effect (add_address name addr) s v =
      need-Effect _ _ _ λ cap. Effect-weaken (λ p. (tt, (cap, p))) refl (place-Effect _ _ s)
  step-Effect (del_address name addr) s v =
      need-Effect _ _ _ λ cap. Effect-weaken (λ p. (tt, (cap, p))) refl (place-Effect _ _ s)
  step-Effect (add_route r) s v = need-Effect _ _ _ λ cap.
      refuse_if-Effect _ _ _
        λ some_hops. refuse_when-Effect _ _ _ λ few. modify-Effect _ ((ground arith, few), cap)
  step-Effect (del_route p) s v = need-Effect _ _ _ λ cap. modify-Effect _ (tt, cap)
  step-Effect (set_acl r) s v = refuse_when-Effect _ _ _ λ six.
      refuse_when-Effect _ _ _ λ four. test-Effect _ _ λ good. modify-Effect _ (good, ground arith)
  step-Effect (del_acl seq) s v =
      refuse_when-Effect _ _ _
        λ cap. refuse_when-Effect _ _ _ λ there. modify-Effect _ (tt, (ground arith, ground arith))
  step-Effect (add_lag name lacp) s v = need-Effect _ _ _ λ cap. refuse_when-Effect _ _ _ λ can.
      check-Effect _ _ λ named. reads-Effect _ _ λ o e.
        Effect-weaken (λ g. (g, (cap, ground arith))) refl
          (add_lag-Effect name lacp s o (ground arith) named)
  step-Effect (set_lag_members name ports) s v = need-Effect _ _ _ λ cap.
      lookup_lag-Effect _ _ λ l e. reads-Effect _ _ λ max i. refuse_when-Effect _ _ _ λ few.
        test-Effect _ _
          λ fit. Effect-weaken (λ g. (g, cap)) refl (members-Effect name ports l s e v few fit)
  step-Effect (del_lag name) s v = need-Effect _ _ _ λ cap.
      reads-Effect _ _
        λ o e. Effect-weaken (λ g. (g, cap)) refl (del_lag-Effect name s o (ground arith) v)
  step-Effect (set_lag_options name o) s v = need-Effect _ _ _ λ cap.
      check-Effect _ _
        λ fits. lookup_lag-Effect _ _ λ l e. modify-Effect _ (fits, (cap, has-some name s.lags e))
  step-Effect (set_lacp_system_priority p) s v =
      need-Effect _ _ _ λ cap. check-Effect _ _ λ fits. modify-Effect _ (fits, cap)
  step-Effect (set_stp cfg) s v =
      need-Effect _ _ _ λ cap.
        check-Effect _ _ λ high. check-Effect _ _ λ times. modify-Effect _ ((high, times), cap)
  step-Effect (set_stp_port name cfg) s v = need-Effect _ _ _ λ cap. check-Effect _ _ λ cost.
      check-Effect _ _ λ prio. lookup_port-Effect _ _ λ p e.
        refuse_if-Effect _ _ _
          λ single. modify-Effect _ ((cost, prio, (p, e, ground arith, tt)), cap)
  step-Effect (set_mac_aging seconds) s v =
      need-Effect _ _ _ λ cap. check-Effect _ _ λ fits. modify-Effect _ (fits, cap)
  step-Effect (set_mlag cfg) s v =
      need-Effect _ _ _
        λ cap. Effect-weaken (λ g. (g, cap)) refl (mlag-Effect cfg cfg.enabled s refl)
  step-Effect (set_lag_mlag name id) s v = need-Effect _ _ _ λ cap. refuse_if-Effect _ _ _ λ fits.
      lookup_lag-Effect _ _
        λ l e. test-Effect _ _ λ free. modify-Effect _ ((fits, has-some name s.lags e, free), cap)
  step-Effect (set_virtual_mac mac) s v =
      need-Effect _ _ _ λ cap. check-Effect _ _ λ fits. modify-Effect _ (fits, cap)
  step-Effect (add_virtual_gateway svi addr) s v = need-Effect _ _ _ λ cap. check-Effect _ _ λ fits.
      refuse_when-Effect _ _ _ λ six.
        refuse_when-Effect _ _ _
          λ there. modify-Effect _ ((fits, ground arith), (cap, ground arith))
  step-Effect (del_virtual_gateway svi addr) s v =
      need-Effect _ _ _ λ cap. modify-Effect _ (tt, cap)
