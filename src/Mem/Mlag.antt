-- ===== src/Mem/Mlag.antt =====
-- MLAG as one switch of a pair sees it with no peer to hear (internal/nosd/mem/mlag.go).
use nosaic_switch.Base.{
  Bool, true, false, not, ◌&&◌, Option, none, some, List, [], ◌∷◌, if◌then◌else◌, ◌==◌, Text, text,
  text_eq, nat_eq,
}
use nosaic_switch.Base.Int.{ℤ, pos, int_eq, leb_ℤ}
use nosaic_switch.Base.Map.{Map, lookup, adjust}
use nosaic_switch.Base.Exec.{Check, Result, ok, err, lift, reads, modify, refuse_if, ◌>>=◌, ◌>>◌}
use nosaic_switch.Base.Sort.{sort}
use nosaic_switch.SwitchApi.Address.{Addr, prefix_eq}
use nosaic_switch.SwitchApi.Types.{MlagConfig, no_mlag, MlagInterface, MlagStatus, gateway_eq}
use nosaic_switch.SwitchApi.Errors.{Feature, Error}
use nosaic_switch.SwitchApi.Limits.{
  outside, valid_mlag, mlag_hello_of, mlag_dead_of, mlag_settle_of, mlag_port_of, valid_mlag_times,
}
use nosaic_switch.Mem.State.{PortState, LagState, Switch, Op, need, lookup_port, lookup_lag}

unfoldable pub mlag_id_of : Option LagState → ℤ
mlag_id_of none = pos 0
mlag_id_of (some l) = l.mlag

-- Turning MLAG off forgets its configuration; turning it on checks the new one first.
-- `parse_addr` is netip.ParseAddr.
unfoldable pub enable_mlag : (Text → Option Addr) → MlagConfig → Op Unit
unfolding mlag_id_of
enable_mlag parse_addr cfg = do
  lift (valid_mlag parse_addr cfg)
  lift (valid_mlag_times cfg)
  p ← lookup_port cfg.peer_link
  refuse_if (not (p.lag == [])) (Error.lag_member cfg.peer_link p.lag)
  id ← reads (λ s. ok (mlag_id_of (lookup cfg.peer_link s.lags)))
  refuse_if (not (id == pos 0)) (Error.mlag_peer_link_interface cfg.peer_link id)
  modify (λ s. record s { mlag = cfg })

unfoldable pub set_mlag : (Text → Option Addr) → MlagConfig → Op Unit
unfolding enable_mlag
set_mlag parse_addr cfg = do
  need (λ c. c.mlag) Feature.mlag
  (if cfg.enabled then enable_mlag parse_addr cfg else modify (λ s. record s { mlag = no_mlag }))

-- A LAG other than `name` that has the id.
unfoldable pub id_holder : Text → ℤ → Map Text LagState → Option Text
id_holder name id [] = none
id_holder name id ((n, l) ∷ ls) =
    if not (n == name) && l.mlag == id then some n else id_holder name id ls

unfoldable pub id_check : Text → ℤ → Switch → Check Error
id_check name id s =
    if id == pos 0
    then ok tt
    else if s.mlag.enabled && s.mlag.peer_link == name
    then err (Error.mlag_is_peer_link name)
    else elim (id_holder name id s.lags) [ none ↦ ok tt | some n ↦ err (Error.mlag_id_taken id n) ]

unfoldable pub set_lag_mlag : Text → ℤ → Op Unit
set_lag_mlag name id = do
  need (λ c. c.mlag) Feature.mlag
  refuse_if (outside id 0 1000) (Error.mlag_id id)
  lookup_lag name
  reads (id_check name id)
  modify (λ s. record s { lags = adjust name (λ l. record l { mlag = id }) s.lags })

-- Whether any member's port is up: `local = local || s.byName[m].adminUp` looks no further than the
-- first that is; a member that is no port is a nil pointer.
unfoldable pub any_up : List Text → Map Text PortState → Result Error Bool
any_up [] m = ok false
any_up (n ∷ ns) m = elim (lookup n m) [
  | none ↦ err Error.nil_pointer
  | some p ↦ if p.admin_up then ok true else any_up ns m
]

unfoldable pub mlag_interface : Text → LagState → Bool → MlagInterface
mlag_interface name l local_up = record {
  lag = name;
  id = l.mlag;
  local_up = local_up;
  peer = false;
  state = if local_up then text "local" else text "down";
  held = [];
  held_seconds = pos 0;
}

unfoldable pub mlag_interfaces :
    Map Text LagState → Map Text PortState → Result Error (List MlagInterface)
unfolding mlag_interface
mlag_interfaces [] m = ok []
mlag_interfaces ((name, l) ∷ ls) m =
    let rest = mlag_interfaces ls m in
    if l.mlag == pos 0 then rest else elim (any_up l.members m) [
      | err e ↦ err e
      | ok up ↦ elim rest [ err e ↦ err e | ok is ↦ ok (mlag_interface name l up ∷ is) ]
    ]

abbrev is_up : Option PortState → Bool
is_up none = false
is_up (some p) = p.admin_up

unfoldable pub mlag_status : Switch → List MlagInterface → MlagStatus
mlag_status s is =
    let c = s.mlag in
    let when_on = λ (x : ℤ). if c.enabled then x else pos 0 in
    record {
      enabled = c.enabled;
      role = text "none";
      peer_link = c.peer_link;
      peer_link_up = is_up (lookup c.peer_link s.by_name);
      peer_alive = false;
      heartbeat = false;
      peer = [];
      system_id = text "020000000001";
      interfaces = sort (λ i j. leb_ℤ i.id j.id) is;
      synced_macs = pos 0;
      peer_address = if c.enabled then c.peer_address else [];
      priority = when_on c.priority;
      hello_ms = when_on (mlag_hello_of c);
      dead_ms = when_on (mlag_dead_of c);
      settle_ms = when_on (mlag_settle_of c);
      heartbeat_port = when_on (mlag_port_of c);
      reload_delay = when_on c.reload_delay;
    }

unfoldable pub mlag : Op MlagStatus
unfolding mlag_status
mlag = do
  need (λ c. c.mlag) Feature.mlag
  is ← reads (λ s. mlag_interfaces s.lags s.by_name)
  reads (λ s. ok (mlag_status s is))
