-- ===== src/Mem/Lags.antt =====
-- Link aggregation of the in-memory switch: AddLAG to LAGs of internal/nosd/mem/mem.go, and lacp.go.
use nosaic_switch.Base.{
  Bool, true, false, not, ◌&&◌, Option, none, some, List, [], ◌∷◌, if◌then◌else◌, ◌==◌, Text, text,
  length, contains, text_eq, nat_eq,
}
use nosaic_switch.Base.Int.{ℤ, pos, int_eq, ltb_ℤ, leb_ℤ}
use nosaic_switch.Base.Map.{Map, lookup, insert, delete, adjust}
use nosaic_switch.Base.Exec.{
  Check, Result, ok, err, check_if, pure, lift, reads, modify, refuse_when, ◌>>=◌, ◌>>◌,
}
use nosaic_switch.Base.Sort.{sort, text_le}
use nosaic_switch.SwitchApi.Address.{prefix_eq}
use nosaic_switch.SwitchApi.Types.{LagOptions, LagMember, Lag, lacp_default_priority, gateway_eq}
use nosaic_switch.SwitchApi.Names.{valid_lag_name}
use nosaic_switch.SwitchApi.Errors.{Feature, Error}
use nosaic_switch.SwitchApi.Limits.{valid_lag_options, valid_lacp_priority}
use nosaic_switch.Mem.State.{PortState, LagState, Switch, Op, new_port, need, lookup_lag}

abbrev pub new_lag : Bool → LagState
new_lag lacp = record {
  lacp = lacp;
  mlag = pos 0;
  opts = record { rate = []; passive = false; port_priority = pos 0 };
  members = [];
}

abbrev pub new_lag_port : Text → PortState
new_lag_port name = record (new_port name) { is_lag = true; admin_up = true }

unfoldable pub lags_full : Switch → Bool
lags_full s = ltb_ℤ (pos 0) s.cfg.caps.max_lags && leb_ℤ s.cfg.caps.max_lags (pos (length s.lags))

abbrev pub create_lag : Text → Bool → Switch → Switch
create_lag name lacp s = record s {
  lags = insert name (new_lag lacp) s.lags;
  by_name = insert name (new_lag_port name) s.by_name;
}

unfoldable pub set_lacp : Text → Bool → Op Unit
set_lacp name lacp =
    modify (λ s. record s { lags = adjust name (λ l. record l { lacp = lacp }) s.lags })

unfoldable pub add_new_lag : Text → Bool → Op Unit
add_new_lag name lacp s =
    (if lags_full s
      then (err (Error.lags_in_use name s.cfg.caps.max_lags), s)
      else (ok tt, create_lag name lacp s))

-- An existing LAG only changes its kind.
unfoldable pub add_lag : Text → Bool → Op Unit
unfolding set_lacp add_new_lag
add_lag name lacp = do
  need (λ c. c.lags) Feature.lags
  refuse_when (λ s. lacp && not s.cfg.caps.lacp) (Error.unsupported Feature.lacp)
  lift (valid_lag_name name)
  old ← reads (λ s. ok (lookup name s.lags))
  elim old [ none ↦ add_new_lag name lacp | some _ ↦ set_lacp name lacp ]

-- What stops a port from being a member of the LAG.
unfoldable pub member_check : Text → Text → PortState → Check Error
member_check name n p =
    if p.is_lag
    then err (Error.is_a_lag n)
    else if not (p.lag == []) && not (p.lag == name)
    then err (Error.lag_member n p.lag)
    else check_if (not (elim p.vlans [ [] ↦ true | _ ∷ _ ↦ false ])) (Error.switched_port n)

-- The first loop: every port named must be one that can be a member.
unfoldable pub check_members : Text → List Text → Map Text PortState → Check Error
check_members name [] m = ok tt
check_members name (n ∷ ns) m = elim (lookup n m) [
  | none ↦ err (Error.no_such_port n)
  | some p ↦ elim (member_check name n p) [ err e ↦ err e | ok _ ↦ check_members name ns m ]
]

abbrev pub set_lag_of : Text → PortState → PortState
set_lag_of name p = record p { lag = name }

-- The second loop: `s.byName[n].lag = ""` for the members that are not wanted any more.
unfoldable pub release_members : List Text → List Text → Op Unit
release_members want [] s = (ok tt, s)
release_members want (n ∷ ns) s =
    let rest = release_members want ns in
    if contains want n then rest s else elim (lookup n s.by_name) [
      | none ↦ (err Error.nil_pointer, s)
      | some _ ↦ rest (record s { by_name = adjust n (set_lag_of []) s.by_name })
    ]

-- The third loop, over the front-panel ports.
unfoldable pub join_all : Text → List Text → Map Text PortState → Map Text PortState
join_all name [] m = m
join_all name (n ∷ ns) m = join_all name ns (adjust n (set_lag_of name) m)

unfoldable pub wanted : List Text → List Text → List Text
wanted want [] = []
wanted want (n ∷ ns) = let rest = wanted want ns in if contains want n then n ∷ rest else rest

abbrev pub too_many : Switch → List Text → Bool
too_many s ports =
    ltb_ℤ (pos 0) s.cfg.caps.max_lag_members
    && ltb_ℤ s.cfg.caps.max_lag_members (pos (length ports))

abbrev pub join_members : Text → List Text → Switch → Switch
join_members name ports s = record s {
  by_name = join_all name (wanted ports s.ports) s.by_name;
  lags = adjust name (λ l. record l { members = wanted ports s.ports }) s.lags;
}

unfoldable pub set_lag_members : Text → List Text → Op Unit
set_lag_members name ports = do
  need (λ c. c.lags) Feature.lags
  l ← lookup_lag name
  max ← reads (λ s. ok s.cfg.caps.max_lag_members)
  refuse_when (λ s. too_many s ports) (Error.too_many_members name (length ports) max)
  reads (λ s. check_members name ports s.by_name)
  release_members ports l.members
  modify (join_members name ports)

unfoldable pub delete_lag : Text → Option LagState → Op Unit
delete_lag name none = pure tt
delete_lag name (some l) = do
  release_members [] l.members
  modify (λ s. record s { lags = delete name s.lags; by_name = delete name s.by_name })

-- Deleting a LAG that is not there is no error.
unfoldable pub del_lag : Text → Op Unit
unfolding delete_lag
del_lag name = do
  need (λ c. c.lags) Feature.lags
  l ← reads (λ s. ok (lookup name s.lags))
  delete_lag name l

-- What a LAG's settings read back as, the defaults filled in.
unfoldable pub lag_options : LagOptions → LagOptions
lag_options o = record o {
  rate = if o.rate == [] then text "fast" else o.rate;
  port_priority = if o.port_priority == pos 0 then lacp_default_priority else o.port_priority;
}

unfoldable pub lacp_priority : ℤ → ℤ
lacp_priority p = if p == pos 0 then lacp_default_priority else p

-- A member is active when its port is up; a member that is no port is a nil pointer.
unfoldable pub member_list : List Text → Map Text PortState → Result Error (List LagMember)
member_list [] m = ok []
member_list (n ∷ ns) m = elim (lookup n m) [
  | none ↦ err Error.nil_pointer
  | some p ↦ elim (member_list ns m) [
    | err e ↦ err e
    | ok rest ↦ ok (record { port = n; active = p.admin_up } ∷ rest)
  ]
]

unfoldable pub lag_list : Switch → List (Text × LagState) → Result Error (List Lag)
lag_list s [] = ok []
lag_list s ((name, l) ∷ ls) = elim (member_list l.members s.by_name) [
  | err e ↦ err e
  | ok members ↦ elim (lag_list s ls) [
    | err e ↦ err e
    | ok rest ↦ ok (
        record {
          name = name;
          lacp = l.lacp;
          members = members;
          mlag = l.mlag;
          options = lag_options l.opts;
          system_priority = lacp_priority s.lacp_pri;
        }
        ∷ rest)
  ]
]

abbrev sort_lags : Result Error (List Lag) → Result Error (List Lag)
sort_lags (err e) = err e
sort_lags (ok ls) = ok (sort (λ g h. text_le g.name h.name) ls)

unfoldable pub lags : Op (List Lag)
lags = do need (λ c. c.lags) Feature.lags; reads (λ s. sort_lags (lag_list s s.lags))

unfoldable pub set_lag_options : Text → LagOptions → Op Unit
set_lag_options name o = do
  need (λ c. c.lags) Feature.lags
  lift (valid_lag_options o)
  lookup_lag name
  modify (λ s. record s { lags = adjust name (λ l. record l { opts = o }) s.lags })

unfoldable pub set_lacp_system_priority : ℤ → Op Unit
set_lacp_system_priority p = do
  need (λ c. c.lacp) Feature.lacp
  lift (valid_lacp_priority p)
  modify (λ s. record s { lacp_pri = p })
