-- ===== src/Mem/Atomicity.antt =====
-- What a call leaves when it is refused and when it succeeds (internal/nosd/mem).
use nosaic_switch.Base.{◌≡◌, sym, subst, true, false, List, text_eq, nat_eq}
use nosaic_switch.Base.Int.{int_eq}
use nosaic_switch.SwitchApi.Address.{prefix_eq}
use nosaic_switch.SwitchApi.Types.{gateway_eq}
use nosaic_switch.Mem.State.{Config}
use nosaic_switch.Mem.Calls.{Net, Call, step, run}
use nosaic_switch.Mem.Writes.{after, Guard, Permit}
use nosaic_switch.Mem.Outcome.{Outcome, after-Outcome}
use nosaic_switch.Mem.Effect.{failed}
use nosaic_switch.Mem.Steps.{step-Effect}
use nosaic_switch.Mem.State.{new}
use nosaic_switch.Mem.Aggregation.{Aggregated-Linked}
use nosaic_switch.Mem.Aggregation.History.{history-Aggregated}

-- After any calls on a new switch, a call that fails leaves the switch as it was.
pub history-refused :
    (net : Net) (cfg : Config) (cs : List Call) (c : Call)
    → failed (step net c (run net cs (new cfg))).0 ≡ true
    → (step net c (run net cs (new cfg))).1 ≡ run net cs (new cfg)
history-refused net cfg cs c =
    let s = run net cs (new cfg) in
    (step-Effect net c s (Aggregated-Linked (history-Aggregated net cfg cs))).refused

-- After any calls on a new switch, a call that succeeds takes only features that the datapath has and
-- names only what is there (`Permit`), its arguments have passed the checks that `Guard` lists, and it
-- has made the one write that `after` lists. `Outcome` says what that leaves: a deleted VLAN is on no port
-- or LAG; a VLAN set on a port is there, tagged as asked for, and one taken off is not; a tunnel port has
-- its service VLAN, untagged; with an SVI its gateways are gone; a LAG is of the kind asked for, has as
-- members the front-panel ports asked for, and once deleted is no LAG and no port; spanning tree has the
-- settings given.
pub history-done :
    (net : Net) (cfg : Config) (cs : List Call) (c : Call)
    → failed (step net c (run net cs (new cfg))).0 ≡ false
    → ((step net c (run net cs (new cfg))).1 ≡ after c (run net cs (new cfg)))
      × (Guard net c (run net cs (new cfg)) × Permit c (run net cs (new cfg)))
      × Outcome c (run net cs (new cfg)) (step net c (run net cs (new cfg))).1
history-done net cfg cs c h =
    let s = run net cs (new cfg) in
    let agree = history-Aggregated net cfg cs in
    let (same, (g, p)) = (step-Effect net c s (Aggregated-Linked agree)).done h in
    (same, (g, p), subst (Outcome c s) (sym same) (after-Outcome net c s agree g))
