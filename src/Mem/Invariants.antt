-- ===== src/Mem/Invariants.antt =====
-- Invariants of the in-memory switch: what every write keeps holds at every moment of its life.
pub mod AclPorts
pub mod Fit
pub mod Known
pub mod Membership
pub mod MlagIds
pub mod Settings
use nosaic_switch.Base.{Bool, true, false, List, [], ◌∷◌, if◌then◌else◌, Text, text_eq, nat_eq}
use nosaic_switch.Base.Int.{ℤ, int_eq}
use nosaic_switch.Base.Map.{adjust}
use nosaic_switch.Base.Exec.{Result, ok, err}
use nosaic_switch.SwitchApi.Address.{prefix_eq}
use nosaic_switch.SwitchApi.Types.{gateway_eq}
use nosaic_switch.SwitchApi.Errors.{Error}
use nosaic_switch.Mem.State.{PortState, Config, Switch}
use nosaic_switch.Mem.Svis.{Place, at_port, at_svi, write_at}
use nosaic_switch.Mem.Calls.{Net, Call, step, run}
use nosaic_switch.Mem.Writes.{write_place, after, Guard}
use nosaic_switch.Mem.Effect.{Effect-keeps}
use nosaic_switch.Mem.Steps.{step-Effect}
use nosaic_switch.Mem.State.{new}
use nosaic_switch.Mem.Aggregation.{Aggregated-Linked}
use nosaic_switch.Mem.Aggregation.History.{IsAggregated, step-Aggregated, new-Aggregated}

-- The write of an address lands on a port or on an SVI.
pub place-keeps :
    (P : Switch → Type 0) (s : Switch) (place : Result Error Place) (f : PortState → PortState)
    → ((name : Text) → P (record s { by_name = adjust name f s.by_name }))
    → ((vid : ℤ) → P (record s { svis = adjust vid f s.svis }))
    → P s
    → P (write_place place f s)
unfolding write_at
place-keeps P s (err e) f port svi h = h
place-keeps P s (ok (at_port name)) f port svi h = port name
place-keeps P s (ok (at_svi vid)) f port svi h = svi vid

pub choice-keeps :
    (P : Switch → Type 0) (b : Bool) (s t : Switch) → P s → P t → P (if b then s else t)
choice-keeps P true s t h k = h
choice-keeps P false s t h k = k

module _ (net : Net) (P : Switch → Type 0) where
  run-keeps :
      ((c : Call) (s : Switch) → IsAggregated s → Guard net c s → P s → P (after c s))
      → (cs : List Call) (s : Switch) → IsAggregated s
      → P s
      → P (run net cs s)
  unfolding run
  run-keeps keep [] s a p = p
  run-keeps keep (c ∷ cs) s a p =
      run-keeps keep cs (step net c s).1 (step-Aggregated net c s a)
        (Effect-keeps P (step-Effect net c s (Aggregated-Linked a)) p (λ g. keep c s a g.0 p))

  pub history-keeps :
      ((c : Call) (s : Switch) → IsAggregated s → Guard net c s → P s → P (after c s))
      → (cfg : Config) (cs : List Call) → P (new cfg)
      → P (run net cs (new cfg))
  history-keeps keep cfg cs p = run-keeps keep cs (new cfg) (new-Aggregated cfg) p
