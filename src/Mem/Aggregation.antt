-- ===== src/Mem/Aggregation.antt =====
-- Ports and LAGs agree: the invariant of the in-memory switch on link aggregation.
pub mod Writes
pub mod Members
pub mod Lifetime
pub mod Initial
pub mod History
use nosaic_switch.Base.{
  ◌≡◌, ◌∙◌, ◌≢◌, true, false, some, List, [], ◌∷◌, arith, Text, All, contains, text_eq, nat_eq,
}
use nosaic_switch.Base.Int.{int_eq}
use nosaic_switch.Base.Map.{Map, lookup, has}
use nosaic_switch.Base.Exec.{ok}
use nosaic_switch.SwitchApi.Address.{prefix_eq}
use nosaic_switch.SwitchApi.Types.{gateway_eq}
use nosaic_switch.SwitchApi.Names.{valid_lag_name}
use nosaic_switch.Mem.State.{PortState, LagState}
use nosaic_switch.Base.Every.{Every}
use nosaic_switch.Mem.Steps.{Linked}
use nosaic_switch.Mem.Views.{lag_of, kind_of, lists}

-- A port says that it is in a LAG exactly when the LAG lists it. The LAG interfaces are the ports that
-- `lags` knows, and the front-panel ports are the rest. A member has no VLANs.
pub record Aggregated (ports : List Text) (ps : Map Text PortState) (lags : Map Text LagState)
    : Type 0 where
  pub listed_by : (n g : Text) → g ≢ [] → lag_of n ps ≡ some g → lists g lags n ≡ true
  pub says : (n g : Text) → g ≢ [] → lists g lags n ≡ true → lag_of n ps ≡ some g
  pub is_lag : (n : Text) → kind_of n ps ≡ some true → has n lags ≡ true
  pub lag_port : (n : Text) → has n lags ≡ true → kind_of n ps ≡ some true
  pub is_front : (n : Text) → kind_of n ps ≡ some false → contains ports n ≡ true
  pub front_port : (n : Text) → contains ports n ≡ true → kind_of n ps ≡ some false
  pub bare : Every (λ n p. p.lag ≢ [] → (p.vlans ≡ []) × (p.is_lag ≡ false)) ps
  pub named : Every (λ n p. p.name ≡ n) ps
  pub no_empty_name : has [] lags ≡ false
  pub front_names : (n : Text) → contains ports n ≡ true → valid_lag_name n ≢ ok tt

All-contains :
    {P : Text → Type 0} (ns : List Text) → ((n : Text) → contains ns n ≡ true → P n) → All P ns
All-contains [] h = tt
All-contains {P} (n ∷ ns) h =
    (h n (ground arith), All-contains {P = P} ns (λ k c. h k (ground arith)))

lag_of-has : (n : Text) (m : Map Text PortState) (g : Text) → lag_of n m ≡ some g → has n m ≡ true
unfolding lag_of
lag_of-has n m g e = ground arith

lists-some :
    (g : Text) (m : Map Text LagState) (l : LagState) (n : Text)
    → lookup g m ≡ some l
    → lists g m n ≡ contains l.members n
unfolding lists
lists-some g m l n e = rw e

module _ {ports : List Text} {ps : Map Text PortState} {lags : Map Text LagState} where
  pub Aggregated-Linked : Aggregated ports ps lags → Linked lags ps
  Aggregated-Linked a g l e = All-contains l.members λ n c.
      lag_of-has n ps g
        (a.says n g (λ q. absurd (ground (arith, a.no_empty_name))) (lists-some g lags l n e ∙ c))
