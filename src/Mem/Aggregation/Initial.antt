-- ===== src/Mem/Aggregation/Initial.antt =====
-- A new switch has its front-panel ports and no LAG.
use nosaic_switch.Base.{
  ℕ, zero, suc, ◌+◌, ◌≡◌, refl, subst, ◌≢◌, true, false, none, some, List, [], ◌∷◌, ◌++◌, arith,
  if◌then◌else◌, Text, text, contains, ℕ_discrete, text_eq, nat_eq,
}
use nosaic_switch.Base.Int.{pos, int_eq}
use nosaic_switch.Base.Map.{lookup, has, lookup-insert}
use nosaic_switch.Base.Exec.{ok}
use nosaic_switch.Base.Decimal.{itoa}
use nosaic_switch.SwitchApi.Address.{prefix_eq}
use nosaic_switch.SwitchApi.Types.{gateway_eq}
use nosaic_switch.SwitchApi.Names.{valid_lag_name}
use nosaic_switch.Mem.State.{PortState, LagState, new_port}
use nosaic_switch.Base.Every.{Every, Every-empty, Every-insert}
use nosaic_switch.Mem.Views.{lag_of, kind_of, lists}
use nosaic_switch.Mem.State.{front_names, front_ports}
use nosaic_switch.Mem.Aggregation.{Aggregated}

lag_of-front :
    (ns : List Text) (n : Text)
    → lag_of n (front_ports ns) ≡ (if contains ns n then some [] else none)
unfolding lag_of front_ports new_port lookup
lag_of-front [] n = refl
lag_of-front (k ∷ ns) n =
    ground (arith, lookup-insert k n (new_port k) (front_ports ns), lag_of-front ns n)

kind_of-front :
    (ns : List Text) (n : Text)
    → kind_of n (front_ports ns) ≡ (if contains ns n then some false else none)
unfolding kind_of front_ports new_port lookup
kind_of-front [] n = refl
kind_of-front (k ∷ ns) n =
    ground (arith, lookup-insert k n (new_port k) (front_ports ns), kind_of-front ns n)

pub front-Every :
    (P : Text → PortState → Type 0)
    → ((n : Text) → P n (new_port n))
    → (ns : List Text) → Every P (front_ports ns)
unfolding front_ports
front-Every P h [] = Every-empty P
front-Every P h (n ∷ ns) = Every-insert n (new_port n) (front_ports ns) (front-Every P h ns) (h n)

swp_no_lag : (t : Text) → valid_lag_name (text "swp" ++ t) ≢ ok tt
unfolding valid_lag_name ℕ_discrete
swp_no_lag t e = cc

front_names_no_lag :
    (first count : ℕ) (n : Text)
    → contains (front_names first count) n ≡ true
    → valid_lag_name n ≢ ok tt
unfolding front_names
front_names_no_lag first zero n c = absurd (ground arith)
front_names_no_lag first (suc count) n c = elim (text_eq.dec (text "swp" ++ itoa (pos first)) n) [
  | yes same ↦ subst (λ k. valid_lag_name k ≢ ok tt) same (swp_no_lag (itoa (pos first)))
  | no other ↦ front_names_no_lag (first + 1) count n (ground arith)
]

lists_none : (g n : Text) → lists g [] n ≡ false
unfolding lists lookup
lists_none g n = refl

has_none : (n : Text) → has {V = LagState} n [] ≡ false
unfolding lookup
has_none n = refl

pub front-Aggregated :
    (first count : ℕ)
    → Aggregated (front_names first count) (front_ports (front_names first count)) []
unfolding new_port
front-Aggregated first count =
    let ns = front_names first count in
    record {
      listed_by = λ n g h e. absurd (ground (arith, lag_of-front ns n));
      says = λ n g h e. absurd (ground (arith, lists_none g n));
      is_lag = λ n e. absurd (ground (arith, kind_of-front ns n));
      lag_port = λ n e. absurd (ground (arith, has_none n));
      is_front = λ n e. ground (arith, kind_of-front ns n);
      front_port = λ n e. ground (arith, kind_of-front ns n);
      bare = front-Every _ (λ n h. absurd (h refl)) ns;
      named = front-Every _ (λ n. refl) ns;
      no_empty_name = has_none [];
      front_names = front_names_no_lag first count;
    }
