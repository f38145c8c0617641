-- ===== src/Mem/Aggregation/Writes.antt =====
-- Writes of one port, or of a LAG's settings, keep ports and LAGs in agreement.
use nosaic_switch.Base.{◌≡◌, sym, ◌∙◌, ◌≢◌, Bool, some, List, [], ◌∷◌, Text, text_eq, nat_eq}
use nosaic_switch.Base.Int.{ℤ, int_eq}
use nosaic_switch.Base.Map.{Map, lookup, delete, adjust, has-adjust}
use nosaic_switch.SwitchApi.Address.{prefix_eq}
use nosaic_switch.SwitchApi.Types.{gateway_eq}
use nosaic_switch.Mem.State.{PortState, LagState}
use nosaic_switch.Mem.Vlans.{drop_vlan}
use nosaic_switch.Base.Every.{Every, Every-adjust}
use nosaic_switch.Mem.Views.{
  lag_of-adjust, kind_of-adjust, kind_of-drop_vlan, lag_of-drop_vlan, lists-adjust,
}
use nosaic_switch.Mem.Aggregation.{Aggregated}

-- A write that leaves a port's name, kind and LAG alone, and gives a member of a LAG no VLAN.
pub record IsLocal (ps : Map Text PortState) (name : Text) (f : PortState → PortState)
    : Type 0 where
  pub same_lag : (p : PortState) → (f p).lag ≡ p.lag
  pub same_kind : (p : PortState) → (f p).is_lag ≡ p.is_lag
  pub same_name : (p : PortState) → (f p).name ≡ p.name
  pub no_vlan :
      (p : PortState) → lookup name ps ≡ some p → p.lag ≢ [] → p.vlans ≡ [] → (f p).vlans ≡ []

pub drop_vlan-Every :
    (P : Text → PortState → Type 0) (vid : ℤ) (ns : List Text) (m : Map Text PortState)
    → ((n : Text) (p : PortState) → P n p → P n (record p { vlans = delete vid p.vlans }))
    → Every P m
    → Every P (drop_vlan vid ns m)
unfolding drop_vlan
drop_vlan-Every P vid [] m keep h = h
drop_vlan-Every P vid (n ∷ ns) m keep h =
    drop_vlan-Every P vid ns _ keep (Every-adjust n _ m h (λ p e old. keep n p old))

delete-empty : (vid : ℤ) (m : Map ℤ Bool) → m ≡ [] → delete vid m ≡ []
unfolding delete
delete-empty vid m e = rw e

module _ {ports : List Text} {ps : Map Text PortState} {lags : Map Text LagState} where
  pub adjust-Aggregated :
      (name : Text) (f : PortState → PortState)
      → IsLocal ps name f
      → Aggregated ports ps lags
      → Aggregated ports (adjust name f ps) lags
  adjust-Aggregated name f k a =
      let lag_same = λ (n : Text). lag_of-adjust name n f ps k.same_lag in
      let kind_same = λ (n : Text). kind_of-adjust name n f ps k.same_kind in
      record {
        listed_by = λ n g h e. a.listed_by n g h (sym (lag_same n) ∙ e);
        says = λ n g h e. lag_same n ∙ a.says n g h e;
        is_lag = λ n e. a.is_lag n (sym (kind_same n) ∙ e);
        lag_port = λ n e. kind_same n ∙ a.lag_port n e;
        is_front = λ n e. a.is_front n (sym (kind_same n) ∙ e);
        front_port = λ n e. kind_same n ∙ a.front_port n e;
        bare = Every-adjust name f ps a.bare λ p e old member.
            let was : p.lag ≢ [] = λ q. member (k.same_lag p ∙ q) in
            (k.no_vlan p e was (old was).0, k.same_kind p ∙ (old was).1);
        named = Every-adjust name f ps a.named (λ p e old. k.same_name p ∙ old);
        no_empty_name = a.no_empty_name;
        front_names = a.front_names;
      }

  -- The settings of a LAG, its members apart.
  pub settings-Aggregated :
      (name : Text) (f : LagState → LagState)
      → ((l : LagState) → (f l).members ≡ l.members)
      → Aggregated ports ps lags
      → Aggregated ports ps (adjust name f lags)
  settings-Aggregated name f same a =
      let list_same = λ (g n : Text). lists-adjust name g n f lags same in
      record {
        listed_by = λ n g h e. list_same g n ∙ a.listed_by n g h e;
        says = λ n g h e. a.says n g h (sym (list_same g n) ∙ e);
        is_lag = λ n e. has-adjust name n f lags ∙ a.is_lag n e;
        lag_port = λ n e. a.lag_port n (sym (has-adjust name n f lags) ∙ e);
        is_front = a.is_front;
        front_port = a.front_port;
        bare = a.bare;
        named = a.named;
        no_empty_name = has-adjust name [] f lags ∙ a.no_empty_name;
        front_names = a.front_names;
      }

  pub drop_vlan-Aggregated :
      (vid : ℤ) (ns : List Text)
      → Aggregated ports ps lags
      → Aggregated ports (drop_vlan vid ns ps) lags
  drop_vlan-Aggregated vid ns a =
      let lag_same = λ (n : Text). lag_of-drop_vlan vid ns n ps in
      let kind_same = λ (n : Text). kind_of-drop_vlan vid ns n ps in
      record {
        listed_by = λ n g h e. a.listed_by n g h (sym (lag_same n) ∙ e);
        says = λ n g h e. lag_same n ∙ a.says n g h e;
        is_lag = λ n e. a.is_lag n (sym (kind_same n) ∙ e);
        lag_port = λ n e. kind_same n ∙ a.lag_port n e;
        is_front = λ n e. a.is_front n (sym (kind_same n) ∙ e);
        front_port = λ n e. kind_same n ∙ a.front_port n e;
        bare =
            drop_vlan-Every _ vid ns ps
              (λ n p old member. (delete-empty vid p.vlans (old member).0, (old member).1)) a.bare;
        named = drop_vlan-Every _ vid ns ps (λ n p old. old) a.named;
        no_empty_name = a.no_empty_name;
        front_names = a.front_names;
      }
