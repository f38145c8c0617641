-- ===== src/Mem/Views.antt =====
-- What the ports and the LAGs say of one another: for each name the LAG that the port says it is in,
-- and the kind of the port; for each LAG whether it lists a name.
use nosaic_switch.Base.{
  ◌≡◌, refl, ap, ◌∙◌, inl, inr, Bool, true, false, not, ◌&&◌, Option, none, some, List, [], ◌∷◌,
  arith, ◌==◌, Bool-cases, Text, contains, text_eq, nat_eq,
}
use nosaic_switch.Base.Int.{ℤ, int_eq}
use nosaic_switch.Base.Map.{Map, lookup, adjust, adjusted, lookup-adjust}
use nosaic_switch.SwitchApi.Address.{prefix_eq}
use nosaic_switch.SwitchApi.Types.{gateway_eq}
use nosaic_switch.Mem.State.{PortState, LagState}
use nosaic_switch.Mem.Vlans.{drop_vlan}
use nosaic_switch.Mem.Lags.{join_all, wanted, set_lag_of}
use nosaic_switch.Mem.Writes.{members_of, released}

abbrev pub lag_in : Option PortState → Option Text
lag_in none = none
lag_in (some p) = some p.lag

abbrev pub kind_in : Option PortState → Option Bool
kind_in none = none
kind_in (some p) = some p.is_lag

-- The LAG that the port says it is a member of, "" for none.
unfoldable pub lag_of : Text → Map Text PortState → Option Text
lag_of n m = lag_in (lookup n m)

-- Whether the port is a LAG interface.
unfoldable pub kind_of : Text → Map Text PortState → Option Bool
kind_of n m = kind_in (lookup n m)

abbrev pub listed : Option LagState → Text → Bool
listed none n = false
listed (some l) n = contains l.members n

-- Whether the LAG lists the port.
unfoldable pub lists : Text → Map Text LagState → Text → Bool
lists g m n = listed (lookup g m) n

pub contains-members_of :
    (g : Text) (m : Map Text LagState) (n : Text) → contains (members_of g m) n ≡ lists g m n
unfolding members_of lists
contains-members_of g m n = ground arith

abbrev pub in_place : Bool → Text → Option Text → Option Text
in_place true g none = none
in_place true g (some _) = some g
in_place false g o = o

module _ (k n : Text) (f : PortState → PortState) (m : Map Text PortState) where
  pub lag_of-adjust : ((p : PortState) → (f p).lag ≡ p.lag) → lag_of n (adjust k f m) ≡ lag_of n m
  unfolding lag_of
  lag_of-adjust h = rw (lookup-adjust k n f m) (same (k == n) (lookup n m))
    where
      same : (b : Bool) (o : Option PortState) → lag_in (adjusted b f o) ≡ lag_in o
      same false o = refl
      same true none = refl
      same true (some p) = ap some (h p)

  pub kind_of-adjust :
      ((p : PortState) → (f p).is_lag ≡ p.is_lag) → kind_of n (adjust k f m) ≡ kind_of n m
  unfolding kind_of
  kind_of-adjust h = rw (lookup-adjust k n f m) (same (k == n) (lookup n m))
    where
      same : (b : Bool) (o : Option PortState) → kind_in (adjusted b f o) ≡ kind_in o
      same false o = refl
      same true none = refl
      same true (some p) = ap some (h p)

pub lag_of-set :
    (g k n : Text) (m : Map Text PortState)
    → lag_of n (adjust k (set_lag_of g) m) ≡ in_place (k == n) g (lag_of n m)
unfolding lag_of
lag_of-set g k n m = ground (arith, lookup-adjust k n (set_lag_of g) m)

pub lag_of-join_all :
    (g : Text) (ns : List Text) (n : Text) (m : Map Text PortState)
    → lag_of n (join_all g ns m) ≡ in_place (contains ns n) g (lag_of n m)
unfolding join_all
lag_of-join_all g [] n m = refl
lag_of-join_all g (k ∷ ns) n m =
    ground (arith, lag_of-join_all g ns n (adjust k (set_lag_of g) m), lag_of-set g k n m)

pub lag_of-released :
    (want ns : List Text) (n : Text) (m : Map Text PortState)
    → lag_of n (released want ns m)
      ≡ in_place (contains ns n && not (contains want n)) [] (lag_of n m)
unfolding released
lag_of-released want [] n m = refl
lag_of-released want (k ∷ ns) n m = elim (Bool-cases (contains want k)) [
  | inl keep ↦ rw keep (ground (arith, keep, lag_of-released want ns n m))
  | inr drop ↦ rw drop (
      ground
        (arith, drop, lag_of-released want ns n (adjust k (set_lag_of []) m), lag_of-set [] k n m))
]

pub kind_of-join_all :
    (g : Text) (ns : List Text) (n : Text) (m : Map Text PortState)
    → kind_of n (join_all g ns m) ≡ kind_of n m
unfolding join_all
kind_of-join_all g [] n m = refl
kind_of-join_all g (k ∷ ns) n m =
    kind_of-join_all g ns n _ ∙ kind_of-adjust k n (set_lag_of g) m (λ p. refl)

pub kind_of-released :
    (want ns : List Text) (n : Text) (m : Map Text PortState)
    → kind_of n (released want ns m) ≡ kind_of n m
unfolding released
kind_of-released want [] n m = refl
kind_of-released want (k ∷ ns) n m = elim (Bool-cases (contains want k)) [
  | inl keep ↦ rw keep (kind_of-released want ns n m)
  | inr drop ↦
      rw drop (kind_of-released want ns n _ ∙ kind_of-adjust k n (set_lag_of []) m (λ p. refl))
]

pub kind_of-drop_vlan :
    (vid : ℤ) (ns : List Text) (n : Text) (m : Map Text PortState)
    → kind_of n (drop_vlan vid ns m) ≡ kind_of n m
unfolding drop_vlan
kind_of-drop_vlan vid [] n m = refl
kind_of-drop_vlan vid (k ∷ ns) n m =
    kind_of-drop_vlan vid ns n _ ∙ kind_of-adjust k n _ m (λ p. refl)

pub lag_of-drop_vlan :
    (vid : ℤ) (ns : List Text) (n : Text) (m : Map Text PortState)
    → lag_of n (drop_vlan vid ns m) ≡ lag_of n m
unfolding drop_vlan
lag_of-drop_vlan vid [] n m = refl
lag_of-drop_vlan vid (k ∷ ns) n m = lag_of-drop_vlan vid ns n _ ∙ lag_of-adjust k n _ m (λ p. refl)

pub contains-wanted :
    (want ns : List Text) (n : Text)
    → contains (wanted want ns) n ≡ (contains ns n && contains want n)
unfolding wanted
contains-wanted want [] n = refl
contains-wanted want (k ∷ ns) n = elim (Bool-cases (contains want k)) [
  | inl keep ↦ rw keep (ground (arith, keep, contains-wanted want ns n))
  | inr drop ↦ rw drop (ground (arith, drop, contains-wanted want ns n))
]

pub lists-adjust :
    (k g n : Text) (f : LagState → LagState) (m : Map Text LagState)
    → ((l : LagState) → (f l).members ≡ l.members)
    → lists g (adjust k f m) n ≡ lists g m n
unfolding lists
lists-adjust k g n f m h = rw (lookup-adjust k g f m) (same (k == g) (lookup g m))
  where
    same : (b : Bool) (o : Option LagState) → listed (adjusted b f o) n ≡ listed o n
    same false o = refl
    same true none = refl
    same true (some l) = ap (λ ms. contains ms n) (h l)
