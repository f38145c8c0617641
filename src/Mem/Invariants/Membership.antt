-- ===== src/Mem/Invariants/Membership.antt =====
-- The VLANs that ports are members of, and the VLANs of the switch (internal/nosd/mem/mem.go).
pub mod History
use nosaic_switch.Base.{
  ◌≡◌, refl, sym, ap, ◌∙◌, ◌≢◌, inl, inr, Bool, true, ◌||◌, none, some, List, [], ◌∷◌, ◌++◌, arith,
  ◌==◌, Bool-cases, Option-cases, Text, contains, text_eq, nat_eq,
}
use nosaic_switch.Base.Int.{ℤ, int_eq}
use nosaic_switch.Base.Map.{
  Map, lookup, delete, adjust, has, keys, lookup-delete, lookup-adjust, has-delete,
}
use nosaic_switch.Base.Sort.{sort, text_le}
use nosaic_switch.SwitchApi.Address.{prefix_eq}
use nosaic_switch.SwitchApi.Types.{gateway_eq}
use nosaic_switch.Mem.State.{PortState, LagState, Switch, switchable}
use nosaic_switch.Mem.Vlans.{drop_vlan}
use nosaic_switch.Base.Every.{Every}
use nosaic_switch.Mem.Views.{kind_of, kind_in, kind_of-drop_vlan}
use nosaic_switch.Mem.Aggregation.History.{IsAggregated}
use nosaic_switch.Mem.Aggregation.Writes.{drop_vlan-Every}
use nosaic_switch.Base.Sort.{insert_sorted}

-- Every VLAN of a port is a VLAN of the switch.
abbrev pub HasOnly : Map ℤ Bool → Text → PortState → Type 0
HasOnly vlans n p = (v : ℤ) (t : Bool) → lookup v p.vlans ≡ some t → has v vlans ≡ true

abbrev pub MembersKnown : Switch → Type 0
MembersKnown s = Every (HasOnly s.vlans) s.by_name

contains-append :
    (n : Text) (xs ys : List Text) → contains (xs ++ ys) n ≡ (contains xs n || contains ys n)
contains-append n [] ys = refl
contains-append n (x ∷ xs) ys = ground (arith, contains-append n xs ys)

contains-insert_sorted :
    (n x : Text) (xs : List Text)
    → contains (insert_sorted text_le x xs) n ≡ (x == n || contains xs n)
unfolding insert_sorted
contains-insert_sorted n x [] = refl
contains-insert_sorted n x (y ∷ ys) = elim (Bool-cases (text_le x y)) [
  | inl first ↦ rw first refl
  | inr later ↦ rw later (ground (arith, contains-insert_sorted n x ys))
]

contains-sort : (n : Text) (xs : List Text) → contains (sort text_le xs) n ≡ contains xs n
unfolding sort
contains-sort n [] = refl
contains-sort n (x ∷ xs) =
    ground (arith, contains-insert_sorted n x (sort text_le xs), contains-sort n xs)

contains-keys : (n : Text) (m : Map Text LagState) → contains (keys m) n ≡ has n m
unfolding keys lookup
contains-keys n [] = refl
contains-keys n ((k, l) ∷ m) = ground (arith, contains-keys n m)

-- Everything that can be in a VLAN is in the list of what can be.
covers :
    (s : Switch) (n : Text) (p : PortState)
    → IsAggregated s
    → lookup n s.by_name ≡ some p
    → contains (switchable s) n ≡ true
unfolding switchable kind_of
covers s n p a e =
    contains-append n s.ports (sort text_le (keys s.lags)) ∙ (elim (Bool-cases p.is_lag) [
      | inl lag ↦
          let there : has n s.lags ≡ true = a.is_lag n (ap kind_in e ∙ ap some lag) in
          ground (arith, contains-sort n (keys s.lags), contains-keys n s.lags, there)
      | inr front ↦
          let there : contains s.ports n ≡ true = a.is_front n (ap kind_in e ∙ ap some front) in
          ground (arith, there)
    ])

dropped_here :
    (vid : ℤ) (n : Text) (m : Map Text PortState)
    → Every
        (λ k p. n ≡ k → lookup vid p.vlans ≡ none)
        (adjust n (λ p. record p { vlans = delete vid p.vlans }) m)
dropped_here vid n m k p e same = elim (Option-cases (lookup k m)) [
  | inl gone ↦
      absurd (ground (arith, lookup-adjust n k (λ p. record p { vlans = delete vid p.vlans }) m))
  | inr (q, there) ↦
      let is : record q { vlans = delete vid q.vlans } ≡ p =
        ground (arith, lookup-adjust n k (λ p. record p { vlans = delete vid p.vlans }) m) in
      ap (λ (r : PortState). lookup vid r.vlans) (sym is)
      ∙ ground (arith, lookup-delete vid vid q.vlans)
]

-- The deleted VLAN is on none of the ports named.
drop_vlan-gone :
    (vid : ℤ) (ns : List Text) (m : Map Text PortState)
    → Every (λ n p. contains ns n ≡ true → lookup vid p.vlans ≡ none) (drop_vlan vid ns m)
unfolding drop_vlan
drop_vlan-gone vid [] m k p e c = absurd (ground arith)
drop_vlan-gone vid (n ∷ ns) m k p e c = elim (text_eq.dec n k) [
  | yes same ↦
      drop_vlan-Every (λ j q. n ≡ j → lookup vid q.vlans ≡ none) vid ns _
        (λ j q old here. ground (arith, lookup-delete vid vid q.vlans)) (dropped_here vid n m) k p e
        same
  | no other ↦ drop_vlan-gone vid ns _ k p e (ground (arith, other))
]

drop_vlan-kept :
    (s : Switch) (vid : ℤ)
    → MembersKnown s
    → Every (HasOnly s.vlans) (drop_vlan vid (switchable s) s.by_name)
drop_vlan-kept s vid h =
    drop_vlan-Every (HasOnly s.vlans) vid (switchable s) s.by_name
      (λ n p old v t e. old v t (ground (arith, lookup-delete vid v p.vlans))) h

kind_of-some :
    (n : Text) (m : Map Text PortState) (p : PortState)
    → lookup n m ≡ some p
    → (b : Bool) × (kind_of n m ≡ some b)
unfolding kind_of
kind_of-some n m p e = (p.is_lag, ap kind_in e)

was_there :
    (vid : ℤ) (ns : List Text) (n : Text) (m : Map Text PortState) (p : PortState)
    → lookup n (drop_vlan vid ns m) ≡ some p
    → (q : PortState) × (lookup n m ≡ some q)
unfolding kind_of
was_there vid ns n m p e = elim (Option-cases (lookup n m)) [
  | inl gone ↦ absurd (ground (arith, kind_of-drop_vlan vid ns n m))
  | inr there ↦ there
]

-- The VLAN that DelVLAN deletes is on no port and on no LAG.
pub del_vlan-gone :
    (s : Switch) (vid : ℤ)
    → IsAggregated s
    → Every (λ n p. lookup vid p.vlans ≡ none) (drop_vlan vid (switchable s) s.by_name)
del_vlan-gone s vid a n p e =
    let (q, there) = was_there vid (switchable s) n s.by_name p e in
    drop_vlan-gone vid (switchable s) s.by_name n p e (covers s n q a there)

pub del_vlan-Known :
    (s : Switch) (vid : ℤ)
    → IsAggregated s
    → MembersKnown s
    → Every (HasOnly (delete vid s.vlans)) (drop_vlan vid (switchable s) s.by_name)
del_vlan-Known s vid a h n p e v t f =
    let (q, there) = was_there vid (switchable s) n s.by_name p e in
    let gone : lookup vid p.vlans ≡ none =
      drop_vlan-gone vid (switchable s) s.by_name n p e (covers s n q a there) in
    let old : has v s.vlans ≡ true = drop_vlan-kept s vid h n p e v t f in
    let other : vid ≢ v = λ same. absurd (
      let one : lookup vid p.vlans ≡ some t = ap (λ x. lookup x p.vlans) same ∙ f in
      ground arith) in
    ground (arith, has-delete vid v s.vlans, other)
