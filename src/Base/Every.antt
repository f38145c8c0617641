-- ===== src/Base/Every.antt =====
-- A predicate on every entry of a map, and how the map's writes keep it.
use mathlib.Core.Path.{◌≡◌, subst}
use mathlib.Core.Logic.{inl, inr}
use mathlib.Core.Option.{some}
use mathlib.Core.List.{[]}
use native.Mathlib.Omega.{arith}
use nosaic_switch.Base.Tests.{Eq, Option-cases}
use nosaic_switch.Base.Map.{
  Map, lookup, insert, delete, adjust, lookup-insert, lookup-delete, lookup-adjust,
}

abbrev pub Every {ℓ κ} :
    {K : Type ℓ} {V : Type ℓ} ⦃e : Eq K⦄ → (K → V → Type κ) → Map K V → Type (ℓ ⊔ κ)
Every {K} {V} P m = (k : K) (v : V) → lookup k m ≡ some v → P k v

pub Every-empty : {K V : Type 0} ⦃e : Eq K⦄ (P : K → V → Type 0) → Every P []
unfolding lookup
Every-empty P k v h = cc

module _ {K V : Type 0} ⦃e : Eq K⦄ {P : K → V → Type 0} where
  pub Every-insert : (k : K) (v : V) (m : Map K V) → Every P m → P k v → Every P (insert k v m)
  Every-insert k v m h p j w f = elim (e.dec k j) [
    | yes same ↦
        let both : v ≡ w = ground (arith, lookup-insert k j v m) in
        subst (λ i. P i w) same (subst (P k) both p)
    | no other ↦ h j w (ground (arith, lookup-insert k j v m))
  ]

  pub Every-delete : (k : K) (m : Map K V) → Every P m → Every P (delete k m)
  Every-delete k m h j w f = h j w (ground (arith, lookup-delete k j m))

  pub Every-adjust :
      (k : K) (g : V → V) (m : Map K V)
      → Every P m
      → ((v : V) → lookup k m ≡ some v → P k v → P k (g v))
      → Every P (adjust k g m)
  Every-adjust k g m h p j w f = elim (e.dec k j) [
    | yes same ↦ elim (Option-cases (lookup j m)) [
      | inl gone ↦ absurd (ground (arith, lookup-adjust k j g m))
      | inr (v, there) ↦
          let here : lookup k m ≡ some v = cc in
          let w_is : g v ≡ w = ground (arith, lookup-adjust k j g m) in
          subst (λ i. P i w) same (subst (P k) w_is (p v here (h k v here)))
    ]
    | no other ↦ h j w (ground (arith, lookup-adjust k j g m))
  ]
