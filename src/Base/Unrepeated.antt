-- ===== src/Base/Unrepeated.antt =====
-- Association lists in which no key stands twice, as a Go map has none.
use mathlib.Core.Path.{subst, ◌≡◌, refl, ◌∙◌}
use mathlib.Core.Logic.{inl, inr}
use mathlib.Core.Bool.{false}
use mathlib.Core.Option.{some}
use mathlib.Core.List.{[], ◌∷◌}
use native.Mathlib.Omega.{arith}
use nosaic_switch.Base.Tests.{Eq, ◌==◌, Bool-cases, ==_iff, ==_refl}
use nosaic_switch.Base.Lists.{All, text_eq}
use nosaic_switch.Base.Int.{int_eq}
use nosaic_switch.Base.Every.{Every}
use nosaic_switch.Base.Map.{
  Map, lookup, insert, delete, adjust, has, has-adjust, has-insert, has-delete,
}

-- No key stands twice.
abbrev pub Unrepeated : {K V : Type 0} ⦃e : Eq K⦄ → Map K V → Type 0
Unrepeated [] = Unit
Unrepeated ((k, v) ∷ m) = (has k m ≡ false) × Unrepeated m

module _ {K V : Type 0} ⦃e : Eq K⦄ where
  pub Unrepeated-insert : (k : K) (v : V) (m : Map K V) → Unrepeated m → Unrepeated (insert k v m)
  unfolding insert lookup
  Unrepeated-insert k v [] h = (refl, tt)
  Unrepeated-insert k v ((j, w) ∷ m) h = elim (Bool-cases (j == k)) [
    | inl same ↦ rw same (subst (λ i. has i m ≡ false) ((==_iff j k).0 same) h.0, h.1)
    | inr other ↦ rw other (
      ground (arith, has-insert k j v m, h.0, ==_iff j k, ==_iff k j, other),
      Unrepeated-insert k v m h.1,
    )
  ]

  pub Unrepeated-adjust :
      (k : K) (f : V → V) (m : Map K V) → Unrepeated m → Unrepeated (adjust k f m)
  unfolding adjust
  Unrepeated-adjust k f [] h = tt
  Unrepeated-adjust k f ((j, w) ∷ m) h = elim (Bool-cases (j == k)) [
    | inl same ↦ rw same h
    | inr other ↦ rw other (has-adjust k j f m ∙ h.0, Unrepeated-adjust k f m h.1)
  ]

  pub Unrepeated-delete : (k : K) (m : Map K V) → Unrepeated m → Unrepeated (delete k m)
  unfolding delete
  Unrepeated-delete k [] h = tt
  Unrepeated-delete k ((j, w) ∷ m) h = elim (Bool-cases (j == k)) [
    | inl same ↦ rw same (Unrepeated-delete k m h.1)
    | inr other ↦ rw other (ground (arith, has-delete k j m, h.0), Unrepeated-delete k m h.1)
  ]

  -- What holds of every entry that can be looked up holds of every entry.
  pub Every-All :
      (P : K → V → Type 0) (m : Map K V)
      → Unrepeated m
      → Every P m
      → All (λ (x : K × V). P x.0 x.1) m
  unfolding lookup
  Every-All P [] u h = tt
  Every-All P ((k, v) ∷ m) u h = (
    h k v (ground (arith, ==_refl k)),
    Every-All P m u.1 (λ j w f. h j w (later k v j w m u.0 f)),
  )
    where
      later :
          (k : K) (v : V) (j : K) (w : V) (m : Map K V)
          → has k m ≡ false
          → lookup j m ≡ some w
          → lookup j ((k, v) ∷ m) ≡ some w
      later k v j w m absent f = elim (e.dec k j) [
        | yes same ↦
            absurd (
              let gone : has j m ≡ false = subst (λ i. has i m ≡ false) same absent in ground arith)
        | no other ↦ ground (arith, other)
      ]
