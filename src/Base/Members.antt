-- ===== src/Base/Members.antt =====
-- What stands in a list, for appended and for sorted lists.
use mathlib.Core.Path.{◌≡◌, subst}
use mathlib.Core.Logic.{◌⊎◌, inl, inr}
use mathlib.Core.Bool.{Bool}
use mathlib.Core.List.{List, [], ◌∷◌, ◌++◌}
use nosaic_switch.Base.Tests.{if◌then◌else◌, Bool-cases}
use nosaic_switch.Base.Sort.{sort, insert_sorted}

-- Stands in the list.
abbrev pub In : {A : Type 0} → A → List A → Type 0
In a [] = ⊥
In a (x ∷ xs) = (a ≡ x) ⊎ In a xs

pub In-left : {A : Type 0} (a : A) (xs ys : List A) → In a xs → In a (xs ++ ys)
In-left a [] ys h = elim h [ ]
In-left a (x ∷ xs) ys (inl e) = inl e
In-left a (x ∷ xs) ys (inr h) = inr (In-left a xs ys h)

pub In-right : {A : Type 0} (a : A) (xs ys : List A) → In a ys → In a (xs ++ ys)
In-right a [] ys h = h
In-right a (x ∷ xs) ys h = inr (In-right a xs ys h)

pub In-split : {A : Type 0} (a : A) (xs ys : List A) → In a (xs ++ ys) → In a xs ⊎ In a ys
In-split a [] ys h = inr h
In-split a (x ∷ xs) ys (inl e) = inl (inl e)
In-split a (x ∷ xs) ys (inr h) = elim (In-split a xs ys h) [ inl l ↦ inl (inr l) | inr r ↦ inr r ]

In-insert_sorted :
    {A : Type 0} (le : A → A → Bool) (d a : A) (xs : List A)
    → In d (a ∷ xs)
    → In d (insert_sorted le a xs)
unfolding insert_sorted
In-insert_sorted le d a [] h = h
In-insert_sorted le d a (x ∷ xs) h = elim (Bool-cases (le a x)) [
  | inl e ↦ rw e h
  | inr e ↦ rw e (elim h [
    | inl here ↦ inr (In-insert_sorted le d a xs (inl here))
    | inr (inl next) ↦ inl next
    | inr (inr later) ↦ inr (In-insert_sorted le d a xs (inr later))
  ])
]

pub In-sort : {A : Type 0} (le : A → A → Bool) (d : A) (xs : List A) → In d xs → In d (sort le xs)
unfolding sort
In-sort le d [] h = h
In-sort le d (x ∷ xs) (inl here) = In-insert_sorted le d x (sort le xs) (inl here)
In-sort le d (x ∷ xs) (inr later) =
    In-insert_sorted le d x (sort le xs) (inr (In-sort le d xs later))

In-insert_sorted_iff :
    {A : Type 0} (le : A → A → Bool) (d a : A) (xs : List A)
    → In d (insert_sorted le a xs)
    → In d (a ∷ xs)
unfolding insert_sorted
In-insert_sorted_iff le d a [] h = h
In-insert_sorted_iff le d a (x ∷ xs) h = elim (Bool-cases (le a x)) [
  | inl e ↦ subst (λ b. In d (if b then a ∷ x ∷ xs else x ∷ insert_sorted le a xs)) e h
  | inr e ↦ elim (subst (λ b. In d (if b then a ∷ x ∷ xs else x ∷ insert_sorted le a xs)) e h) [
    | inl here ↦ inr (inl here)
    | inr later ↦ elim (In-insert_sorted_iff le d a xs later) [
      | inl here ↦ inl here
      | inr there ↦ inr (inr there)
    ]
  ]
]

pub sort-In : {A : Type 0} (le : A → A → Bool) (d : A) (xs : List A) → In d (sort le xs) → In d xs
unfolding sort
sort-In le d [] h = h
sort-In le d (x ∷ xs) h = elim (In-insert_sorted_iff le d x (sort le xs) h) [
  | inl here ↦ inl here
  | inr later ↦ inr (sort-In le d xs later)
]
