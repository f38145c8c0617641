-- ===== src/Base/White.antt =====
-- White space among the bytes below 128, as strings.TrimSpace and strings.Fields take it, and words.
use Prim.Native.Nat.{ℕ}
use mathlib.Core.Path.{◌≡◌}
use mathlib.Core.Bool.{Bool, true, false, not, ◌&&◌}
use mathlib.Core.List.{[], ◌∷◌}
use nosaic_switch.Base.Tests.{ltb, nat_eq}
use nosaic_switch.Base.Lists.{Text, All, contains}

abbrev pub is_white : ℕ → Bool
is_white c = contains (9 ∷ 10 ∷ 11 ∷ 12 ∷ 13 ∷ 32 ∷ []) c

-- A byte below 128 that is no white space.
abbrev pub is_mark : ℕ → Bool
is_mark c = ltb c 128 && not (is_white c)

abbrev pub is_blank : Text → Bool
is_blank [] = true
is_blank (_ ∷ _) = false

-- Not empty, and without white space.
abbrev pub IsWord : Text → Type 0
IsWord w = (is_blank w ≡ false) × All (λ c. is_mark c ≡ true) w
