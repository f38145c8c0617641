-- ===== src/Depsolve/Require/Print.antt =====
-- Requirements written and read back (Requirement.String and ParseRequirement of
-- internal/depsolve/depsolve.go).
use nosaic_switch.Base.{
  nat_eq, ℕ, Bool, true, false, not, Option, none, some, [], ◌∷◌, ◌++◌, ◌==◌, Text, text, text_eq,
  All, ◌≡◌, refl, ap, ◌∙◌, subst, ◌⊎◌, inl, inr, arith, Bool-cases, ==_iff, Option-cases, contains,
}
use nosaic_switch.Base.White.{is_mark}
use nosaic_switch.Base.Members.{In}
use nosaic_switch.Depsolve.Require.{Requirement, operators, strip, split_at, has_space}

abbrev pub ends_in_mark : Text → Bool
ends_in_mark [] = false
ends_in_mark (c ∷ []) = is_mark c
ends_in_mark (c ∷ d ∷ s) = ends_in_mark (d ∷ s)

abbrev pub starts_in_mark : Text → Bool
starts_in_mark [] = false
starts_in_mark (c ∷ _) = is_mark c

-- Nothing to trim at either end.
abbrev pub IsTight : Text → Type 0
IsTight s = (starts_in_mark s ≡ true) × (ends_in_mark s ≡ true)

-- What is documented of TrimSpace: it takes away the white space at both ends, and that only.
pub record TrimLaws (trim_space : Text → Text) : Type 0 where
  pub tight : (s : Text) → IsTight s → trim_space s ≡ s
  pub space_before : (s : Text) → IsTight s → trim_space (b' ' ∷ s) ≡ s
  pub space_after : (s : Text) → IsTight s → trim_space (s ++ (b' ' ∷ [])) ≡ s

-- A byte that no operator holds.
abbrev pub is_plain : ℕ → Bool
is_plain c = not (contains (text "<>=!") c)

abbrev pub IsPlain : Text → Type 0
IsPlain s = All (λ c. is_plain c ≡ true) s

-- The form of a requirement that is read back as it was: the name and the version are tight, so not
-- empty, and hold none of the bytes of the operators; the name has no space or tab either. Without an
-- operator the version is empty.
abbrev pub IsWritten : Requirement → Type 0
IsWritten r =
    IsTight r.name
    × IsPlain r.name
    × (has_space r.name ≡ false)
    × (((r.op ≡ []) × (r.version ≡ []))
        ⊎ (In r.op operators × IsTight r.version × IsPlain r.version))

-- In front of what was found.
abbrev pub behind : Text → Option (Text × Text) → Option (Text × Text)
behind name none = none
behind name (some (before, after)) = some (name ++ before, after)

abbrev pub IsOp : Text → Type 0
IsOp [] = ⊥
IsOp (c ∷ _) = is_plain c ≡ false

pub differ : (d c : ℕ) → is_plain d ≡ false → is_plain c ≡ true → (d == c) ≡ false
differ d c o p = elim (Bool-cases (d == c)) [
  | inr e ↦ e
  | inl e ↦ absurd (
      let f : is_plain c ≡ false = subst (λ x. is_plain x ≡ false) ((==_iff d c).0 e) o in
      ground (arith, f, p))
]

-- One byte more in front.
abbrev pub past : ℕ → Option (Text × Text) → Option (Text × Text)
past c none = none
past c (some (before, after)) = some (c ∷ before, after)

pub split_at-past :
    (d c : ℕ) (op s : Text)
    → (d == c) ≡ false
    → split_at (d ∷ op) (c ∷ s) ≡ past c (split_at (d ∷ op) s)
unfolding split_at strip
split_at-past d c op s e = elim (Option-cases (split_at (d ∷ op) s)) [
  | inl gone ↦ ground (arith, e, gone)
  | inr (found, there) ↦ ground (arith, e, there)
]

pub past-behind :
    (c : ℕ) (name : Text) (o : Option (Text × Text)) → past c (behind name o) ≡ behind (c ∷ name) o
past-behind c name none = refl
past-behind c name (some x) = refl

pub behind_none : (o : Option (Text × Text)) → o ≡ behind [] o
behind_none none = refl
behind_none (some x) = refl

-- What has no operator in it is passed over.
pub split_at-plain :
    (op name s : Text)
    → IsOp op
    → IsPlain name
    → split_at op (name ++ s) ≡ behind name (split_at op s)
split_at-plain [] name s o p = elim o [ ]
split_at-plain (d ∷ op) [] s o p = behind_none (split_at (d ∷ op) s)
split_at-plain (d ∷ op) (c ∷ name) s o p =
    split_at-past d c op (name ++ s) (differ d c o p.0)
    ∙ ap (past c) (split_at-plain (d ∷ op) name s o p.1)
    ∙ past-behind c name (split_at (d ∷ op) s)

pub split_at-none : (op s : Text) → IsOp op → IsPlain s → split_at op s ≡ none
split_at-none [] s o p = elim o [ ]
split_at-none (d ∷ op) [] o p = unfold split_at strip in refl
split_at-none (d ∷ op) (c ∷ s) o p =
    split_at-past d c op s (differ d c o p.0) ∙ ap (past c) (split_at-none (d ∷ op) s o p.1)

-- The written requirement, from behind the name on.
abbrev pub tail_of : Text → Text → Text
tail_of op v = b' ' ∷ (op ++ (b' ' ∷ v))

pub spaced : Text → Text
spaced v = b' ' ∷ v
