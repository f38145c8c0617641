-- ===== src/Depsolve/Require/Scan.antt =====
-- The loop over the operators (ParseRequirement of internal/depsolve/depsolve.go) on what String
-- writes.
use nosaic_switch.Base.{
  nat_eq, false, none, some, List, [], ◌∷◌, ◌++◌, if◌then◌else◌, Text, text, text_eq, All, ◌≡◌,
  refl, sym, ap, ◌∙◌, subst, arith, ℕ_discrete,
}
use mathlib.Core.Path.{ap₂}
use nosaic_switch.Base.White.{is_blank}
use nosaic_switch.Base.Exec.{ok, err}
use nosaic_switch.Depsolve.Require.{
  missing_name, missing_version, strip, split_at, has_space, around, scan_operators,
}
use nosaic_switch.Depsolve.Require.Print.{
  IsTight, IsPlain, behind, IsOp, split_at-plain, split_at-none, tail_of, TrimLaws,
}

-- The operator is one, and is not in what follows the name.
abbrev pub Missed : Text → Text → Text → Type 0
Missed op v o = IsOp o × (split_at o (tail_of op v) ≡ none)

-- Each operator is found in its place, and none that is tried before it.
module _ (v : Text) (p : IsPlain v) where
  pub at_least_found : split_at (text ">=") (tail_of (text ">=") v) ≡ some (text " ", b' ' ∷ v)
  unfolding split_at strip ℕ_discrete
  at_least_found = refl

  pub at_most_found : split_at (text "<=") (tail_of (text "<=") v) ≡ some (text " ", b' ' ∷ v)
  unfolding split_at strip ℕ_discrete
  at_most_found = refl

  pub at_most_first : All (Missed (text "<=") v) (text ">=" ∷ [])
  unfolding split_at strip ℕ_discrete
  at_most_first = ((refl, rw (split_at-none (text ">=") v refl p) refl), tt)

  pub equals_found : split_at (text "==") (tail_of (text "==") v) ≡ some (text " ", b' ' ∷ v)
  unfolding split_at strip ℕ_discrete
  equals_found = refl

  pub equals_first : All (Missed (text "==") v) (text ">=" ∷ text "<=" ∷ [])
  unfolding split_at strip ℕ_discrete
  equals_first = (
    (refl, rw (split_at-none (text ">=") v refl p) refl),
    ((refl, rw (split_at-none (text "<=") v refl p) refl), tt),
  )

  pub differs_found : split_at (text "!=") (tail_of (text "!=") v) ≡ some (text " ", b' ' ∷ v)
  unfolding split_at strip ℕ_discrete
  differs_found = refl

  pub differs_first : All (Missed (text "!=") v) (text ">=" ∷ text "<=" ∷ text "==" ∷ [])
  unfolding split_at strip ℕ_discrete
  differs_first = (
    (refl, rw (split_at-none (text ">=") v refl p) refl),
    (
      (refl, rw (split_at-none (text "<=") v refl p) refl),
      ((refl, rw (split_at-none (text "==") v refl p) refl), tt),
    ),
  )

  pub above_found : split_at (text ">") (tail_of (text ">") v) ≡ some (text " ", b' ' ∷ v)
  unfolding split_at strip ℕ_discrete
  above_found = refl

  pub above_first : All (Missed (text ">") v) (text ">=" ∷ text "<=" ∷ text "==" ∷ text "!=" ∷ [])
  unfolding split_at strip ℕ_discrete
  above_first = (
    (refl, rw (split_at-none (text ">=") v refl p) refl),
    (
      (refl, rw (split_at-none (text "<=") v refl p) refl),
      (
        (refl, rw (split_at-none (text "==") v refl p) refl),
        ((refl, rw (split_at-none (text "!=") v refl p) refl), tt),
      ),
    ),
  )

  pub below_found : split_at (text "<") (tail_of (text "<") v) ≡ some (text " ", b' ' ∷ v)
  unfolding split_at strip ℕ_discrete
  below_found = refl

  pub below_first :
      All (Missed (text "<") v) (text ">=" ∷ text "<=" ∷ text "==" ∷ text "!=" ∷ text ">" ∷ [])
  unfolding split_at strip ℕ_discrete
  below_first = (
    (refl, rw (split_at-none (text ">=") v refl p) refl),
    (
      (refl, rw (split_at-none (text "<=") v refl p) refl),
      (
        (refl, rw (split_at-none (text "==") v refl p) refl),
        (
          (refl, rw (split_at-none (text "!=") v refl p) refl),
          ((refl, rw (split_at-none (text ">") v refl p) refl), tt),
        ),
      ),
    ),
  )

pub tight_blank : (s : Text) → IsTight s → is_blank s ≡ false
tight_blank [] t = absurd (ground (arith, t.0))
tight_blank (c ∷ s) t = refl

blank-append : (xs ys : Text) → is_blank xs ≡ false → is_blank (xs ++ ys) ≡ false
blank-append [] ys h = absurd (ground (arith, h))
blank-append (x ∷ xs) ys h = refl

module _ (trim_space : Text → Text) where
  scan_skip :
      (s op : Text) (ops : List Text)
      → split_at op s ≡ none
      → scan_operators trim_space s (op ∷ ops) ≡ scan_operators trim_space s ops
  unfolding scan_operators
  scan_skip s op ops e = ground (arith, e)

  scan_hit :
      (s op before after : Text) (ops : List Text)
      → split_at op s ≡ some (before, after)
      → is_blank before ≡ false
      → scan_operators trim_space s (op ∷ ops) ≡ around trim_space s op before after
  unfolding scan_operators
  scan_hit s op before after ops e h =
      subst
        (λ o.
          (elim o [
            | none ↦ scan_operators trim_space s ops
            | some x ↦
                if is_blank x.0
                then scan_operators trim_space s ops
                else around trim_space s op x.0 x.1
          ])
          ≡ around trim_space s op before after)
        (sym e)
        (ap
          (λ b. if b then scan_operators trim_space s ops else around trim_space s op before after)
          h)

  around_lem :
      (s op before after name v : Text)
      → trim_space before ≡ name
      → trim_space after ≡ v
      → IsTight name
      → IsTight v
      → around trim_space s op before after ≡ ok (record { name = name; op = op; version = v })
  around_lem s op before after name v e f n t =
      ap₂
        (λ x y.
          if is_blank x
          then err (missing_name s)
          else if is_blank y
          then err (missing_version s op)
          else ok (record { name = x; op = op; version = y }))
        e f
      ∙ rw (tight_blank name n, tight_blank v t) refl

  module _ (laws : TrimLaws trim_space) where
    -- The loop over the operators comes to the one that is there, and takes what stands around it.
    pub scan_operators_lem :
        (name v op : Text) (before after : List Text)
        → IsTight name
        → IsPlain name
        → IsTight v
        → All (Missed op v) before
        → IsOp op
        → split_at op (tail_of op v) ≡ some (text " ", b' ' ∷ v)
        → scan_operators trim_space (name ++ tail_of op v) (before ++ (op ∷ after))
          ≡ ok (record { name = name; op = op; version = v })
    scan_operators_lem name v op [] after n p t m o h =
        scan_hit (name ++ tail_of op v) op (name ++ text " ") (b' ' ∷ v) after
          (split_at-plain op name (tail_of op v) o p ∙ ap (behind name) h)
          (blank-append name (text " ") (tight_blank name n))
        ∙ around_lem (name ++ tail_of op v) op (name ++ text " ") (b' ' ∷ v) name v
            (laws.space_after name n) (laws.space_before v t) n t
    scan_operators_lem name v op (q ∷ before) after n p t m o h =
        scan_skip (name ++ tail_of op v) q (before ++ (op ∷ after))
          (split_at-plain q name (tail_of op v) m.0.0 p ∙ ap (behind name) m.0.1)
        ∙ scan_operators_lem name v op before after n p t m.1 o h

  pub scan_operators_none :
      (name : Text) (ops : List Text)
      → IsPlain name
      → has_space name ≡ false
      → All IsOp ops
      → scan_operators trim_space name ops ≡ ok (record { name = name; op = []; version = [] })
  scan_operators_none name [] p h o = unfold scan_operators in ground (arith, h)
  scan_operators_none name (q ∷ ops) p h o =
      scan_skip name q ops (split_at-none q name o.0 p) ∙ scan_operators_none name ops p h o.1
