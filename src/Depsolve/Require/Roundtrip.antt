-- ===== src/Depsolve/Require/Roundtrip.antt =====
-- ParseRequirement reads what Requirement.String writes (internal/depsolve/depsolve.go).
use nosaic_switch.Base.{
  All, ℕ_discrete, nat_eq, true, false, List, [], ◌∷◌, ◌++◌, if◌then◌else◌, ◌==◌, Text, text,
  text_eq, ◌≡◌, refl, sym, ap, ◌∙◌, subst, inl, inr, arith, ==_iff, Bool-cases,
}
use mathlib.Core.Path.{ap₂}
use nosaic_switch.Base.Members.{In}
use nosaic_switch.Base.White.{is_blank}
use nosaic_switch.Base.Exec.{ok, err}
use nosaic_switch.Depsolve.Require.{
  Requirement, empty_dependency, render, operators, scan_operators, parse_requirement,
}
use nosaic_switch.Depsolve.Require.Print.{
  IsTight, ends_in_mark, starts_in_mark, TrimLaws, IsPlain, IsWritten, tail_of,
}
use nosaic_switch.Depsolve.Require.Scan.{
  tight_blank, scan_operators_none, scan_operators_lem, at_least_found, at_most_found, equals_found,
  differs_found, above_found, below_found, at_most_first, equals_first, differs_first, above_first,
  below_first,
}

ends-append : (s t : Text) → ends_in_mark t ≡ true → ends_in_mark (s ++ t) ≡ true
ends-append [] t h = h
ends-append (c ∷ []) [] h = absurd (ground (arith, h))
ends-append (c ∷ []) (d ∷ t) h = h
ends-append (c ∷ d ∷ s) t h = ends-append (d ∷ s) t h

starts-append : (s t : Text) → starts_in_mark s ≡ true → starts_in_mark (s ++ t) ≡ true
starts-append [] t h = absurd (ground (arith, h))
starts-append (c ∷ s) t h = h

tail_of_ends : (op v : Text) → ends_in_mark v ≡ true → ends_in_mark (tail_of op v) ≡ true
tail_of_ends op v h =
    ends-append (b' ' ∷ []) (op ++ (b' ' ∷ v))
      (ends-append op (b' ' ∷ v) (ends-append (b' ' ∷ []) v h))

render_plain : (r : Requirement) → r.op ≡ [] → render r ≡ r.name
unfolding render
render_plain r e =
    let t : (r.op == []) ≡ true = (==_iff r.op []).1 e in
    ap (λ b. if b then r.name else r.name ++ tail_of r.op r.version) t

render_op : (r : Requirement) → is_blank r.op ≡ false → render r ≡ r.name ++ tail_of r.op r.version
unfolding render
render_op r h = elim (Bool-cases (r.op == [])) [
  | inl e ↦
      absurd
        (let b : is_blank r.op ≡ true = ap is_blank ((==_iff r.op []).0 e) in ground (arith, b, h))
  | inr e ↦ ap (λ b. if b then r.name else r.name ++ tail_of r.op r.version) e
]

All-In : {A : Type 0} (P : A → Type 0) (a : A) (xs : List A) → All P xs → In a xs → P a
All-In P a [] h i = elim i [ ]
All-In P a (x ∷ xs) h (inl e) = subst P (sym e) h.0
All-In P a (x ∷ xs) h (inr i) = All-In P a xs h.1 i

op_nonblank : (op : Text) → In op operators → is_blank op ≡ false
op_nonblank op i =
    All-In (λ o. is_blank o ≡ false) op operators (refl, (refl, (refl, (refl, (refl, (refl, tt))))))
      i

module _ (trim_space : Text → Text) (laws : TrimLaws trim_space) where
  parse_tight :
      (s : Text)
      → IsTight s
      → parse_requirement trim_space s ≡ scan_operators trim_space s operators
  unfolding parse_requirement
  parse_tight s t =
      ap (λ x. if is_blank x then err empty_dependency else scan_operators trim_space x operators)
        (laws.tight s t)
      ∙ ap (λ b. if b then err empty_dependency else scan_operators trim_space s operators)
          (tight_blank s t)

  abbrev Reads : Text → Text → Text → Type 0
  Reads name v op =
      scan_operators trim_space (name ++ tail_of op v) operators
      ≡ ok (record { name = name; op = op; version = v })

  scan_written :
      (name op v : Text)
      → IsTight name
      → IsPlain name
      → IsTight v
      → IsPlain v
      → In op operators
      → scan_operators trim_space (name ++ tail_of op v) operators
        ≡ ok (record { name = name; op = op; version = v })
  unfolding ℕ_discrete
  scan_written name op v n p t q (inl e) = subst (Reads name v) (sym e) (
      scan_operators_lem trim_space laws name v (text ">=") ([])
        (text "<=" ∷ text "==" ∷ text "!=" ∷ text ">" ∷ text "<" ∷ []) n p t tt refl
        (at_least_found v q))
  scan_written name op v n p t q (inr (inl e)) = subst (Reads name v) (sym e) (
      scan_operators_lem trim_space laws name v (text "<=") (text ">=" ∷ [])
        (text "==" ∷ text "!=" ∷ text ">" ∷ text "<" ∷ []) n p t (at_most_first v q) refl
        (at_most_found v q))
  scan_written name op v n p t q (inr (inr (inl e))) = subst (Reads name v) (sym e) (
      scan_operators_lem trim_space laws name v (text "==") (text ">=" ∷ text "<=" ∷ [])
        (text "!=" ∷ text ">" ∷ text "<" ∷ []) n p t (equals_first v q) refl (equals_found v q))
  scan_written name op v n p t q (inr (inr (inr (inl e)))) = subst (Reads name v) (sym e) (
      scan_operators_lem trim_space laws name v (text "!=") (text ">=" ∷ text "<=" ∷ text "==" ∷ [])
        (text ">" ∷ text "<" ∷ []) n p t (differs_first v q) refl (differs_found v q))
  scan_written name op v n p t q (inr (inr (inr (inr (inl e))))) = subst (Reads name v) (sym e) (
      scan_operators_lem trim_space laws name v (text ">")
        (text ">=" ∷ text "<=" ∷ text "==" ∷ text "!=" ∷ []) (text "<" ∷ []) n p t (above_first v q)
        refl (above_found v q))
  scan_written name op v n p t q (inr (inr (inr (inr (inr (inl e)))))) =
      subst (Reads name v) (sym e) (
        scan_operators_lem trim_space laws name v (text "<")
          (text ">=" ∷ text "<=" ∷ text "==" ∷ text "!=" ∷ text ">" ∷ []) ([]) n p t
          (below_first v q) refl (below_found v q))
  scan_written name op v n p t q (inr (inr (inr (inr (inr (inr none_left)))))) = elim none_left [ ]

  -- Where `trim_space` takes white space away at both ends and nothing else, ParseRequirement gives back
  -- from the text that String writes a requirement of this form. Its name is not empty, starts and ends in
  -- a byte below 128 that is no white space, and has no space, no tab and none of the bytes < > = ! in it.
  -- It has no operator and an empty version; or one of the six operators, and a version that is not empty,
  -- starts and ends in a byte below 128 that is no white space, and has none of the bytes < > = ! in it.
  pub parse_requirement-render :
      (r : Requirement) → IsWritten r → parse_requirement trim_space (render r) ≡ ok r
  unfolding ℕ_discrete
  parse_requirement-render r (n, p, h, inl (no_op, no_version)) =
      ap (parse_requirement trim_space) (render_plain r no_op)
      ∙ parse_tight r.name n
      ∙ scan_operators_none trim_space r.name operators p h
          (refl, (refl, (refl, (refl, (refl, (refl, tt))))))
      ∙ ap₂ (λ o v. ok (record { name = r.name; op = o; version = v })) (sym no_op) (sym no_version)
  parse_requirement-render r (n, p, h, inr (i, t, q)) =
      ap (parse_requirement trim_space) (render_op r (op_nonblank r.op i))
      ∙ parse_tight (r.name ++ tail_of r.op r.version)
          (starts-append r.name _ n.0, ends-append r.name _ (tail_of_ends r.op r.version t.1))
      ∙ scan_written r.name r.op r.version n p t q i
