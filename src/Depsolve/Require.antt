-- ===== src/Depsolve/Require.antt =====
-- The requirements of packages (internal/depsolve/depsolve.go): their parsing, their text, and the
-- versions that satisfy them. strings.TrimSpace is an argument.
pub mod Print
pub mod Scan
pub mod Roundtrip
use nosaic_switch.Base.{
  nat_eq, Bool, true, false, ◌||◌, Option, none, some, List, [], ◌∷◌, ◌++◌, if◌then◌else◌, ◌==◌,
  Text, text, text_eq,
}
use nosaic_switch.Base.White.{is_blank}
use nosaic_switch.Base.Exec.{Result, ok, err}
use nosaic_switch.Vercmp.{less, equal, greater, compare}

pub record Pkg : Type 0 where
  pub name : Text
  pub version : Text
  pub provides : List Text
  pub conflicts : List Text
  pub depends : List Text

abbrev pub no_pkg : Pkg
no_pkg = record { name = []; version = []; provides = []; conflicts = []; depends = [] }

-- `op` is "" where any version will do.
pub record Requirement : Type 0 where
  pub name : Text
  pub op : Text
  pub version : Text

-- Errors by what their text shows. `from` is "" for the image.
pub data Error : Type 0 where
  empty_dependency : Error
  missing_name not_a_name : Text → Error
  missing_version : Text → Text → Error
  in_package : Text → Error → Error
  duplicate : Text → Text → Text → Error
  unprovided : Text → Text → Error
  ambiguous : Text → Text → List Text → Error
  unmet : Text → Requirement → Text → Text → Error
  cycle : List Text → Text → Error
  both_provide : Text → Text → Text → Error
  conflict : Text → Text → Text → Error
  out_of_fuel : Error

-- Requirement.String
unfoldable pub render : Requirement → Text
render r = if r.op == [] then r.name else r.name ++ (b' ' ∷ (r.op ++ (b' ' ∷ r.version)))

abbrev pub operators : List Text
operators = text ">=" ∷ text "<=" ∷ text "==" ∷ text "!=" ∷ text ">" ∷ text "<" ∷ []

-- strings.HasPrefix, and what follows the prefix.
unfoldable pub strip : Text → Text → Option Text
strip [] s = some s
strip (p ∷ ps) [] = none
strip (p ∷ ps) (c ∷ s) = let rest = strip ps s in if p == c then rest else none

-- strings.Index: what stands before the first place of `op`, and what behind.
unfoldable pub split_at : Text → Text → Option (Text × Text)
split_at op [] = elim (strip op []) [ none ↦ none | some rest ↦ some ([], rest) ]
split_at op (c ∷ s) =
    let later = split_at op s in
    elim (strip op (c ∷ s)) [
      | some rest ↦ some ([], rest)
      | none ↦ elim later [ none ↦ none | some (before, behind) ↦ some (c ∷ before, behind) ]
    ]

-- strings.ContainsAny(s, " \t")
abbrev pub has_space : Text → Bool
has_space [] = false
has_space (c ∷ s) = c == b' ' || c == 9 || has_space s

module _ (trim_space : Text → Text) where
  -- The name and the version around an operator.
  abbrev pub around : Text → Text → Text → Text → Result Error Requirement
  around s op before behind =
      let name = trim_space before in
      let ver = trim_space behind in
      if is_blank name
      then err (missing_name s)
      else if is_blank ver
      then err (missing_version s op)
      else ok (record { name = name; op = op; version = ver })

  -- The loop over the operators. One at the very start is passed over.
  unfoldable pub scan_operators : Text → List Text → Result Error Requirement
  scan_operators s [] =
      if has_space s then err (not_a_name s) else ok (record { name = s; op = []; version = [] })
  scan_operators s (op ∷ ops) =
      let rest = scan_operators s ops in
      elim (split_at op s) [
        | none ↦ rest
        | some (before, behind) ↦ if is_blank before then rest else around s op before behind
      ]

  -- ParseRequirement
  unfoldable pub parse_requirement : Text → Result Error Requirement
  unfolding scan_operators
  parse_requirement s =
      let t = trim_space s in
      if is_blank t then err empty_dependency else scan_operators t operators

  -- Requirement.Satisfied
  unfoldable pub satisfied : Requirement → Text → Bool
  satisfied r v =
      let c = compare trim_space v r.version in
      if r.op == []
      then true
      else if r.op == text ">="
      then elim c [ less ↦ false | equal ↦ true | greater ↦ true ]
      else if r.op == text ">"
      then elim c [ less ↦ false | equal ↦ false | greater ↦ true ]
      else if r.op == text "<="
      then elim c [ less ↦ true | equal ↦ true | greater ↦ false ]
      else if r.op == text "<"
      then elim c [ less ↦ true | equal ↦ false | greater ↦ false ]
      else if r.op == text "=="
      then elim c [ less ↦ false | equal ↦ true | greater ↦ false ]
      else if r.op == text "!="
      then elim c [ less ↦ true | equal ↦ false | greater ↦ true ]
      else false
