-- ===== src/Depsolve/Resolve.antt =====
-- Resolve of internal/depsolve/depsolve.go: the depth-first visit, and the conflicts afterwards.
-- The map from virtual names to providers is computed from the packages at each reading. `visiting` is
-- true for the names on `stack` only, and both are as before when a visit returns, so a visit takes the
-- stack as an argument and gives back what it selected.
pub mod Index
pub mod Fuel
pub mod Ends
pub mod Order
pub mod Visits
pub mod Closure
use nosaic_switch.Base.{
  nat_eq, ℕ, zero, suc, true, false, not, ◌&&◌, Option, none, some, List, [], ◌∷◌, ◌++◌,
  if◌then◌else◌, ◌==◌, Text, text_eq, length, contains,
}
use nosaic_switch.Base.Map.{Map, lookup, insert}
use nosaic_switch.Base.Exec.{Result, ok, err, Check, nil_error}
use nosaic_switch.Base.Sort.{sort, text_le}
use nosaic_switch.Depsolve.Require.{
  Pkg, no_pkg, Requirement, Error, in_package, duplicate, unprovided, ambiguous, unmet, cycle,
  both_provide, conflict, out_of_fuel, parse_requirement, satisfied,
}

-- The first loop: packages by name.
unfoldable pub index : List Pkg → Map Text Pkg → Result Error (Map Text Pkg)
index [] by_name = ok by_name
index (p ∷ ps) by_name = elim (lookup p.name by_name) [
  | some prev ↦ err (duplicate p.name prev.version p.version)
  | none ↦ index ps (insert p.name p by_name)
]

-- `name`, once for each place where `v` stands.
unfoldable pub occurrences : Text → Text → List Text → List Text
occurrences v name [] = []
occurrences v name (w ∷ ws) =
    let rest = occurrences v name ws in if w == v then name ∷ rest else rest

-- providers[v]
unfoldable pub providers_of : List Pkg → Text → List Text
unfolding occurrences
providers_of [] v = []
providers_of (p ∷ ps) v = occurrences v p.name p.provides ++ providers_of ps v

-- byName[name], which is the zero value where there is none.
unfoldable pub package_of : Map Text Pkg → Text → Pkg
package_of by_name name = elim (lookup name by_name) [ none ↦ no_pkg | some p ↦ p ]

abbrev pub the_provider : Text → Text → List Text → Result Error Text
the_provider name from [] = err (unprovided from name)
the_provider name from (p ∷ []) = ok p
the_provider name from (p ∷ q ∷ ps) = err (ambiguous from name (sort text_le (p ∷ q ∷ ps)))

-- resolveName
unfoldable pub resolve_name : List Pkg → Map Text Pkg → Requirement → Text → Result Error Text
resolve_name available by_name req from = elim (lookup req.name by_name) [
  | some p ↦ ok req.name
  | none ↦ the_provider req.name from (providers_of available req.name)
]

-- `selected` and `order`
pub record Done : Type 0 where
  pub selected : List Text
  pub order : List Pkg

-- What stands behind the loop over a package's dependencies.
abbrev pub select : Text → Pkg → Result Error Done → Result Error Done
select name p (err e) = err e
select name p (ok s) = ok (record { selected = name ∷ s.selected; order = s.order ++ (p ∷ []) })

module _ (trim_space : Text → Text) where
  -- Both loops that parse and visit: over the roots, and over the dependencies of a package, where
  -- `wrap` names the package in a parse error.
  unfoldable pub visit_each :
      (Error → Error)
      → (Requirement → Done → Result Error Done)
      → List Text
      → Done
      → Result Error Done
  visit_each wrap enter [] s = ok s
  visit_each wrap enter (d ∷ ds) s = elim (parse_requirement trim_space d) [
    | err e ↦ err (wrap e)
    | ok req ↦ elim (enter req s) [ err e ↦ err e | ok later ↦ visit_each wrap enter ds later ]
  ]

  module _ (available : List Pkg) (by_name : Map Text Pkg) where
    unfoldable pub visit : ℕ → List Text → Text → Requirement → Done → Result Error Done
    unfolding visit_each resolve_name package_of
    visit zero stack from req s = err out_of_fuel
    visit (suc fuel) stack from req s = elim (resolve_name available by_name req from) [
      | err e ↦ err e
      | ok name ↦
          let p = package_of by_name name in
          elim (satisfied trim_space req p.version) [
            | false ↦ err (unmet from req name p.version)
            | true ↦ elim (contains s.selected name) [
              | true ↦ ok s
              | false ↦ elim (contains stack name) [
                | true ↦ err (cycle (stack ++ (name ∷ [])) name)
                | false ↦ select name p (
                    visit_each (in_package name) (visit fuel (stack ++ (name ∷ [])) name)
                      (sort text_le p.depends) s)
              ]
            ]
          ]
    ]

-- The first loop of checkConflicts: what is present, by its name.
unfoldable pub name_all : List Pkg → Map Text Text → Map Text Text
name_all [] present = present
name_all (p ∷ ps) present = name_all ps (insert p.name p.name present)

-- present[v] is held by another package that provides it.
unfoldable pub is_taken : Text → Text → Map Text Text → Option Text
is_taken name v present = elim (lookup v present) [
  | none ↦ none
  | some prev ↦ if not (prev == name) && not (prev == v) then some prev else none
]

unfoldable pub provide : Text → List Text → Map Text Text → Result Error (Map Text Text)
unfolding is_taken
provide name [] present = ok present
provide name (v ∷ vs) present = elim (is_taken name v present) [
  | some prev ↦ err (both_provide prev name v)
  | none ↦ provide name vs (insert v name present)
]

unfoldable pub provide_all : List Pkg → Map Text Text → Result Error (Map Text Text)
unfolding provide
provide_all [] present = ok present
provide_all (p ∷ ps) present = elim (provide p.name p.provides present) [
  | err e ↦ err e
  | ok later ↦ provide_all ps later
]

unfoldable pub clash : Text → List Text → Map Text Text → Check Error
clash name [] present = nil_error
clash name (c ∷ cs) present = elim (lookup c present) [
  | none ↦ clash name cs present
  | some holder ↦ elim (holder == name) [
    | true ↦ clash name cs present
    | false ↦ err (conflict name c holder)
  ]
]

unfoldable pub clash_all : List Pkg → Map Text Text → Check Error
unfolding clash
clash_all [] present = nil_error
clash_all (p ∷ ps) present = elim (clash p.name p.conflicts present) [
  | err e ↦ err e
  | ok _ ↦ clash_all ps present
]

unfoldable pub check_conflicts : List Pkg → Check Error
unfolding name_all provide_all clash_all
check_conflicts order = elim (provide_all order (name_all order [])) [
  | err e ↦ err e
  | ok present ↦ clash_all order present
]

-- The stack holds different names of packages, so a visit for each package and one more is enough fuel.
module _ (trim_space : Text → Text) (available : List Pkg) where
  -- The loop over the roots.
  unfoldable pub visit_roots : Map Text Pkg → List Text → Result Error Done
  unfolding visit_each visit
  visit_roots by_name roots =
      visit_each trim_space (λ e. e)
        (visit trim_space available by_name (suc (length by_name)) [] []) roots
        (record { selected = []; order = [] })

  unfoldable pub resolve : List Text → Result Error (List Pkg)
  unfolding index visit_roots check_conflicts
  resolve roots = elim (index available []) [
    | err e ↦ err e
    | ok by_name ↦ elim (visit_roots by_name roots) [
      | err e ↦ err e
      | ok s ↦ elim (check_conflicts s.order) [ err e ↦ err e | ok _ ↦ ok s.order ]
    ]
  ]
