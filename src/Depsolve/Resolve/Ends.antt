-- ===== src/Depsolve/Resolve/Ends.antt =====
-- Resolve (internal/depsolve/depsolve.go) ends.
use nosaic_switch.Base.{
  nat_eq, suc, List, [], ◌∷◌, Text, text_eq, length, ◌≡◌, ◌≢◌, refl, ◌∙◌, arith,
}
use nosaic_switch.Base.Map.{Map, insert}
use nosaic_switch.Base.Exec.{Result, ok, err}
use nosaic_switch.Depsolve.Require.{Pkg, Error, out_of_fuel}
use nosaic_switch.Depsolve.Resolve.{
  index, Done, check_conflicts, provide, provide_all, clash, clash_all, name_all, is_taken,
  visit_roots, resolve,
}
use nosaic_switch.Depsolve.Resolve.Index.{index-IsIndex}
use nosaic_switch.Depsolve.Resolve.Fuel.{visit-ends, visit_each-ends}

provide-ends :
    (name : Text) (vs : List Text) (m : Map Text Text) → provide name vs m ≢ err out_of_fuel
unfolding provide is_taken
provide-ends name [] m e = ground (arith, e)
provide-ends name (v ∷ vs) m e = ground (arith, e, provide-ends name vs (insert v name m))

provide_all-ends : (ps : List Pkg) (m : Map Text Text) → provide_all ps m ≢ err out_of_fuel
unfolding provide_all
provide_all-ends [] m e = ground (arith, e)
provide_all-ends (p ∷ ps) m e =
    go (provide_all-ends ps) (provide p.name p.provides m) (provide-ends p.name p.provides m) e
  where
    go :
        ((later : Map Text Text) → provide_all ps later ≢ err out_of_fuel)
        → (o : Result Error (Map Text Text)) → o ≢ err out_of_fuel
        → (elim o [ err x ↦ err x | ok later ↦ provide_all ps later ]) ≢ err out_of_fuel
    go rest (err x) n h = n (ground (arith, h))
    go rest (ok later) n h = rest later h

clash-ends : (name : Text) (cs : List Text) (m : Map Text Text) → clash name cs m ≢ err out_of_fuel
unfolding clash
clash-ends name [] m e = ground (arith, e)
clash-ends name (c ∷ cs) m e = ground (arith, e, clash-ends name cs m)

clash_all-ends : (ps : List Pkg) (m : Map Text Text) → clash_all ps m ≢ err out_of_fuel
unfolding clash_all
clash_all-ends [] m e = ground (arith, e)
clash_all-ends (p ∷ ps) m e =
    ground (arith, e, clash-ends p.name p.conflicts m, clash_all-ends ps m)

check_conflicts-ends : (ps : List Pkg) → check_conflicts ps ≢ err out_of_fuel
unfolding check_conflicts
check_conflicts-ends ps e =
    go (provide_all ps (name_all ps [])) (provide_all-ends ps (name_all ps [])) e
  where
    go :
        (o : Result Error (Map Text Text))
        → o ≢ err out_of_fuel
        → (elim o [ err x ↦ err x | ok present ↦ clash_all ps present ]) ≢ err out_of_fuel
    go (err x) n h = n (ground (arith, h))
    go (ok present) n h = clash_all-ends ps present h

index-ends : (ps : List Pkg) (m : Map Text Pkg) → index ps m ≢ err out_of_fuel
unfolding index
index-ends [] m e = ground (arith, e)
index-ends (p ∷ ps) m e = ground (arith, e, index-ends ps (insert p.name p m))

module _ (trim_space : Text → Text) (available : List Pkg) where
  visit_roots-ends :
      (m : Map Text Pkg) (roots : List Text)
      → index available [] ≡ ok m
      → visit_roots trim_space available m roots ≢ err out_of_fuel
  unfolding visit_roots
  visit_roots-ends m roots e =
      visit_each-ends trim_space (λ x. x) _ roots _ (λ x n. n)
        (λ r t.
          visit-ends trim_space available m (index-IsIndex available m e) (suc (length m)) [] [] r t
            (omega arith) tt)

  -- Resolve ends on every tree of packages and all roots, cycles included: its visits are never more
  -- deeply nested than there are packages.
  pub resolve-ends : (roots : List Text) → resolve trim_space available roots ≢ err out_of_fuel
  unfolding resolve
  resolve-ends roots e = indexed (index available []) refl e
    where
      checked :
          (s : Done) (o : Result Error (Unit {0}))
          → o ≢ err out_of_fuel
          → (elim o [ err x ↦ err x | ok _ ↦ ok s.order ]) ≢ err out_of_fuel
      checked s (err x) n h = n (ground (arith, h))
      checked s (ok _) n h = ground (arith, h)

      visited :
          (o : Result Error Done)
          → o ≢ err out_of_fuel
          → (elim o [
            | err x ↦ err x
            | ok s ↦ elim (check_conflicts s.order) [ err x ↦ err x | ok _ ↦ ok s.order ]
          ])
            ≢ err out_of_fuel
      visited (err x) n h = n (ground (arith, h))
      visited (ok s) n h = checked s (check_conflicts s.order) (check_conflicts-ends s.order) h

      indexed :
          (o : Result Error (Map Text Pkg))
          → index available [] ≡ o
          → (elim o [
            | err x ↦ err x
            | ok m ↦ elim (visit_roots trim_space available m roots) [
              | err x ↦ err x
              | ok s ↦ elim (check_conflicts s.order) [ err x ↦ err x | ok _ ↦ ok s.order ]
            ]
          ])
            ≢ err out_of_fuel
      indexed (err x) p h = index-ends available [] (p ∙ ground (arith, h))
      indexed (ok m) p h =
          visited (visit_roots trim_space available m roots) (visit_roots-ends m roots p) h
