-- ===== src/Depsolve/Resolve/Closure.antt =====
-- Resolve (internal/depsolve/depsolve.go) selects what the roots need, in order.
use nosaic_switch.Base.{nat_eq, suc, List, [], Text, text_eq, ◌≡◌, refl, subst, arith, length}
use nosaic_switch.Base.Map.{Map}
use nosaic_switch.Base.Members.{In}
use nosaic_switch.Base.Exec.{Result, ok, err}
use nosaic_switch.Depsolve.Require.{Pkg, Error}
use nosaic_switch.Depsolve.Resolve.{index, Done, check_conflicts, visit_roots, resolve}
use nosaic_switch.Depsolve.Resolve.Index.{index-IsIndex}
use nosaic_switch.Depsolve.Resolve.Order.{Met, IsOrder, Needed, root, Good, visit_each_lem}
use nosaic_switch.Depsolve.Resolve.Visits.{visit_lem}

module _ (trim_space : Text → Text) (available : List Pkg) (roots : List Text) where
  abbrev IsGood : Done → Type 0
  IsGood = Good trim_space available roots

  visit_roots_lem :
      (m : Map Text Pkg) (s : Done)
      → index available [] ≡ ok m
      → visit_roots trim_space available m roots ≡ ok s
      → IsGood s × ((d : Text) → In d roots → Met trim_space available s.order d)
  unfolding visit_roots
  visit_roots_lem m s e v =
      let h = index-IsIndex available m e in
      let (step, mets) =
        visit_each_lem trim_space available roots (λ x. x) _ [] roots
          (record { selected = []; order = [] }) s
          (λ d r t t' i p good w.
            visit_lem trim_space available roots m h (suc (length m)) [] [] r t t' good
              (λ x y z. root d r x i p y z) w)
          (record { ordered = tt; marked = λ n. refl; needed = λ x i. elim i [ ] }) v in
      (step.good, mets)

  -- Where Resolve succeeds, every package that it returns stands behind packages that meet each of its
  -- dependencies in a version that satisfies it, and no name stands twice; every package is one that the
  -- roots need; and every root is met. So the result is what the roots need, with nothing left out and
  -- nothing besides, in an order in which it can be installed.
  pub resolve-IsOrder :
      (order : List Pkg)
      → resolve trim_space available roots ≡ ok order
      → IsOrder trim_space available [] order
        × ((p : Pkg) → In p order → Needed trim_space available roots p)
        × ((d : Text) → In d roots → Met trim_space available order d)
  unfolding resolve
  resolve-IsOrder order e = indexed (index available []) refl e
    where
      Wanted : Type 0
      Wanted =
          IsOrder trim_space available [] order
          × ((p : Pkg) → In p order → Needed trim_space available roots p)
          × ((d : Text) → In d roots → Met trim_space available order d)

      checked :
          (s : Done) (o : Result Error (Unit {0}))
          → IsGood s
          → ((d : Text) → In d roots → Met trim_space available s.order d)
          → (elim o [ err x ↦ err x | ok _ ↦ ok s.order ]) ≡ ok order
          → Wanted
      checked s (err x) g mets q = absurd (ground (arith, q))
      checked s (ok _) g mets q =
          subst
            (λ ps.
              IsOrder trim_space available [] ps
              × ((p : Pkg) → In p ps → Needed trim_space available roots p)
              × ((d : Text) → In d roots → Met trim_space available ps d))
            (ground (arith, q)) (g.ordered, g.needed, mets)

      visited :
          (m : Map Text Pkg) (o : Result Error Done)
          → index available [] ≡ ok m
          → visit_roots trim_space available m roots ≡ o
          → (elim o [
            | err x ↦ err x
            | ok s ↦ elim (check_conflicts s.order) [ err x ↦ err x | ok _ ↦ ok s.order ]
          ])
            ≡ ok order
          → Wanted
      visited m (err x) p k q = absurd (ground (arith, q))
      visited m (ok s) p k q =
          let (g, mets) = visit_roots_lem m s p k in checked s (check_conflicts s.order) g mets q

      indexed :
          (o : Result Error (Map Text Pkg))
          → index available [] ≡ o
          → (elim o [
            | err x ↦ err x
            | ok m ↦ elim (visit_roots trim_space available m roots) [
              | err x ↦ err x
              | ok s ↦ elim (check_conflicts s.order) [ err x ↦ err x | ok _ ↦ ok s.order ]
            ]
          ])
            ≡ ok order
          → Wanted
      indexed (err x) p q = absurd (ground (arith, q))
      indexed (ok m) p q = visited m (visit_roots trim_space available m roots) p refl q
