-- ===== src/Depsolve/Resolve/Fuel.antt =====
-- The visits of Resolve (internal/depsolve/depsolve.go) end: a stack is never longer than the map.
use nosaic_switch.Base.{
  nat_eq, ℕ, zero, suc, ◌+◌, ◌<◌, ◌≤◌, Bool, true, false, ◌||◌, List, [], ◌∷◌, ◌++◌, ◌==◌, Text,
  text_eq, length, length-append, contains, ◌≡◌, ◌≢◌, refl, ap, ◌∙◌, inl, inr, arith, Bool-cases,
  ==_iff,
}
use nosaic_switch.Base.Map.{Map, lookup, delete, has, has-delete, length-delete}
use nosaic_switch.Base.Exec.{Result, ok, err}
use nosaic_switch.Base.Sort.{sort, text_le}
use nosaic_switch.Depsolve.Require.{
  Pkg, Requirement, Error, in_package, unmet, cycle, out_of_fuel, scan_operators, parse_requirement,
  satisfied, operators,
}
use nosaic_switch.Depsolve.Resolve.{package_of, resolve_name, Done, select, visit_each, visit}
use nosaic_switch.Depsolve.Resolve.Index.{IsIndex, resolve_name_lem}

-- Names of packages, none twice: what the stack of a visit is.
abbrev pub IsStack : Map Text Pkg → List Text → Type 0
IsStack m [] = Unit
IsStack m (n ∷ ns) = (has n m ≡ true) × (contains ns n ≡ false) × IsStack m ns

length-delete_there :
    (k : Text) (m : Map Text Pkg) → has k m ≡ true → length (delete k m) < length m
unfolding delete lookup
length-delete_there k [] h = absurd (ground (arith, h))
length-delete_there k ((j, v) ∷ m) h = elim (Bool-cases (j == k)) [
  | inl same ↦ rw same (omega (arith, length-delete k m))
  | inr other ↦ rw other (omega (arith, length-delete_there k m (ground (arith, h, other))))
]

IsStack-delete :
    (k : Text) (m : Map Text Pkg) (ns : List Text)
    → contains ns k ≡ false
    → IsStack m ns
    → IsStack (delete k m) ns
IsStack-delete k m [] c h = tt
IsStack-delete k m (n ∷ ns) c h = (
  ground (arith, has-delete k n m, h.0, c, ==_iff n k, ==_iff k n),
  h.1,
  IsStack-delete k m ns (ground (arith, c)) h.2,
)

-- A stack is no longer than the map.
length-IsStack : (ns : List Text) (m : Map Text Pkg) → IsStack m ns → length ns ≤ length m
length-IsStack [] m h = omega arith
length-IsStack (n ∷ ns) m h = omega (
  arith,
  length-delete_there n m h.0,
  length-IsStack ns (delete n m) (IsStack-delete n m ns h.1 h.2),
)

pub contains-append :
    (xs : List Text) (n k : Text) → contains (xs ++ (n ∷ [])) k ≡ (contains xs k || n == k)
contains-append [] n k = ground arith
contains-append (x ∷ xs) n k = ground (arith, contains-append xs n k)

IsStack-push :
    (m : Map Text Pkg) (ns : List Text) (n : Text)
    → has n m ≡ true
    → contains ns n ≡ false
    → IsStack m ns
    → IsStack m (ns ++ (n ∷ []))
IsStack-push m [] n h c s = (h, refl, tt)
IsStack-push m (k ∷ ns) n h c s = (
  s.0,
  ground (arith, contains-append ns n k, s.1, c, ==_iff n k, ==_iff k n),
  IsStack-push m ns n h (ground (arith, c)) s.2,
)

module _ (trim_space : Text → Text) where
  scan_operators-ends :
      (s : Text) (ops : List Text) → scan_operators trim_space s ops ≢ err out_of_fuel
  unfolding scan_operators
  scan_operators-ends s [] e = ground (arith, e)
  scan_operators-ends s (op ∷ ops) e = ground (arith, e, scan_operators-ends s ops)

  parse_requirement-ends : (s : Text) → parse_requirement trim_space s ≢ err out_of_fuel
  unfolding parse_requirement
  parse_requirement-ends s e = ground (arith, e, scan_operators-ends (trim_space s) operators)

  pub visit_each-ends :
      (wrap : Error → Error) (enter : Requirement → Done → Result Error Done) (ds : List Text)
      (s : Done)
      → ((e : Error) → e ≢ out_of_fuel → wrap e ≢ out_of_fuel)
      → ((r : Requirement) (t : Done) → enter r t ≢ err out_of_fuel)
      → visit_each trim_space wrap enter ds s ≢ err out_of_fuel
  unfolding visit_each
  visit_each-ends wrap enter [] s w f e = ground (arith, e)
  visit_each-ends wrap enter (d ∷ ds) s w f e =
      parsed (λ later. visit_each-ends wrap enter ds later w f) (parse_requirement trim_space d)
        refl e
    where
      entered :
          ((later : Done) → visit_each trim_space wrap enter ds later ≢ err out_of_fuel)
          → (o : Result Error Done) → o ≢ err out_of_fuel
          → (elim o [ err x ↦ err x | ok later ↦ visit_each trim_space wrap enter ds later ])
            ≢ err out_of_fuel
      entered rest (err x) n h = n h
      entered rest (ok later) n h = rest later h

      parsed :
          ((later : Done) → visit_each trim_space wrap enter ds later ≢ err out_of_fuel)
          → (o : Result Error Requirement) → parse_requirement trim_space d ≡ o
          → (elim o [
            | err x ↦ err (wrap x)
            | ok r ↦ elim (enter r s) [
              | err x ↦ err x
              | ok later ↦ visit_each trim_space wrap enter ds later
            ]
          ])
            ≢ err out_of_fuel
      parsed rest (err x) p h =
          w x (λ q. parse_requirement-ends d (p ∙ ap err q)) (ground (arith, h))
      parsed rest (ok r) p h = entered rest (enter r s) (f r s) h

  select-ends :
      (name : Text) (p : Pkg) (o : Result Error Done)
      → o ≢ err out_of_fuel
      → select name p o ≢ err out_of_fuel
  select-ends name p (err x) n h = n h
  select-ends name p (ok s) n h = ground (arith, h)

  module _ (available : List Pkg) (m : Map Text Pkg) (h : IsIndex available m) where
    pub visit-ends :
        (fuel : ℕ) (stack : List Text) (from : Text) (req : Requirement) (s : Done)
        → length m < fuel + length stack
        → IsStack m stack
        → visit trim_space available m fuel stack from req s ≢ err out_of_fuel
    unfolding visit
    visit-ends zero stack from req s l i e = absurd (omega (arith, l, length-IsStack stack m i))
    visit-ends (suc fuel) stack from req s l i e =
        resolved
          (λ name i' r t.
            visit-ends fuel (stack ++ (name ∷ [])) name r t
              (omega (arith, l, length-append stack (name ∷ []))) i')
          (resolve_name available m req from) refl e
      where
        entered : (name : Text) → Bool → Bool → Bool → Result Error Done
        entered name sat sel on =
            let p = package_of m name in
            elim sat [
              | false ↦ err (unmet from req name p.version)
              | true ↦ elim sel [
                | true ↦ ok s
                | false ↦ elim on [
                  | true ↦ err (cycle (stack ++ (name ∷ [])) name)
                  | false ↦ select name p (
                      visit_each trim_space (in_package name)
                        (visit trim_space available m fuel (stack ++ (name ∷ [])) name)
                        (sort text_le p.depends) s)
                ]
              ]
            ]

        entered-ends :
            ((name : Text)
              → IsStack m (stack ++ (name ∷ []))
              → (r : Requirement) (t : Done)
              → visit trim_space available m fuel (stack ++ (name ∷ [])) name r t ≢ err out_of_fuel)
            → (name : Text) (sat sel on : Bool) → has name m ≡ true
            → contains stack name ≡ on
            → entered name sat sel on ≢ err out_of_fuel
        entered-ends rest name false sel on p c k = ground (arith, k)
        entered-ends rest name true true on p c k = ground (arith, k)
        entered-ends rest name true false true p c k = ground (arith, k)
        entered-ends rest name true false false p c k =
            select-ends name (package_of m name) _
              (visit_each-ends (in_package name) _ (sort text_le (package_of m name).depends) s
                (λ x n q. ground (arith, q)) (rest name (IsStack-push m stack name p c i)))
              k

        resolved :
            ((name : Text)
              → IsStack m (stack ++ (name ∷ []))
              → (r : Requirement) (t : Done)
              → visit trim_space available m fuel (stack ++ (name ∷ [])) name r t ≢ err out_of_fuel)
            → (o : Result Error Text) → resolve_name available m req from ≡ o
            → (elim o [
              | err x ↦ err x
              | ok name ↦
                  entered name
                    (satisfied trim_space req (package_of m name).version)
                    (contains s.selected name)
                    (contains stack name)
            ])
              ≢ err out_of_fuel
        resolved rest (err x) p k = ground (arith, k, p)
        resolved rest (ok name) p k =
            let (q, _, found, _, _, _) = resolve_name_lem available m req from name h p in
            entered-ends rest name _ _ _ (ground (arith, found)) refl k
