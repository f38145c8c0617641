-- ===== src/Depsolve/Resolve/Visits.antt =====
-- A visit of Resolve (internal/depsolve/depsolve.go) selects what its requirement needs, in order.
use nosaic_switch.Base.{
  nat_eq, ℕ, zero, suc, Bool, true, false, ◌||◌, List, [], ◌∷◌, ◌++◌, ◌==◌, Text, text_eq, contains,
  ◌≡◌, refl, sym, ap, ◌∙◌, subst, inl, inr, arith, Bool-cases, ==_iff, ==_refl, some,
}
use nosaic_switch.Base.Map.{Map, lookup}
use nosaic_switch.Base.Members.{In, In-left, In-right, In-split, In-sort, sort-In}
use nosaic_switch.Base.Exec.{Result, ok, err}
use nosaic_switch.Base.Sort.{sort, text_le}
use nosaic_switch.Depsolve.Require.{Pkg, Requirement, Error, in_package, unmet, cycle, satisfied}
use nosaic_switch.Depsolve.Resolve.{package_of, resolve_name, Done, select, visit_each, visit}
use nosaic_switch.Depsolve.Resolve.Index.{Answers, IsIndex, resolve_name_lem}
use nosaic_switch.Depsolve.Resolve.Fuel.{contains-append}
use nosaic_switch.Depsolve.Resolve.Order.{
  names, names-append, In-names, IsMet, Met, Needed, dependency, Needed-In, IsOrder-snoc, Good,
  Step, Step-none, visit_each_lem,
}

or_comm : (a b : Bool) → (a || b) ≡ (b || a)
or_comm a b = ground arith

some-inj : {p q : Pkg} → some p ≡ some q → p ≡ q
some-inj e = cc

module _ (trim_space : Text → Text) (available : List Pkg) (roots : List Text) where
  abbrev IsGood : Done → Type 0
  IsGood = Good trim_space available roots

  -- The package is appended behind the visits of its dependencies.
  select_lem :
      (stack : List Text) (name : Text) (p : Pkg) (s t s' : Done)
      → p.name ≡ name
      → contains s.selected name ≡ false
      → contains stack name ≡ false
      → Needed trim_space available roots p
      → Step trim_space available roots (stack ++ (name ∷ [])) s t
      → ((d : Text) → In d p.depends → Met trim_space available t.order d)
      → select name p (ok t) ≡ ok s'
      → Step trim_space available roots stack s s' × In p s'.order
  select_lem stack name p s t s' named fresh off need step mets e =
      subst (λ (x : Done). Step trim_space available roots stack s x × In p x.order)
        {x = record { selected = name ∷ t.selected; order = t.order ++ (p ∷ []) }}
        (ground (arith, e))
        (
          record {
            good = record {
              ordered = IsOrder-snoc trim_space available [] t.order p g.ordered mets absent;
              marked = marks;
              needed = λ q i. elim (In-split q t.order (p ∷ []) i) [
                | inl before ↦ g.needed q before
                | inr (inl same) ↦ subst (Needed trim_space available roots) (sym same) need
                | inr (inr none_left) ↦ elim none_left [ ]
              ];
            };
            grows = λ q i. In-left q t.order (p ∷ []) (step.grows q i);
            off_stack = stays;
          },
          In-right p t.order (p ∷ []) (inl refl),
        )
    where
      g : Good trim_space available roots t
      g = step.good

      absent : contains (names t.order) p.name ≡ false
      absent =
          subst (λ n. contains (names t.order) n ≡ false) (sym named)
            (sym (g.marked name)
              ∙ step.off_stack name (contains-append stack name name ∙ ground (arith, ==_refl name))
              ∙ fresh)

      marks : (n : Text) → contains (name ∷ t.selected) n ≡ contains (names (t.order ++ (p ∷ []))) n
      marks n =
          ap (λ b. name == n || b) (g.marked n)
          ∙ or_comm (name == n) (contains (names t.order) n)
          ∙ ap (λ k. contains (names t.order) n || k == n) (sym named)
          ∙ sym (contains-append (names t.order) p.name n)
          ∙ ap (λ ns. contains ns n) (sym (names-append t.order p))

      stays :
          (n : Text)
          → contains stack n ≡ true
          → contains (name ∷ t.selected) n ≡ contains s.selected n
      stays n h =
          ap (λ b. b || contains t.selected n) (other n h)
          ∙ step.off_stack n (contains-append stack name n ∙ ap (λ b. b || name == n) h)
        where
          other : (n : Text) → contains stack n ≡ true → (name == n) ≡ false
          other n h = elim (Bool-cases (name == n)) [
            | inr e ↦ e
            | inl e ↦ absurd (
                let same : name ≡ n = (==_iff name n).0 e in
                let gone : contains stack n ≡ false =
                  subst (λ k. contains stack k ≡ false) same off in
                ground (arith, gone, h))
          ]

  selected_lem :
      (stack : List Text) (s s' : Done)
      → (name : Text) (p : Pkg) (o : Result Error Done)
      → ((t : Done)
          → o ≡ ok t
          → Step trim_space available roots (stack ++ (name ∷ [])) s t
            × ((d : Text) → In d (sort text_le p.depends) → Met trim_space available t.order d))
      → p.name ≡ name
      → contains s.selected name ≡ false
      → contains stack name ≡ false
      → Needed trim_space available roots p
      → select name p o ≡ ok s'
      → Step trim_space available roots stack s s' × In p s'.order
  selected_lem stack s s' name p (err x) f named fresh off n q = absurd (ground (arith, q))
  selected_lem stack s s' name p (ok t) f named fresh off n q =
      let (step, mets) = f t refl in
      select_lem stack name p s t s' named fresh off n step
        (λ d i. mets d (In-sort text_le d p.depends i)) q

  module _ (m : Map Text Pkg) (h : IsIndex available m) where
    -- What is under a name that is selected already.
    already :
        (s : Done) (name : Text) (p : Pkg)
        → IsGood s
        → lookup name m ≡ some p
        → contains s.selected name ≡ true
        → In p s.order
    already s name p g found sel =
        let (q, i, e) = In-names s.order name (sym (g.marked name) ∙ sel) in
        let there : lookup name m ≡ some q =
          subst (λ n. lookup n m ≡ some q) e
            (h.0 q (Needed-In trim_space available roots q (g.needed q i))) in
        let same : q ≡ p = some-inj (sym there ∙ found) in subst (λ (x : Pkg). In x s.order) same i

    -- What a visit of a requirement does behind resolveName, given what the visits inside do.
    module _ (fuel : ℕ) (stack : List Text) (from : Text) (req : Requirement) (s s' : Done) where
      abbrev entered : (name : Text) → Pkg → Bool → Bool → Bool → Result Error Done
      entered name p sat sel on = elim sat [
        | false ↦ err (unmet from req name p.version)
        | true ↦ elim sel [
          | true ↦ ok s
          | false ↦ elim on [
            | true ↦ err (cycle (stack ++ (name ∷ [])) name)
            | false ↦ select name p (
                visit_each trim_space (in_package name)
                  (visit trim_space available m fuel (stack ++ (name ∷ [])) name)
                  (sort text_le p.depends) s)
          ]
        ]
      ]

      abbrev Inner : Type 0
      Inner =
          (name : Text) (r : Requirement) (t t' : Done)
          → IsGood t
          → ((p : Pkg)
              → In p available
              → Answers available r p
              → Needed trim_space available roots p)
          → visit trim_space available m fuel (stack ++ (name ∷ [])) name r t ≡ ok t'
          → Step trim_space available roots (stack ++ (name ∷ [])) t t'
            × IsMet trim_space available t'.order r

      entered_lem :
          IsGood s
          → ((p : Pkg)
              → In p available
              → Answers available req p
              → Needed trim_space available roots p)
          → Inner
          → (name : Text) (p : Pkg) (sat sel on : Bool) → lookup name m ≡ some p
          → p.name ≡ name
          → In p available
          → Answers available req p
          → satisfied trim_space req p.version ≡ sat
          → contains s.selected name ≡ sel
          → contains stack name ≡ on
          → entered name p sat sel on ≡ ok s'
          → Step trim_space available roots stack s s' × IsMet trim_space available s'.order req
      entered_lem g need rest name p false sel on l named i a v fresh off q =
          absurd (ground (arith, q))
      entered_lem g need rest name p true true on l named i a v fresh off q =
          subst
            (λ (x : Done).
              Step trim_space available roots stack s x × IsMet trim_space available x.order req)
            (ground (arith, q))
            (Step-none trim_space available roots stack s g, (p, already s name p g l fresh, a, v))
      entered_lem g need rest name p true false true l named i a v fresh off q =
          absurd (ground (arith, q))
      entered_lem g need rest name p true false false l named i a v fresh off q =
          let (step, there) =
            selected_lem stack s s' name p _
              (λ t k.
                visit_each_lem trim_space available roots (in_package name) _ (stack ++ (name ∷ []))
                  (sort text_le p.depends) s t
                  (λ d r u u' j b good w.
                    rest name r u u' good
                      (λ x y z.
                        dependency p d r x (need p i a) (sort-In text_le d p.depends j) b y z)
                      w)
                  g k)
              named fresh off (need p i a) q in
          (step, (p, there, a, v))

    pub visit_lem :
        (fuel : ℕ) (stack : List Text) (from : Text) (req : Requirement) (s s' : Done)
        → IsGood s
        → ((p : Pkg)
            → In p available
            → Answers available req p
            → Needed trim_space available roots p)
        → visit trim_space available m fuel stack from req s ≡ ok s'
        → Step trim_space available roots stack s s' × IsMet trim_space available s'.order req
    unfolding visit
    visit_lem zero stack from req s s' g need e = absurd (ground (arith, e))
    visit_lem (suc fuel) stack from req s s' g need e =
        resolved (λ name r t t' k n q. visit_lem fuel (stack ++ (name ∷ [])) name r t t' k n q)
          (resolve_name available m req from) refl e
      where
        resolved :
            Inner fuel stack from req s s'
            → (o : Result Error Text) → resolve_name available m req from ≡ o
            → (elim o [
              | err x ↦ err x
              | ok name ↦
                  entered fuel stack from req s s' name
                    (package_of m name)
                    (satisfied trim_space req (package_of m name).version)
                    (contains s.selected name)
                    (contains stack name)
            ])
              ≡ ok s'
            → Step trim_space available roots stack s s' × IsMet trim_space available s'.order req
        resolved rest (err x) k q = absurd (ground (arith, q))
        resolved rest (ok name) k q =
            let (p, at, found, named, i, a) = resolve_name_lem available m req from name h k in
            entered_lem fuel stack from req s s' g need rest name p _ _ _ found named i a refl refl
              refl
              (subst
                (λ (x : Pkg).
                  entered fuel stack from req s s' name x (satisfied trim_space req x.version)
                    (contains s.selected name) (contains stack name)
                  ≡ ok s')
                at q)
