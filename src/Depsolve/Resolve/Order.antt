-- ===== src/Depsolve/Resolve/Order.antt =====
-- What Resolve (internal/depsolve/depsolve.go) returns: the packages that the roots need, in order.
use nosaic_switch.Base.{
  nat_eq, true, false, List, [], ◌∷◌, ◌++◌, ◌==◌, Text, text_eq, contains, ◌≡◌, refl, sym, ap, ◌∙◌,
  subst, inl, inr, arith, Bool-cases, ==_iff,
}
use mathlib.Core.List.{append-nil, append_assoc}
use nosaic_switch.Base.Members.{In}
use nosaic_switch.Base.Exec.{Result, ok, err}
use nosaic_switch.Depsolve.Require.{Pkg, Requirement, Error, parse_requirement, satisfied}
use nosaic_switch.Depsolve.Resolve.{Done, visit_each}
use nosaic_switch.Depsolve.Resolve.Index.{Answers}

abbrev pub names : List Pkg → List Text
names [] = []
names (p ∷ ps) = p.name ∷ names ps

pub names-append : (xs : List Pkg) (p : Pkg) → names (xs ++ (p ∷ [])) ≡ names xs ++ (p.name ∷ [])
names-append [] p = refl
names-append (x ∷ xs) p = ap (λ ns. x.name ∷ ns) (names-append xs p)

pub In-names :
    (ps : List Pkg) (n : Text) → contains (names ps) n ≡ true → (p : Pkg) × In p ps × (p.name ≡ n)
In-names [] n h = absurd (ground (arith, h))
In-names (p ∷ ps) n h = elim (Bool-cases (p.name == n)) [
  | inl same ↦ (p, inl refl, (==_iff p.name n).0 same)
  | inr other ↦ let (q, i, e) = In-names ps n (ground (arith, h, other)) in (q, inr i, e)
]

module _ (trim_space : Text → Text) (available : List Pkg) where
  -- A package of the list is what the requirement stands for, in a version that satisfies it.
  abbrev pub IsMet : List Pkg → Requirement → Type 0
  IsMet ps r =
      (q : Pkg) × In q ps × Answers available r q × (satisfied trim_space r q.version ≡ true)

  -- The same for a written requirement.
  abbrev pub Met : List Pkg → Text → Type 0
  Met ps d = (r : Requirement) × (parse_requirement trim_space d ≡ ok r) × IsMet ps r

  -- Every package is behind all that it depends on, and no name stands twice.
  abbrev pub IsOrder : List Pkg → List Pkg → Type 0
  IsOrder before [] = Unit
  IsOrder before (p ∷ ps) =
      ((d : Text) → In d p.depends → Met before d)
      × (contains (names before) p.name ≡ false)
      × IsOrder (before ++ (p ∷ [])) ps

  -- What the roots need: what answers a root, and what answers a dependency of a needed package.
  pub data Needed (roots : List Text) : Pkg → Type 0 where
    root :
        (d : Text) (r : Requirement) (p : Pkg)
        → In d roots
        → parse_requirement trim_space d ≡ ok r
        → In p available
        → Answers available r p
        → Needed roots p
    dependency :
        (q : Pkg) (d : Text) (r : Requirement) (p : Pkg)
        → Needed roots q
        → In d q.depends
        → parse_requirement trim_space d ≡ ok r
        → In p available
        → Answers available r p
        → Needed roots p

  pub Needed-In : (roots : List Text) (p : Pkg) → Needed roots p → In p available
  Needed-In roots p (root _ _ _ _ _ i _) = i
  Needed-In roots p (dependency _ _ _ _ _ _ _ i _) = i

  IsMet-mono :
      (xs ys : List Pkg) (r : Requirement)
      → ((p : Pkg) → In p xs → In p ys)
      → IsMet xs r
      → IsMet ys r
  IsMet-mono xs ys r f (q, i, a, s) = (q, f q i, a, s)

  pub IsOrder-snoc :
      (before ps : List Pkg) (p : Pkg)
      → IsOrder before ps
      → ((d : Text) → In d p.depends → Met (before ++ ps) d)
      → contains (names (before ++ ps)) p.name ≡ false
      → IsOrder before (ps ++ (p ∷ []))
  IsOrder-snoc before [] p h f c = (
    λ d i. subst (λ xs. Met xs d) (append-nil before) (f d i),
    subst (λ xs. contains (names xs) p.name ≡ false) (append-nil before) c,
    tt,
  )
  IsOrder-snoc before (q ∷ ps) p h f c = (
    h.0,
    h.1,
    IsOrder-snoc (before ++ (q ∷ [])) ps p h.2
        (λ d i. subst (λ xs. Met xs d) (sym (append_assoc before (q ∷ []) ps)) (f d i))
        (subst (λ xs. contains (names xs) p.name ≡ false) (sym (append_assoc before (q ∷ []) ps))
          c),
  )

  module _ (roots : List Text) where
    -- What holds between visits.
    pub record Good (s : Done) : Type 0 where
      pub ordered : IsOrder [] s.order
      pub marked : (n : Text) → contains s.selected n ≡ contains (names s.order) n
      pub needed : (p : Pkg) → In p s.order → Needed roots p

    -- What a visit does under a stack: it only adds, and nothing that is on the stack.
    pub record Step (stack : List Text) (s s' : Done) : Type 0 where
      pub good : Good s'
      pub grows : (p : Pkg) → In p s.order → In p s'.order
      pub off_stack :
          (n : Text) → contains stack n ≡ true → contains s'.selected n ≡ contains s.selected n

    pub Step-none : (stack : List Text) (s : Done) → Good s → Step stack s s
    Step-none stack s g = record { good = g; grows = λ p i. i; off_stack = λ n c. refl }

    Step-trans :
        (stack : List Text) (a b c : Done) → Step stack a b → Step stack b c → Step stack a c
    Step-trans stack a b c f g = record {
      good = g.good;
      grows = λ p i. g.grows p (f.grows p i);
      off_stack = λ n h. g.off_stack n h ∙ f.off_stack n h;
    }

    -- The loops over written requirements, where each visit is a step that meets its requirement.
    pub visit_each_lem :
        (wrap : Error → Error) (enter : Requirement → Done → Result Error Done)
        (stack ds : List Text) (s s' : Done)
        → ((d : Text) (r : Requirement) (t t' : Done)
            → In d ds
            → parse_requirement trim_space d ≡ ok r
            → Good t
            → enter r t ≡ ok t'
            → Step stack t t' × IsMet t'.order r)
        → Good s
        → visit_each trim_space wrap enter ds s ≡ ok s'
        → Step stack s s' × ((d : Text) → In d ds → Met s'.order d)
    unfolding visit_each
    visit_each_lem wrap enter stack [] s s' f g e =
        (subst (Step stack s) (ground (arith, e)) (Step-none stack s g), λ d i. elim i [ ])
    visit_each_lem wrap enter stack (d ∷ ds) s s' f g e =
        parsed
          (λ t h q. visit_each_lem wrap enter stack ds t s' (λ k r a b i. f k r a b (inr i)) h q)
          (parse_requirement trim_space d) refl e
      where
        entered :
            ((t : Done)
              → Good t
              → visit_each trim_space wrap enter ds t ≡ ok s'
              → Step stack t s' × ((k : Text) → In k ds → Met s'.order k))
            → (r : Requirement) (o : Result Error Done) → parse_requirement trim_space d ≡ ok r
            → enter r s ≡ o
            → (elim o [ err x ↦ err x | ok t ↦ visit_each trim_space wrap enter ds t ]) ≡ ok s'
            → Step stack s s' × ((k : Text) → In k (d ∷ ds) → Met s'.order k)
        entered rest r (err x) p q h = absurd (ground (arith, h))
        entered rest r (ok t) p q h =
            let (one, met) = f d r s t (inl refl) p g q in
            let (others, mets) = rest t one.good h in
            (
              Step-trans stack s t s' one others,
              λ k i. elim i [
                | inl same ↦
                    subst (Met s'.order) (sym same)
                      (r, p, IsMet-mono t.order s'.order r others.grows met)
                | inr later ↦ mets k later
              ],
            )

        parsed :
            ((t : Done)
              → Good t
              → visit_each trim_space wrap enter ds t ≡ ok s'
              → Step stack t s' × ((k : Text) → In k ds → Met s'.order k))
            → (o : Result Error Requirement) → parse_requirement trim_space d ≡ o
            → (elim o [
              | err x ↦ err (wrap x)
              | ok r ↦ elim (enter r s) [
                | err x ↦ err x
                | ok t ↦ visit_each trim_space wrap enter ds t
              ]
            ])
              ≡ ok s'
            → Step stack s s' × ((k : Text) → In k (d ∷ ds) → Met s'.order k)
        parsed rest (err x) p h = absurd (ground (arith, h))
        parsed rest (ok r) p h = entered rest r (enter r s) p refl h
