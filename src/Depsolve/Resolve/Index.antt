-- ===== src/Depsolve/Resolve/Index.antt =====
-- What the first loop of Resolve and resolveName (internal/depsolve/depsolve.go) find.
use nosaic_switch.Base.{
  nat_eq, true, none, some, List, [], ◌∷◌, if◌then◌else◌, ◌==◌, Text, text_eq, contains, ◌≡◌, ◌≢◌,
  refl, sym, ap, ◌∙◌, subst, ◌⊎◌, inl, inr, arith, Bool-cases, Option-cases, ==_iff, ==_refl,
}
use nosaic_switch.Base.Map.{Map, lookup, insert, lookup-insert}
use nosaic_switch.Base.Every.{Every, Every-insert, Every-empty}
use nosaic_switch.Base.Members.{In, In-split}
use nosaic_switch.Base.Exec.{ok}
use nosaic_switch.Depsolve.Require.{Pkg, Requirement}
use nosaic_switch.Depsolve.Resolve.{
  index, occurrences, providers_of, package_of, the_provider, resolve_name,
}

-- The package is what the requirement stands for: it has the name, or no package has it and this one
-- alone provides it.
abbrev pub Answers : List Pkg → Requirement → Pkg → Type 0
Answers available r p =
    (p.name ≡ r.name)
    ⊎ ((providers_of available r.name ≡ p.name ∷ [])
        × ((q : Pkg) → In q available → q.name ≢ r.name))

-- Every package is under its own name, and nothing else.
abbrev pub IsIndex : List Pkg → Map Text Pkg → Type 0
IsIndex available m =
    ((p : Pkg) → In p available → lookup p.name m ≡ some p)
    × Every (λ name p. (p.name ≡ name) × In p available) m

-- A name that is bound stays bound to what it is.
index-keeps :
    (ps : List Pkg) (m m' : Map Text Pkg) (name : Text) (q : Pkg)
    → index ps m ≡ ok m'
    → lookup name m ≡ some q
    → lookup name m' ≡ some q
unfolding index
index-keeps [] m m' name q e h = subst (λ x. lookup name x ≡ some q) (ground (arith, e)) h
index-keeps (p ∷ ps) m m' name q e h = elim (Option-cases (lookup p.name m)) [
  | inr (prev, there) ↦ absurd (ground (arith, e, there))
  | inl free ↦
      index-keeps ps (insert p.name p m) m' name q (ground (arith, e, free))
        (elim (Bool-cases (p.name == name)) [
          | inl same ↦ absurd (
              let eq : p.name ≡ name = (==_iff p.name name).0 same in
              let gone : lookup name m ≡ none = subst (λ n. lookup n m ≡ none) eq free in
              ground (arith, gone, h))
          | inr other ↦
              lookup-insert p.name name p m
              ∙ ap (λ b. if b then some p else lookup name m) other
              ∙ h
        ])
]

index-names :
    (ps : List Pkg) (m m' : Map Text Pkg)
    → index ps m ≡ ok m'
    → (p : Pkg) → In p ps
    → lookup p.name m' ≡ some p
unfolding index
index-names [] m m' e p h = elim h [ ]
index-names (q ∷ ps) m m' e p h = elim (Option-cases (lookup q.name m)) [
  | inr (prev, there) ↦ absurd (ground (arith, e, there))
  | inl free ↦
      let rest : index ps (insert q.name q m) ≡ ok m' = ground (arith, e, free) in
      elim h [
        | inl same ↦
            subst (λ (x : Pkg). lookup x.name m' ≡ some x) (sym same)
              (index-keeps ps (insert q.name q m) m' q.name q rest (
                lookup-insert q.name q.name q m
                ∙ ap (λ b. if b then some q else lookup q.name m) (==_refl q.name)))
        | inr later ↦ index-names ps (insert q.name q m) m' rest p later
      ]
]

index-Every :
    (P : Text → Pkg → Type 0) (ps : List Pkg) (m m' : Map Text Pkg)
    → index ps m ≡ ok m'
    → ((p : Pkg) → In p ps → P p.name p)
    → Every P m
    → Every P m'
unfolding index
index-Every P [] m m' e f h = subst (Every P) (ground (arith, e)) h
index-Every P (q ∷ ps) m m' e f h = elim (Option-cases (lookup q.name m)) [
  | inr (prev, there) ↦ absurd (ground (arith, e, there))
  | inl free ↦
      index-Every P ps (insert q.name q m) m' (ground (arith, e, free)) (λ p i. f p (inr i))
        (Every-insert q.name q m h (f q (inl refl)))
]

pub index-IsIndex : (ps : List Pkg) (m : Map Text Pkg) → index ps [] ≡ ok m → IsIndex ps m
index-IsIndex ps m e = (
  index-names ps [] m e,
  index-Every (λ name p. (p.name ≡ name) × In p ps) ps [] m e (λ p i. (refl, i)) (Every-empty _),
)

occurrences-In :
    (v name n : Text) (ws : List Text)
    → In n (occurrences v name ws)
    → (n ≡ name) × (contains ws v ≡ true)
unfolding occurrences
occurrences-In v name n [] h = elim h [ ]
occurrences-In v name n (w ∷ ws) h = elim (Bool-cases (w == v)) [
  | inl same ↦
      elim (subst (λ b. In n (if b then name ∷ occurrences v name ws else occurrences v name ws))
        same h) [
          | inl e ↦ (e, ground (arith, same))
          | inr later ↦ let (e, c) = occurrences-In v name n ws later in (e, ground (arith, same))
        ]
  | inr other ↦
      let (e, c) = occurrences-In v name n ws (
        subst (λ b. In n (if b then name ∷ occurrences v name ws else occurrences v name ws)) other
          h) in
      (e, ground (arith, c))
]

providers_of-In :
    (ps : List Pkg) (v n : Text)
    → In n (providers_of ps v)
    → (p : Pkg) × In p ps × (n ≡ p.name) × (contains p.provides v ≡ true)
unfolding providers_of
providers_of-In [] v n h = elim h [ ]
providers_of-In (p ∷ ps) v n h =
    elim (In-split n (occurrences v p.name p.provides) (providers_of ps v) h) [
      | inl here ↦ let (e, c) = occurrences-In v p.name n p.provides here in (p, inl refl, e, c)
      | inr later ↦ let (q, i, e, c) = providers_of-In ps v n later in (q, inr i, e, c)
    ]

the_provider_lem :
    (name from n : Text) (ns : List Text) → the_provider name from ns ≡ ok n → ns ≡ n ∷ []
the_provider_lem name from n [] e = absurd (ground (arith, e))
the_provider_lem name from n (p ∷ []) e = ground (arith, e)
the_provider_lem name from n (p ∷ q ∷ ps) e = absurd (ground (arith, e))

-- resolveName finds a package that is there, under its name.
pub resolve_name_lem :
    (available : List Pkg) (m : Map Text Pkg) (req : Requirement) (from name : Text)
    → IsIndex available m
    → resolve_name available m req from ≡ ok name
    → (p : Pkg) × (package_of m name ≡ p)
      × (lookup name m ≡ some p)
      × (p.name ≡ name)
      × In p available
      × Answers available req p
unfolding resolve_name package_of
resolve_name_lem available m req from name h e = elim (Option-cases (lookup req.name m)) [
  | inr (p, there) ↦
      let same : req.name ≡ name = ground (arith, e, there) in
      let found : lookup name m ≡ some p = subst (λ n. lookup n m ≡ some p) same there in
      let (named, i) = h.1 req.name p there in
      (p, ground (arith, found), found, named ∙ same, i, inl named)
  | inl gone ↦
      let one : the_provider req.name from (providers_of available req.name) ≡ ok name =
        ground (arith, e, gone) in
      let alone : providers_of available req.name ≡ name ∷ [] =
        the_provider_lem req.name from name (providers_of available req.name) one in
      let (p, i, named, provided) =
        providers_of-In available req.name name (subst (In name) (sym alone) (inl refl)) in
      let found : lookup name m ≡ some p = subst (λ n. lookup n m ≡ some p) (sym named) (h.0 p i) in
      (
        p,
        ground (arith, found),
        found,
        sym named,
        i,
        inr (
          alone ∙ ap (λ n. n ∷ []) named,
          λ q j same. ground (arith, gone, subst (λ n. lookup n m ≡ some q) same (h.0 q j)),
        ),
      )
]
