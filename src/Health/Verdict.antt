-- ===== src/Health/Verdict.antt =====
-- When Check (internal/health/health.go) finds no fault.
use nosaic_switch.Base.{
  ℕ, ◌+◌, ◌<◌, Bool, true, false, Option, none, some, List, [], ◌∷◌, nat_eq, Text, length, ◌≡◌, ◌↔◌,
  ◌⊎◌, refl, sym, ap, ◌∙◌, subst, arith,
}
use mathlib.Core.Path.{ap₂}
use nosaic_switch.Base.Exec.{Result, ok, err}
use nosaic_switch.SwitchApi.Types.{Port, PortStatus}
use nosaic_switch.SwitchApi.Errors.{Error}
use nosaic_switch.Health.{Report, Fault, no_status, count_if, tally, forwards, check}

abbrev Same : List Port → List Port → Type 0
Same xs ys = let a : Result Error (List Port) = ok xs in a ≡ ok ys

ok-inj : {xs ys : List Port} → Same xs ys → xs ≡ ys
ok-inj e = cc

-- How many of the statuses have the property.
abbrev pub number : (PortStatus → Bool) → List PortStatus → ℕ
number f [] = 0
number f (st ∷ sts) = count_if (f st) (number f sts)

module _ (port_status : Text → Result Error PortStatus) where
  -- The datapath reports on every port, with these statuses.
  abbrev pub Answered : List Port → List PortStatus → Type 0
  Answered [] [] = Unit
  Answered (p ∷ ps) (st ∷ sts) = (port_status p.name ≡ ok st) × Answered ps sts
  Answered [] (st ∷ sts) = ⊥
  Answered (p ∷ ps) [] = ⊥

  -- Counted on from `r`.
  abbrev counted : Report → List PortStatus → Report
  counted r sts = record r {
    admin_up = r.admin_up + number (λ st. st.admin_up) sts;
    oper_up = r.oper_up + number (λ st. st.oper_up) sts;
  }

  one_more : (b : Bool) (m n : ℕ) → count_if b m + n ≡ m + count_if b n
  one_more true m n = omega arith
  one_more false m n = refl

  tally-Answered :
      (ps : List Port) (sts : List PortStatus) (r : Report)
      → Answered ps sts
      → tally port_status ps r ≡ (counted r sts, none)
  unfolding tally
  tally-Answered [] [] r h =
      ap₂ (λ a o. (record r { admin_up = a; oper_up = o }, none)) (omega arith) (omega arith)
  tally-Answered [] (st ∷ sts) r h = elim h [ ]
  tally-Answered (p ∷ ps) [] r h = elim h [ ]
  tally-Answered (p ∷ ps) (st ∷ sts) r h =
      ap
        (λ o. elim o [
          | err e ↦ (r, some (no_status p.name e))
          | ok x ↦ tally port_status ps (record r {
            admin_up = count_if x.admin_up r.admin_up;
            oper_up = count_if x.oper_up r.oper_up;
          })
        ])
        h.0
      ∙ tally-Answered ps sts _ h.1
      ∙ ap₂ (λ a o. (record r { admin_up = a; oper_up = o }, none))
          (one_more st.admin_up r.admin_up (number (λ x. x.admin_up) sts))
          (one_more st.oper_up r.oper_up (number (λ x. x.oper_up) sts))

  tally_read :
      (ps : List Port) (r : Report)
      → (tally port_status ps r).1 ≡ none
      → (sts : List PortStatus) × Answered ps sts
  unfolding tally
  tally_read [] r e = ([], tt)
  tally_read (p ∷ ps) r e = reported (λ t g. tally_read ps t g) (port_status p.name) refl e
    where
      step : Result Error PortStatus → Report × Option Fault
      step o = elim o [
        | err x ↦ (r, some (no_status p.name x))
        | ok st ↦ tally port_status ps (record r {
          admin_up = count_if st.admin_up r.admin_up;
          oper_up = count_if st.oper_up r.oper_up;
        })
      ]

      reported :
          ((t : Report)
            → (tally port_status ps t).1 ≡ none
            → (sts : List PortStatus) × Answered ps sts)
          → (o : Result Error PortStatus) → port_status p.name ≡ o
          → (step o).1 ≡ none
          → (sts : List PortStatus) × Answered (p ∷ ps) sts
      reported rest (err x) k g = absurd (ground (arith, g))
      reported rest (ok st) k g = let (sts, a) = rest _ g in (st ∷ sts, (k, a))

  -- Links are asked for only where something is configured up.
  abbrev pub Forwarding : List PortStatus → Type 0
  Forwarding sts = (number (λ st. st.admin_up) sts ≡ 0) ⊎ (0 < number (λ st. st.oper_up) sts)

  forwards_iff :
      (n : ℕ) (sts : List PortStatus)
      → ((forwards port_status
            (counted (record { ports = n; admin_up = 0; oper_up = 0 }) sts, none)).1
          ≡ none)
        ↔ Forwarding sts
  forwards_iff n sts = (λ h. ground arith, λ h. ground arith)

  forwards-none : (x : Report × Option Fault) → (forwards port_status x).1 ≡ none → x.1 ≡ none
  forwards-none (r, none) h = refl
  forwards-none (r, some f) h = h

  -- Check finds no fault exactly where the datapath knows a port, reports on every port that it lists,
  -- and either no port is configured up or some port is up.
  pub check_iff :
      (ports : Result Error (List Port))
      → ((check port_status ports).1 ≡ none) ↔ (
          (p : Port) × (ps : List Port) × (sts : List PortStatus) × (ports ≡ ok (p ∷ ps))
          × Answered (p ∷ ps) sts
          × Forwarding sts)
  unfolding check
  check_iff (err e) =
      (λ h. absurd (ground (arith, h)), λ (p, ps, sts, k, a, f). absurd (ground (arith, k)))
  check_iff (ok []) =
      (λ h. absurd (ground (arith, h)), λ (p, ps, sts, k, a, f). absurd (ground (arith, k)))
  check_iff (ok (p ∷ ps)) = (
    λ h.
        let (sts, a) = tally_read (p ∷ ps) fresh (forwards-none _ h) in
        (
          p,
          ps,
          sts,
          refl,
          a,
          (forwards_iff (length (p ∷ ps)) sts).0 (
              subst (λ x. (forwards port_status x).1 ≡ none) (tally-Answered (p ∷ ps) sts fresh a)
                h),
        ),
    λ (q, qs, sts, k, a, f).
        let here : Answered (p ∷ ps) sts = subst (λ xs. Answered xs sts) (sym (ok-inj k)) a in
        subst (λ x. (forwards port_status x).1 ≡ none)
          (sym (tally-Answered (p ∷ ps) sts fresh here)) ((forwards_iff (length (p ∷ ps)) sts).1 f),
  )
    where
      fresh : Report
      fresh = record { ports = length (p ∷ ps); admin_up = 0; oper_up = 0 }
