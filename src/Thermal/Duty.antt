-- ===== src/Thermal/Duty.antt =====
-- The duties that the cooling loop commands (Run of internal/thermal/thermal.go).
use nosaic_switch.Base.{
  ℕ, zero, suc, ◌+◌, ◌-◌, ◌*◌, ◌≤◌, ◌<◌, ◌≡◌, refl, ap, ◌∙◌, true, false, Bool, List, [], ◌∷◌, ◌++◌,
  ltb, if◌then◌else◌, arith, ◌⊎◌, length, All, none, some, Text, Option,
}
use nosaic_switch.Base.Int.{ℤ, pos, negsuc, int_eq, ◌+ℤ◌, ◌≤ℤ◌, ◌<ℤ◌}
use nosaic_switch.Thermal.{
  Curve, with_defaults, unset_to, target, Round, hottest, Event, fan_percent, health_lamps,
  lamps_unmanaged, log_curve, log_cycle, log_lamps, log_stopping, slew, lamp_events, panel,
  next_duty, cycles, stopping, run,
}
use nosaic_switch.Thermal.Slope.{IsFloor, Between, wrap64-pos}
use nosaic_switch.Thermal.Target.{IsNarrow, with_defaults-Narrow, target-Between, target_cool}

-- The duties commanded, in order.
unfoldable pub duties : List Event → List ℤ
duties [] = []
duties (fan_percent d ∷ es) = d ∷ duties es
duties (health_lamps _ _ ∷ es) = duties es
duties (lamps_unmanaged ∷ es) = duties es
duties (log_curve _ _ _ _ ∷ es) = duties es
duties (log_cycle _ _ _ ∷ es) = duties es
duties (log_lamps _ ∷ es) = duties es
duties (log_stopping ∷ es) = duties es

duties-append : (xs ys : List Event) → duties (xs ++ ys) ≡ duties xs ++ duties ys
unfolding duties
duties-append [] ys = refl
duties-append (fan_percent d ∷ xs) ys = ap (λ ds. d ∷ ds) (duties-append xs ys)
duties-append (health_lamps _ _ ∷ xs) ys = duties-append xs ys
duties-append (lamps_unmanaged ∷ xs) ys = duties-append xs ys
duties-append (log_curve _ _ _ _ ∷ xs) ys = duties-append xs ys
duties-append (log_cycle _ _ _ ∷ xs) ys = duties-append xs ys
duties-append (log_lamps _ ∷ xs) ys = duties-append xs ys
duties-append (log_stopping ∷ xs) ys = duties-append xs ys

-- The panel commands no fan.
duties-panel :
    (lamps : Bool) (hot max_c : ℤ) (last : Text) (fault : Option Text)
    → duties (panel lamps hot max_c last fault).0 ≡ []
unfolding duties lamp_events
duties-panel false hot max_c last fault = refl
duties-panel true hot max_c last none = refl
duties-panel true hot max_c last (some fault) = ground arith

duties-stopping : (lamps : Bool) → duties (stopping lamps) ≡ pos 100 ∷ []
unfolding duties stopping
duties-stopping true = refl
duties-stopping false = refl

-- The rounds that Run goes through.
abbrev pub served : Bool → List Round → List Round
served once [] = []
served true (r ∷ rs) = r ∷ []
served false (r ∷ rs) = r ∷ rs

served_all : (rs : List Round) → served false rs ≡ rs
served_all [] = refl
served_all (r ∷ rs) = refl

module _ (curve : Curve) (floor : ℤ) where
  -- One duty for each round, each from the one before.
  unfoldable pub trace : ℤ → List Round → List ℤ
  trace cur [] = []
  trace cur (r ∷ rs) = let d = next_duty curve floor cur r in d ∷ trace d rs

  -- What a duty commanded after `cur` must be: no less than the curve asks for, a duty that the board
  -- has, no further below `cur` than the slew allows, and above `cur` only where the curve asks.
  pub record IsCooling (cur : ℤ) (r : Round) (d : ℤ) : Type 0 where
    pub enough : target (with_defaults curve) (hottest r) floor ≤ℤ d
    pub within : Between floor d (pos 100)
    pub slow : cur ≤ℤ d +ℤ (with_defaults curve).slew_down_max
    pub no_more : (d ≤ℤ cur) ⊎ (d ≡ target (with_defaults curve) (hottest r) floor)

  -- Round by round, from `cur` on.
  abbrev pub Cooled : ℤ → List Round → List ℤ → Type 0
  Cooled cur [] [] = Unit
  Cooled cur (r ∷ rs) (d ∷ ds) = IsCooling cur r d × Cooled d rs ds
  Cooled cur [] (d ∷ ds) = ⊥
  Cooled cur (r ∷ rs) [] = ⊥

  duties-cycles :
      (lamps once : Bool) (cur : ℤ) (last : Text) (rs : List Round)
      → duties (cycles curve floor lamps once cur last rs) ≡ trace cur (served once rs)
  unfolding duties cycles trace
  duties-cycles lamps once cur last [] = refl
  duties-cycles lamps true cur last (r ∷ rs) =
      ap (λ ds. next_duty curve floor cur r ∷ ds)
        (duties-append (panel lamps (hottest r) (with_defaults curve).max_c last r.lamp_fault).0 []
          ∙ ap (λ ds. ds ++ []) (duties-panel lamps _ _ last r.lamp_fault))
  duties-cycles lamps false cur last (r ∷ rs) =
      let shown = panel lamps (hottest r) (with_defaults curve).max_c last r.lamp_fault in
      let next = next_duty curve floor cur r in
      ap (λ ds. next ∷ ds)
        (duties-append shown.0 (cycles curve floor lamps false next shown.1 rs)
          ∙ ap (λ ds. ds ++ duties (cycles curve floor lamps false next shown.1 rs))
              (duties-panel lamps _ _ last r.lamp_fault)
          ∙ duties-cycles lamps false next shown.1 rs
          ∙ ap (trace next) (served_all rs))

  pub duties-run :
      (lamps once : Bool) (r : Round) (rs : List Round)
      → duties (run curve floor lamps once false r rs).1
        ≡ pos 100 ∷ (trace (pos 100) (served once (r ∷ rs)) ++ (pos 100 ∷ []))
  unfolding run duties
  duties-run lamps once r rs =
      ap (λ ds. pos 100 ∷ ds)
        (duties-append (cycles curve floor lamps once (pos 100) [] (r ∷ rs)) (stopping lamps)
          ∙ ap (λ ds. ds ++ duties (stopping lamps))
              (duties-cycles lamps once (pos 100) [] (r ∷ rs))
          ∙ ap (λ ds. trace (pos 100) (served once (r ∷ rs)) ++ ds) (duties-stopping lamps))

-- Of percentages nothing wraps.
plain_slew : ℕ → ℕ → ℕ → ℤ
plain_slew m cur want =
    if ltb cur want then pos want else if ltb m (cur - want) then pos (cur - m) else pos want

slew-plain :
    (m cur want : ℕ)
    → cur ≤ 100
    → want ≤ 100
    → slew (pos m) (pos cur) (pos want) ≡ plain_slew m cur want
unfolding slew plain_slew
slew-plain m cur want h k =
    ground (arith, wrap64-pos (cur - want) (omega arith), wrap64-pos (cur - m) (omega arith))

slew-lem :
    (m cur want low : ℕ)
    → 0 < m
    → low ≤ want
    → want ≤ 100
    → cur ≤ 100
    → (pos want ≤ℤ slew (pos m) (pos cur) (pos want))
      × Between (pos low) (slew (pos m) (pos cur) (pos want)) (pos 100)
      × (pos cur ≤ℤ slew (pos m) (pos cur) (pos want) +ℤ pos m)
      × ((slew (pos m) (pos cur) (pos want) ≤ℤ pos cur)
          ⊎ (slew (pos m) (pos cur) (pos want) ≡ pos want))
unfolding plain_slew
slew-lem m cur want low p a b c = rw (slew-plain m cur want c b) (ground arith)

down_max_pos : (c : Curve) → pos 0 <ℤ (with_defaults c).slew_down_max
unfolding with_defaults
down_max_pos c = positive c.slew_down_max
  where
    positive : (x : ℤ) → pos 0 <ℤ unset_to (pos 5) x
    positive (pos zero) = ground arith
    positive (pos (suc m)) = ground arith
    positive (negsuc m) = ground arith

slewed :
    (m cur want : ℤ) (f : ℕ)
    → pos 0 <ℤ m
    → Between (pos f) want (pos 100)
    → Between (pos f) cur (pos 100)
    → (want ≤ℤ slew m cur want)
      × Between (pos f) (slew m cur want) (pos 100)
      × (cur ≤ℤ slew m cur want +ℤ m)
      × ((slew m cur want ≤ℤ cur) ⊎ (slew m cur want ≡ want))
slewed (pos m) (pos cur) (pos want) f p w c =
    slew-lem m cur want f (omega (arith, p)) (omega (arith, w.0)) (omega (arith, w.1))
      (omega (arith, c.1))
slewed (negsuc m) cur want f p w c = absurd (omega (arith, p))
slewed (pos m) (negsuc cur) want f p w c = absurd (omega (arith, c.0))
slewed (pos m) (pos cur) (negsuc want) f p w c = absurd (omega (arith, w.0))

slew-Cooling :
    (c : Curve) (f : ℕ) (cur : ℤ) (r : Round)
    → IsNarrow c
    → IsFloor (pos f)
    → Between (pos f) cur (pos 100)
    → IsCooling c (pos f) cur r (next_duty c (pos f) cur r)
unfolding next_duty
slew-Cooling c f cur r w h b =
    let (enough, within, slow, no_more) =
      slewed (with_defaults c).slew_down_max cur (target (with_defaults c) (hottest r) (pos f)) f
        (down_max_pos c)
        (target-Between (with_defaults c) (hottest r) (pos f) (with_defaults-Narrow c w) h) b in
    record { enough = enough; within = within; slow = slow; no_more = no_more }

trace-Cooled :
    (c : Curve) (f : ℕ) (cur : ℤ) (rs : List Round)
    → IsNarrow c
    → IsFloor (pos f)
    → Between (pos f) cur (pos 100)
    → Cooled c (pos f) cur rs (trace c (pos f) cur rs)
unfolding trace
trace-Cooled c f cur [] w h b = tt
trace-Cooled c f cur (r ∷ rs) w h b =
    let k = slew-Cooling c f cur r w h b in
    (k, trace-Cooled c f (next_duty c (pos f) cur r) rs w h k.within)

-- On a curve whose ends are within 2 ^ 55 degrees of 0, with a floor from 0 to 100 and a first
-- command that the fans take, Run starts by commanding full cooling and ends by commanding it. In between every round commands no less than the curve asks for at its reading, a duty from the floor to 100, at most SlewDownMax below
-- the last, and above the last only where the curve asks.
pub run-Cooled :
    (curve : Curve) (floor : ℤ) (lamps once : Bool) (r : Round) (rs : List Round)
    → IsNarrow curve
    → IsFloor floor
    → (ds : List ℤ) × (duties (run curve floor lamps once false r rs).1
        ≡ pos 100 ∷ (ds ++ (pos 100 ∷ [])))
      × Cooled curve floor (pos 100) (served once (r ∷ rs)) ds
run-Cooled c (pos f) lamps once r rs w h = (
  trace c (pos f) (pos 100) (served once (r ∷ rs)),
  duties-run c (pos f) lamps once r rs,
  trace-Cooled c f (pos 100) (served once (r ∷ rs)) w h (h.1, omega arith),
)
run-Cooled c (negsuc f) lamps once r rs w h = absurd (omega (arith, h.0))

-- A reading at the cool end of the curve.
abbrev pub IsCool : Curve → Round → Type 0
IsCool c r = (pos 0 ≤ℤ hottest r) × (hottest r ≤ℤ (with_defaults (with_defaults c)).min_c)

cool_duty :
    (c : Curve) (f x m : ℕ) (r : Round)
    → f + x ≤ 100
    → (with_defaults c).slew_down_max ≡ pos m
    → IsCool c r
    → next_duty c (pos f) (pos (f + x)) r ≡ pos (f + (x - m))
unfolding next_duty
cool_duty c f x m r w e h =
    ap (slew (with_defaults c).slew_down_max (pos (f + x)))
      (target_cool (with_defaults c) (hottest r) (pos f) h.0 h.1)
    ∙ ap (λ d. slew d (pos (f + x)) (pos f)) e
    ∙ falls
  where
    falls : slew (pos m) (pos (f + x)) (pos f) ≡ pos (f + (x - m))
    falls = slew-plain m (f + x) f w (omega arith) ∙ fall
      where
        fall : plain_slew m (f + x) f ≡ pos (f + (x - m))
        fall = unfold plain_slew in ground arith

abbrev pub last : ℤ → List ℤ → ℤ
last d [] = d
last d (e ∷ es) = last e es

trace-cool :
    (c : Curve) (f m : ℕ) (x : ℕ) (rs : List Round)
    → f + x ≤ 100
    → (with_defaults c).slew_down_max ≡ pos m
    → All (IsCool c) rs
    → last (pos (f + x)) (trace c (pos f) (pos (f + x)) rs) ≡ pos (f + (x - length rs * m))
unfolding trace
trace-cool c f m x [] w e h = ap pos (omega arith)
trace-cool c f m x (r ∷ rs) w e h =
    let step : next_duty c (pos f) (pos (f + x)) r ≡ pos (f + (x - m)) =
      cool_duty c f x m r w e h.0 in
    ap (λ d. last d (trace c (pos f) d rs)) step
    ∙ trace-cool c f m (x - m) rs (omega arith) e h.1
    ∙ ap (λ n. pos (f + n)) (omega arith)

-- Where every round reads at the cool end of the curve, n rounds bring the duty down from 100 by
-- n times SlewDownMax, and no lower than the floor: after enough of them it is the floor.
pub run_cool :
    (curve : Curve) (f m : ℕ) (lamps : Bool) (r : Round) (rs : List Round)
    → f ≤ 100
    → (with_defaults curve).slew_down_max ≡ pos m
    → All (IsCool curve) (r ∷ rs)
    → (ds : List ℤ) × (duties (run curve (pos f) lamps false false r rs).1
        ≡ pos 100 ∷ (ds ++ (pos 100 ∷ [])))
      × (last (pos 100) ds ≡ pos (f + (100 - f - length (r ∷ rs) * m)))
run_cool c f m lamps r rs h e k = (
  trace c (pos f) (pos 100) (r ∷ rs),
  duties-run c (pos f) lamps false r rs,
  ap (λ d. last d (trace c (pos f) d (r ∷ rs))) from_full
      ∙ trace-cool c f m (100 - f) (r ∷ rs) (omega arith) e k,
)
  where
    from_full : pos 100 ≡ pos (f + (100 - f))
    from_full = ap pos (omega arith)
