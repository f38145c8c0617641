-- ===== src/Thermal/Target.antt =====
-- The curve from temperature to duty (Curve.Target of internal/thermal/thermal.go).
use nosaic_switch.Base.{
  ℕ, suc, ◌≤◌, ◌≡◌, sym, ◌∙◌, refl, true, false, arith, Bool-cases, inl, inr, All, List, [], ◌∷◌,
  ◌++◌, ◌&&◌, Bool, subst, if◌then◌else◌, ◌==◌,
}
use nosaic_switch.Base.Int.{ℤ, pos, negsuc, int_eq, ◌-ℤ◌, quot_ℤ, ltb_ℤ, leb_ℤ, ◌≤ℤ◌, ◌<ℤ◌}
use nosaic_switch.Thermal.{
  Curve, with_defaults, ramp, target_on, target, hottest_from, hottest, is_empty, Round,
}
use nosaic_switch.Thermal.Slope.{
  IsFloor, Between, IsRange, slope, slope-le, slope-ge, slope_mono, on_slope, not_leb,
}

target_on-Between :
    (low high hot : ℤ) (f : ℕ)
    → IsRange low high
    → f ≤ 100
    → Between (pos f) (target_on low high (pos f) hot) (pos 100)
unfolding target_on
target_on-Between low high hot f w h = elim (Bool-cases (ltb_ℤ hot (pos 0))) [
  | inl blind ↦ rw blind (omega arith, omega arith)
  | inr read ↦ elim (Bool-cases (leb_ℤ hot low)) [
    | inl cool ↦ rw (read, cool) (omega arith, omega arith)
    | inr warm ↦ elim (Bool-cases (leb_ℤ high hot)) [
      | inl full ↦ rw (read, warm, full) (omega arith, omega arith)
      | inr part ↦
          let (x, r, ex, er, p, e) =
            on_slope low high hot f h w (not_leb hot low warm) (not_leb high hot part) in
          rw (read, warm, part, e)
            (let lo : f ≤ slope f (suc x) (suc r) = slope-ge f (suc x) (suc r) in
              let hi : slope f (suc x) (suc r) ≤ 100 =
                slope-le f (suc x) (suc r) h p (omega arith) in
              (omega (arith, lo), omega (arith, hi)))
    ]
  ]
]

-- The curve's ends are within 2 ^ 55 degrees of 0.
abbrev pub IsNarrow : Curve → Type 0
IsNarrow c = IsRange c.min_c c.max_c

pub with_defaults-Narrow : (c : Curve) → IsNarrow c → IsNarrow (with_defaults c)
unfolding with_defaults
with_defaults-Narrow c h = either (c.min_c == pos 0 && c.max_c == pos 0) c.min_c c.max_c h
  where
    either :
        (b : Bool) (low high : ℤ)
        → IsRange low high
        → IsRange (if b then pos 35 else low) (if b then pos 65 else high)
    either true low high h = (omega arith, omega arith)
    either false low high h = h

-- On a curve whose ends are within 2 ^ 55 degrees of 0, with a floor from 0 to 100, the duty that is
-- asked for is from the floor to 100 percent, whatever the reading.
pub target-Between :
    (c : Curve) (hot floor : ℤ)
    → IsNarrow c
    → IsFloor floor
    → Between floor (target c hot floor) (pos 100)
unfolding target
target-Between c hot (pos f) w h =
    target_on-Between (with_defaults c).min_c (with_defaults c).max_c hot f
      (with_defaults-Narrow c w) (omega (arith, h.1))
target-Between c hot (negsuc f) w h = absurd (omega (arith, h.0))

ramp_mono :
    (low high a b : ℤ) (f : ℕ)
    → IsRange low high
    → f ≤ 100
    → low <ℤ a
    → a ≤ℤ b
    → b <ℤ high
    → ramp low high (pos f) a ≤ℤ ramp low high (pos f) b
ramp_mono low high a b f w h p o q =
    let (x, r, ex, er, l, e) = on_slope low high a f h w p (below a b high o q) in
    let (y, s, ey, es, m, k) = on_slope low high b f h w (above low a b p o) q in
    let same : suc r ≡ suc s = pos_inj (sym er ∙ es) in
    let less : suc x ≤ suc y = closer low a b (suc x) (suc y) o ex ey in
    rw (e, k, same)
      (let more : slope f (suc x) (suc s) ≤ slope f (suc y) (suc s) =
          slope_mono f (suc x) (suc y) (suc s) (omega arith) less in
        omega (arith, more))
  where
    below : (a b c : ℤ) → a ≤ℤ b → b <ℤ c → a <ℤ c
    below a b c h k = omega (arith, h, k)

    above : (a b c : ℤ) → a <ℤ b → b ≤ℤ c → a <ℤ c
    above a b c h k = omega (arith, h, k)

    pos_inj : {m n : ℕ} → pos m ≡ pos n → m ≡ n
    pos_inj e = cc

    closer : (a b c : ℤ) (x y : ℕ) → b ≤ℤ c → b -ℤ a ≡ pos x → c -ℤ a ≡ pos y → x ≤ y
    closer (pos a) (pos b) (pos c) x r h e f = ground arith
    closer (pos a) (pos b) (negsuc c) x r h e f = absurd (omega arith)
    closer (pos a) (negsuc b) (pos c) x r h e f = ground arith
    closer (pos a) (negsuc b) (negsuc c) x r h e f = ground arith
    closer (negsuc a) (pos b) (pos c) x r h e f = ground arith
    closer (negsuc a) (pos b) (negsuc c) x r h e f = absurd (omega arith)
    closer (negsuc a) (negsuc b) (pos c) x r h e f = ground arith
    closer (negsuc a) (negsuc b) (negsuc c) x r h e f = ground arith

-- A hotter reading asks for no less. Both are readings: not below zero.
target_on_mono :
    (low high a b : ℤ) (f : ℕ)
    → IsRange low high
    → f ≤ 100
    → pos 0 ≤ℤ a
    → a ≤ℤ b
    → target_on low high (pos f) a ≤ℤ target_on low high (pos f) b
unfolding target_on
target_on_mono low high a b f w h z o =
    let ra : ltb_ℤ a (pos 0) ≡ false = ground arith in
    let rb : ltb_ℤ b (pos 0) ≡ false = ground arith in
    elim (Bool-cases (leb_ℤ a low)) [
      | inl cool ↦ rw (ra, cool) (target_on-Between low high b f w h).0
      | inr warm ↦ elim (Bool-cases (leb_ℤ high b)) [
        | inl full ↦
            let wb : leb_ℤ b low ≡ false = ground arith in
            rw (rb, wb, full) (target_on-Between low high a f w h).1
        | inr part ↦
            let wb : leb_ℤ b low ≡ false = ground arith in
            let pa : leb_ℤ high a ≡ false = ground arith in
            rw (ra, rb, warm, wb, part, pa)
              (ramp_mono low high a b f w h (not_leb a low warm) o (not_leb high b part))
      ]
    ]

-- On a curve whose ends are within 2 ^ 55 degrees of 0, with a floor from 0 to 100, of two readings that
-- are not below zero the hotter one asks for no less duty.
pub target_mono :
    (c : Curve) (a b floor : ℤ)
    → IsNarrow c
    → IsFloor floor
    → pos 0 ≤ℤ a
    → a ≤ℤ b
    → target c a floor ≤ℤ target c b floor
unfolding target
target_mono c a b (pos f) w h z o =
    target_on_mono (with_defaults c).min_c (with_defaults c).max_c a b f (with_defaults-Narrow c w)
      (omega (arith, h.1)) z o
target_mono c a b (negsuc f) w h z o = absurd (omega (arith, h.0))

-- A temperature that could not be read asks for everything.
pub target_blind : (c : Curve) (hot floor : ℤ) → hot <ℤ pos 0 → target c hot floor ≡ pos 100
unfolding target target_on
target_blind c hot floor h = let blind : ltb_ℤ hot (pos 0) ≡ true = ground arith in rw blind refl

-- At the cool end of the curve the board's floor is asked for.
pub target_cool :
    (c : Curve) (hot floor : ℤ)
    → pos 0 ≤ℤ hot
    → hot ≤ℤ (with_defaults c).min_c
    → target c hot floor ≡ floor
unfolding target target_on
target_cool c hot floor z h =
    let read : ltb_ℤ hot (pos 0) ≡ false = ground arith in
    let cool : leb_ℤ hot (with_defaults c).min_c ≡ true = ground arith in rw (read, cool) refl

higher : ℤ → ℤ → ℤ
higher hot c = if ltb_ℤ hot c then c else hot

higher-ge : (hot c : ℤ) → (hot ≤ℤ higher hot c) × (c ≤ℤ higher hot c)
unfolding higher
higher-ge hot c = elim (Bool-cases (ltb_ℤ hot c)) [
  | inl more ↦ rw more (ground arith, omega arith)
  | inr less ↦ rw less (omega arith, ground arith)
]

le_trans : (a b c : ℤ) → a ≤ℤ b → b ≤ℤ c → a ≤ℤ c
le_trans a b c h k = omega (arith, h, k)

hottest_from-All :
    (hot : ℤ) (ts : List ℤ)
    → (hot ≤ℤ hottest_from hot ts) × All (λ t. quot_ℤ t 1000 ≤ℤ hottest_from hot ts) ts
unfolding hottest_from higher
hottest_from-All hot [] = (omega arith, tt)
hottest_from-All hot (t ∷ ts) =
    let (low, rest) = hottest_from-All (higher hot (quot_ℤ t 1000)) ts in
    let (h, c) = higher-ge hot (quot_ℤ t 1000) in
    (le_trans hot _ _ h low, (le_trans (quot_ℤ t 1000) _ _ c low, rest))

none_read : (P : ℤ → Type 0) (b : Bool) (ts : List ℤ) → (b && is_empty ts) ≡ true → All P ts
none_read P b [] e = tt
none_read P true (t ∷ ts) e = cc
none_read P false (t ∷ ts) e = cc

hottest-All : (r : Round) → All (λ t. quot_ℤ t 1000 ≤ℤ hottest r) r.temps
unfolding hottest
hottest-All r = elim (Bool-cases (r.failed && is_empty r.temps)) [
  | inl blind ↦ none_read _ r.failed r.temps blind
  | inr read ↦ rw read (hottest_from-All (negsuc 0) r.temps).1
]

All-middle : (P : ℤ → Type 0) (xs : List ℤ) (t : ℤ) (ys : List ℤ) → All P (xs ++ (t ∷ ys)) → P t
All-middle P [] t ys h = h.0
All-middle P (x ∷ xs) t ys h = All-middle P xs t ys h.1

whole_degrees : (t : ℤ) → pos 0 ≤ℤ t → pos 0 ≤ℤ quot_ℤ t 1000
whole_degrees (pos t) h = omega arith
whole_degrees (negsuc t) h = absurd (omega (arith, h))

-- On a curve whose ends are within 2 ^ 55 degrees of 0, with a floor from 0 to 100, the duty asked for
-- covers every sensor whose reading is not below zero: it is no less than what the curve gives for that sensor alone.
pub target-hottest :
    (c : Curve) (r : Round) (floor : ℤ) (xs : List ℤ) (t : ℤ) (ys : List ℤ)
    → IsNarrow c
    → IsFloor floor
    → r.temps ≡ xs ++ (t ∷ ys)
    → pos 0 ≤ℤ t
    → target c (quot_ℤ t 1000) floor ≤ℤ target c (hottest r) floor
target-hottest c r floor xs t ys w h e z =
    target_mono c (quot_ℤ t 1000) (hottest r) floor w h (whole_degrees t z) (
      All-middle (λ u. quot_ℤ u 1000 ≤ℤ hottest r) xs t ys
        (subst (All (λ u. quot_ℤ u 1000 ≤ℤ hottest r)) e (hottest-All r)))

-- Without a reading full cooling is asked for.
pub target_unread :
    (c : Curve) (r : Round) (floor : ℤ) → r.temps ≡ [] → target c (hottest r) floor ≡ pos 100
unfolding hottest hottest_from
target_unread c r floor e = target_blind c (hottest r) floor (
    let h : hottest r ≡ negsuc 0 = blind r.failed r.temps e in
    subst (λ x. x <ℤ pos 0) (sym h) (omega arith))
  where
    blind :
        (b : Bool) (ts : List ℤ)
        → ts ≡ []
        → (if b && is_empty ts then negsuc 0 else hottest_from (negsuc 0) ts) ≡ negsuc 0
    blind true [] e = refl
    blind false [] e = refl
    blind b (t ∷ ts) e = cc
