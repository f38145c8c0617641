-- ===== src/Thermal/Slope.antt =====
-- The arithmetic of the curve's slope (Curve.Target of internal/thermal/thermal.go).
use native.Mathlib.Nat.{div-le_of_le-mul, le-div_iff_mul-le, div-mul-le_self, mul-le-mul_right}
use nosaic_switch.Base.{ℕ, suc, ◌^◌, ◌+◌, ◌-◌, ◌*◌, ◌/◌, ◌≤◌, ◌<◌, ◌≡◌, ap, sym, ◌∙◌, false, arith}
use nosaic_switch.Base.Int.{
  ℤ, pos, negsuc, int_eq, ◌+ℤ◌, ◌-ℤ◌, ◌*ℤ◌, div_ℤ, wrap64, leb_ℤ, ◌≤ℤ◌, ◌<ℤ◌,
}
use nosaic_switch.Thermal.{ramp}

pub div_mono : (a b d : ℕ) → 0 < d → a ≤ b → a / d ≤ b / d
div_mono a b d p h =
    (le-div_iff_mul-le p).1 (let low : a / d * d ≤ a = div-mul-le_self a d in omega (arith, low, h))

pub mul_mono : (x y k : ℕ) → x ≤ y → x * k ≤ y * k
mul_mono x y k h = mul-le-mul_right k h

-- A floor that a duty can have.
abbrev pub IsFloor : ℤ → Type 0
IsFloor f = (pos 0 ≤ℤ f) × (f ≤ℤ pos 100)

abbrev pub Between : ℤ → ℤ → ℤ → Type 0
Between low x high = (low ≤ℤ x) × (x ≤ℤ high)

-- On the slope, above `low` by `x` of `r` degrees.
unfoldable pub slope : ℕ → ℕ → ℕ → ℕ
slope f x r = f + x * (100 - f) / r

pub slope-le : (f x r : ℕ) → f ≤ 100 → x ≤ r → 0 < r → slope f x r ≤ 100
unfolding slope
slope-le f x r h p q =
    let room : x * (100 - f) / r ≤ 100 - f = div-le_of_le-mul r (mul_mono x r (100 - f) p) in
    omega (arith, room, h)

pub slope-ge : (f x r : ℕ) → f ≤ slope f x r
unfolding slope
slope-ge f x r = omega arith

pub slope_mono : (f x y r : ℕ) → 0 < r → x ≤ y → slope f x r ≤ slope f y r
unfolding slope
slope_mono f x y r p h =
    let more : x * (100 - f) / r ≤ y * (100 - f) / r =
      div_mono (x * (100 - f)) (y * (100 - f)) r p (mul_mono x y (100 - f) h) in
    omega (arith, more)

-- A difference that is positive, as a number.
pub apart : (a b : ℤ) → a <ℤ b → (x : ℕ) × (b -ℤ a ≡ pos (suc x)) × (b ≡ a +ℤ pos (suc x))
apart (pos a) (pos b) h = (b - a - 1, ground arith, ground arith)
apart (pos a) (negsuc b) h = absurd (omega arith)
apart (negsuc a) (pos b) h = (a + b, ground arith, ground arith)
apart (negsuc a) (negsuc b) h = (a - b - 1, ground arith, ground arith)

pub times : (x f : ℕ) → f ≤ 100 → pos x *ℤ (pos 100 -ℤ pos f) ≡ pos (x * (100 - f))
times x f h = ground (arith, room f h, flat x (100 - f))
  where
    room : (f : ℕ) → f ≤ 100 → pos 100 -ℤ pos f ≡ pos (100 - f)
    room f h = ground arith

    flat : (x y : ℕ) → pos x *ℤ pos y ≡ pos (x * y)
    flat x y = ground arith

-- A number in range is kept.
pub wrap64-pos : (n : ℕ) → suc n ≤ 2 ^ 63 → wrap64 (pos n) ≡ pos n
unfolding wrap64
wrap64-pos n h = ground arith

-- A curve whose ends are within 2 ^ 55 degrees of 0.
abbrev pub IsRange : ℤ → ℤ → Type 0
IsRange low high = (pos 0 -ℤ pos (2 ^ 55) ≤ℤ low) × (high ≤ℤ pos (2 ^ 55))

in_range : (low high : ℤ) (r : ℕ) → IsRange low high → high -ℤ low ≡ pos r → r ≤ 2 ^ 56
in_range (pos a) (pos b) r h e = ground (arith, h.0, h.1)
in_range (pos a) (negsuc b) r h e = ground (arith, h.0, h.1)
in_range (negsuc a) (pos b) r h e = ground (arith, h.0, h.1)
in_range (negsuc a) (negsuc b) r h e = ground (arith, h.0, h.1)

-- Of numbers so small nothing wraps.
computed : ℕ → ℤ → ℤ → ℤ → ℤ
computed f over room range = wrap64 (pos f +ℤ wrap64 (div_ℤ (wrap64 (over *ℤ room)) range))

computed-slope :
    (f x r : ℕ)
    → f ≤ 100
    → x ≤ r
    → 0 < r
    → r ≤ 2 ^ 56
    → computed f (pos x) (pos 100 -ℤ pos f) (pos r) ≡ pos (slope f x r)
unfolding computed slope
computed-slope f x r h p q k =
    let small : x * (100 - f) < 2 ^ 63 =
      let wide : x * (100 - f) ≤ 2 ^ 56 * (100 - f) = mul_mono x (2 ^ 56) (100 - f) (omega arith) in
      omega (arith, wide) in
    let room : x * (100 - f) / r ≤ 100 - f = div-le_of_le-mul r (mul_mono x r (100 - f) p) in
    ap (λ t. wrap64 (pos f +ℤ wrap64 (div_ℤ (wrap64 t) (pos r)))) (times x f h)
    ∙ ap (λ t. wrap64 (pos f +ℤ wrap64 (div_ℤ t (pos r))))
        (wrap64-pos (x * (100 - f)) (omega (arith, small)))
    ∙ ap (λ t. wrap64 (pos f +ℤ t)) (wrap64-pos (x * (100 - f) / r) (omega (arith, room)))
    ∙ ap wrap64 (plus f (x * (100 - f) / r))
    ∙ wrap64-pos (f + x * (100 - f) / r) (omega (arith, room))
  where
    plus : (a b : ℕ) → pos a +ℤ pos b ≡ pos (a + b)
    plus a b = ground arith

pub ramp-slope :
    (low high hot : ℤ) (f x r : ℕ)
    → f ≤ 100
    → x ≤ r
    → 0 < r
    → r ≤ 2 ^ 56
    → hot -ℤ low ≡ pos x
    → high -ℤ low ≡ pos r
    → ramp low high (pos f) hot ≡ pos (slope f x r)
unfolding ramp computed
ramp-slope low high hot f x r h k z w p q =
    ap (λ d. computed f (wrap64 d) (wrap64 (pos 100 -ℤ pos f)) (wrap64 (high -ℤ low))) p
    ∙ ap (λ d. computed f d (wrap64 (pos 100 -ℤ pos f)) (wrap64 (high -ℤ low)))
        (wrap64-pos x (omega arith))
    ∙ ap (λ d. computed f (pos x) (wrap64 (pos 100 -ℤ pos f)) (wrap64 d)) q
    ∙ ap (computed f (pos x) (wrap64 (pos 100 -ℤ pos f))) (wrap64-pos r (omega arith))
    ∙ ap (λ d. computed f (pos x) d (pos r)) (room f h)
    ∙ computed-slope f x r h k z w
  where
    room : (f : ℕ) → f ≤ 100 → wrap64 (pos 100 -ℤ pos f) ≡ pos 100 -ℤ pos f
    room f h = ap wrap64 (flat f h) ∙ wrap64-pos (100 - f) (omega arith) ∙ sym (flat f h)
      where
        flat : (f : ℕ) → f ≤ 100 → pos 100 -ℤ pos f ≡ pos (100 - f)
        flat f h = ground arith

-- Strictly between the ends of the curve the duty is one of the slope.
pub on_slope :
    (low high hot : ℤ) (f : ℕ)
    → f ≤ 100
    → IsRange low high
    → low <ℤ hot
    → hot <ℤ high
    → (x : ℕ) × (r : ℕ) × (hot -ℤ low ≡ pos (suc x))
      × (high -ℤ low ≡ pos (suc r))
      × (suc x ≤ suc r)
      × (ramp low high (pos f) hot ≡ pos (slope f (suc x) (suc r)))
on_slope low high hot f h w p q =
    let (x, ex, hx) = apart low hot p in
    let (r, er, hr) = apart low high (lt_trans low hot high p q) in
    let within : suc x ≤ suc r = further low hot high (suc x) (suc r) q ex er in
    (
      x,
      r,
      ex,
      er,
      within,
      ramp-slope low high hot f (suc x) (suc r) h within (omega arith)
          (in_range low high (suc r) w er) ex er,
    )
  where
    lt_trans : (a b c : ℤ) → a <ℤ b → b <ℤ c → a <ℤ c
    lt_trans a b c h k = omega (arith, h, k)

    further : (a b c : ℤ) (x r : ℕ) → b <ℤ c → b -ℤ a ≡ pos x → c -ℤ a ≡ pos r → x ≤ r
    further (pos a) (pos b) (pos c) x r h e f = ground arith
    further (pos a) (pos b) (negsuc c) x r h e f = absurd (omega arith)
    further (pos a) (negsuc b) c x r h e f = absurd (ground arith)
    further (negsuc a) (pos b) (pos c) x r h e f = ground arith
    further (negsuc a) (pos b) (negsuc c) x r h e f = absurd (omega arith)
    further (negsuc a) (negsuc b) (pos c) x r h e f = ground arith
    further (negsuc a) (negsuc b) (negsuc c) x r h e f = ground arith

pub not_leb : (a b : ℤ) → leb_ℤ a b ≡ false → b <ℤ a
not_leb a b h = ground arith
