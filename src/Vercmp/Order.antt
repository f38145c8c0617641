-- ===== src/Vercmp/Order.antt =====
-- Versions compared in both directions, and the fuel of the comparison (internal/vercmp/vercmp.go).
use nosaic_switch.Base.{
  ℕ, zero, suc, ◌+◌, ◌-◌, ◌≤◌, ◌≡◌, subst, refl, sym, ap, ◌∙◌, Bool, true, false, Option, none,
  some, List, [], ◌∷◌, arith, Bool-cases, inl, inr, Text, text, length, nat_eq,
}
use nosaic_switch.Base.Int.{ℤ, pos, negsuc, int_eq}
use nosaic_switch.Base.Decimal.{is_digit}
use nosaic_switch.Vercmp.{
  Sign, less, equal, greater, or_else, or_rest, result, compare_text, trim_zeros, compare_numeric,
  take_run, compare_run, natural_loop, natural_compare, compare_int, compare_read, compare_part,
  compare_parts, compare_pre, compare, atoi, cut_dash, split_dots,
}

-- The sign of the comparison the other way round.
abbrev pub flip : Sign → Sign
flip less = greater
flip equal = equal
flip greater = less

flip-or_else : (a b : Sign) → flip (or_else a b) ≡ or_else (flip a) (flip b)
flip-or_else less b = refl
flip-or_else equal b = refl
flip-or_else greater b = refl

flip-compare_text : (x y : Text) → compare_text y x ≡ flip (compare_text x y)
unfolding compare_text
flip-compare_text [] [] = refl
flip-compare_text [] (y ∷ ys) = refl
flip-compare_text (x ∷ xs) [] = refl
flip-compare_text (x ∷ xs) (y ∷ ys) = ground (arith, flip-compare_text xs ys)

flip-compare_numeric : (x y : Text) → compare_numeric y x ≡ flip (compare_numeric x y)
unfolding compare_numeric
flip-compare_numeric x y = ground (arith, flip-compare_text (trim_zeros x) (trim_zeros y))

flip-compare_run : (b : Bool) (x y : Text) → compare_run b y x ≡ flip (compare_run b x y)
flip-compare_run true x y = flip-compare_numeric x y
flip-compare_run false x y = flip-compare_text x y

take_run-length : (b : Bool) (cs : Text) → length (take_run b cs).1 ≤ length cs
unfolding take_run
take_run-length b [] = omega arith
take_run-length true (c ∷ cs) = ground (arith, take_run-length true cs)
take_run-length false (c ∷ cs) = ground (arith, take_run-length false cs)

-- The run takes its first byte, so the rest is shorter.
take_run-shorter : (c : ℕ) (cs : Text) → length (take_run (is_digit c) (c ∷ cs)).1 ≤ length cs
unfolding take_run
take_run-shorter c cs = ground (arith, take_run-length true cs, take_run-length false cs)

-- The same of a loop that may be out of fuel.
abbrev flip_some : Option Sign → Option Sign
flip_some none = none
flip_some (some c) = some (flip c)

flip-or_rest :
    (a : Sign) (b : Option Sign) → flip_some (or_rest a b) ≡ or_rest (flip a) (flip_some b)
flip-or_rest less b = refl
flip-or_rest equal b = refl
flip-or_rest greater b = refl

flip-result : (a : Option Sign) → result (flip_some a) ≡ flip (result a)
flip-result none = refl
flip-result (some c) = refl

flip-run :
    (n : ℕ) (b : Bool) (p q : Text × Text)
    → natural_loop n q.1 p.1 ≡ flip_some (natural_loop n p.1 q.1)
    → or_rest (compare_run b q.0 p.0) (natural_loop n q.1 p.1)
      ≡ flip_some (or_rest (compare_run b p.0 q.0) (natural_loop n p.1 q.1))
flip-run n b p q e =
    ap (λ c. or_rest c (natural_loop n q.1 p.1)) (flip-compare_run b p.0 q.0)
    ∙ ap (or_rest (flip (compare_run b p.0 q.0))) e
    ∙ sym (flip-or_rest (compare_run b p.0 q.0) (natural_loop n p.1 q.1))

shorter :
    (c d : ℕ) (x y : Text) (n : ℕ) {b : Bool}
    → is_digit c ≡ b
    → is_digit d ≡ b
    → length (c ∷ x) + length (d ∷ y) ≤ suc n
    → length (take_run b (c ∷ x)).1 + length (take_run b (d ∷ y)).1 ≤ n
shorter c d x y n {b} e f h =
    let one : length (take_run b (c ∷ x)).1 ≤ length x =
      subst (λ k. length (take_run k (c ∷ x)).1 ≤ length x) e (take_run-shorter c x) in
    let two : length (take_run b (d ∷ y)).1 ≤ length y =
      subst (λ k. length (take_run k (d ∷ y)).1 ≤ length y) f (take_run-shorter d y) in
    ground (arith, one, two, h)

flip-natural_loop : (n : ℕ) (x y : Text) → natural_loop n y x ≡ flip_some (natural_loop n x y)
unfolding natural_loop
flip-natural_loop zero [] [] = refl
flip-natural_loop zero [] (y ∷ ys) = refl
flip-natural_loop zero (x ∷ xs) [] = refl
flip-natural_loop zero (x ∷ xs) (y ∷ ys) = refl
flip-natural_loop (suc n) [] [] = refl
flip-natural_loop (suc n) [] (y ∷ ys) = refl
flip-natural_loop (suc n) (x ∷ xs) [] = refl
flip-natural_loop (suc n) (c ∷ x) (d ∷ y) = elim (Bool-cases (is_digit c)) [
  | inl cd ↦ elim (Bool-cases (is_digit d)) [
    | inl dd ↦
        rw (cd, dd)
          (flip-run n true (take_run true (c ∷ x)) (take_run true (d ∷ y))
            (flip-natural_loop n _ _))
    | inr dn ↦ rw (cd, dn) refl
  ]
  | inr cn ↦ elim (Bool-cases (is_digit d)) [
    | inl dd ↦ rw (cn, dd) refl
    | inr dn ↦
        rw (cn, dn)
          (flip-run n false (take_run false (c ∷ x)) (take_run false (d ∷ y))
            (flip-natural_loop n _ _))
  ]
]

flip-natural_compare : (x y : Text) → natural_compare y x ≡ flip (natural_compare x y)
unfolding natural_compare
flip-natural_compare x y =
    ap (λ n. result (natural_loop n y x)) (omega arith)
    ∙ ap result (flip-natural_loop (length x + length y) x y)
    ∙ flip-result (natural_loop (length x + length y) x y)

flip-compare_int : (x y : ℤ) → compare_int y x ≡ flip (compare_int x y)
unfolding compare_int
flip-compare_int (pos x) (pos y) = ground arith
flip-compare_int (pos x) (negsuc y) = ground arith
flip-compare_int (negsuc x) (pos y) = ground arith
flip-compare_int (negsuc x) (negsuc y) = ground arith

flip-compare_read :
    (a b : Option ℤ) (c d : Sign) → d ≡ flip c → compare_read b a d ≡ flip (compare_read a b c)
flip-compare_read none none c d e = e
flip-compare_read none (some y) c d e = refl
flip-compare_read (some x) none c d e = refl
flip-compare_read (some x) (some y) c d e = flip-compare_int x y

flip-compare_part : (x y : Text) → compare_part y x ≡ flip (compare_part x y)
unfolding compare_part
flip-compare_part x y = flip-compare_read (atoi x) (atoi y) _ _ (flip-natural_compare x y)

flip-both : (a b c d : Sign) → b ≡ flip a → d ≡ flip c → or_else b d ≡ flip (or_else a c)
flip-both a b c d e f = ap (λ z. or_else z d) e ∙ ap (or_else (flip a)) f ∙ sym (flip-or_else a c)

flip-compare_parts : (xs ys : List Text) → compare_parts ys xs ≡ flip (compare_parts xs ys)
unfolding compare_parts
flip-compare_parts [] [] = refl
flip-compare_parts [] (y ∷ ys) =
    flip-both _ _ _ _ (flip-compare_part (text "0") y) (flip-compare_parts [] ys)
flip-compare_parts (x ∷ xs) [] =
    flip-both _ _ _ _ (flip-compare_part x (text "0")) (flip-compare_parts xs [])
flip-compare_parts (x ∷ xs) (y ∷ ys) =
    flip-both _ _ _ _ (flip-compare_part x y) (flip-compare_parts xs ys)

flip-compare_pre :
    (x y : Text) (c d : Sign) → d ≡ flip c → compare_pre y x d ≡ flip (compare_pre x y c)
flip-compare_pre [] [] c d e = refl
flip-compare_pre [] (y ∷ ys) c d e = refl
flip-compare_pre (x ∷ xs) [] c d e = refl
flip-compare_pre (x ∷ xs) (y ∷ ys) c d e = e

-- Comparing two versions the other way round gives the opposite sign: which is newer does not depend on
-- the order in which they are given.
pub flip-compare :
    (trim_space : Text → Text) (a b : Text) → compare trim_space b a ≡ flip (compare trim_space a b)
unfolding compare
flip-compare trim_space a b =
    let x = cut_dash (trim_space a) in
    let y = cut_dash (trim_space b) in
    flip-both _ _ _ _ (flip-compare_parts (split_dots x.0) (split_dots y.0))
      (flip-compare_pre x.1 y.1 _ _ (flip-compare_parts (split_dots x.1) (split_dots y.1)))

or_rest-some :
    (a : Sign) {b : Option Sign} → (c : Sign) × (b ≡ some c) → (c : Sign) × (or_rest a b ≡ some c)
or_rest-some less h = (less, refl)
or_rest-some equal h = h
or_rest-some greater h = (greater, refl)

-- With fuel for the bytes of both strings the loop comes to a sign.
natural_loop-some :
    (n : ℕ) (x y : Text) → length x + length y ≤ n → (c : Sign) × (natural_loop n x y ≡ some c)
unfolding natural_loop
natural_loop-some zero [] y h = (_, refl)
natural_loop-some zero (c ∷ x) y h = absurd (omega arith)
natural_loop-some (suc n) [] y h = (_, refl)
natural_loop-some (suc n) (c ∷ x) [] h = (greater, refl)
natural_loop-some (suc n) (c ∷ x) (d ∷ y) h = elim (Bool-cases (is_digit c)) [
  | inl cd ↦ elim (Bool-cases (is_digit d)) [
    | inl dd ↦ rw (cd, dd) (or_rest-some _ (natural_loop-some n _ _ (shorter c d x y n cd dd h)))
    | inr dn ↦ rw (cd, dn) (less, refl)
  ]
  | inr cn ↦ elim (Bool-cases (is_digit d)) [
    | inl dd ↦ rw (cn, dd) (greater, refl)
    | inr dn ↦ rw (cn, dn) (or_rest-some _ (natural_loop-some n _ _ (shorter c d x y n cn dn h)))
  ]
]

or_rest-ends :
    (a : Sign) (b : Option Sign) {r : Option Sign}
    → ((c : Sign) → b ≡ some c → r ≡ some c)
    → (c : Sign) → or_rest a b ≡ some c
    → or_rest a r ≡ some c
or_rest-ends less b h c e = e
or_rest-ends equal b h c e = h c e
or_rest-ends greater b h c e = e

-- A sign that the loop comes to does not depend on the fuel that is left.
natural_loop-more :
    (n : ℕ) (x y : Text) (c : Sign)
    → natural_loop n x y ≡ some c
    → natural_loop (suc n) x y ≡ some c
unfolding natural_loop
natural_loop-more zero [] y s e = e
natural_loop-more zero (c ∷ x) [] s e = e
natural_loop-more zero (c ∷ x) (d ∷ y) s e = cc
natural_loop-more (suc n) [] y s e = e
natural_loop-more (suc n) (c ∷ x) [] s e = e
natural_loop-more (suc n) (c ∷ x) (d ∷ y) s e = elim (Bool-cases (is_digit c)) [
  | inl cd ↦ elim (Bool-cases (is_digit d)) [
    | inl dd ↦ rw (cd, dd) (or_rest-ends _ _ (natural_loop-more n _ _) s (rw (cd, dd) at e))
    | inr dn ↦ rw (cd, dn) (rw (cd, dn) at e)
  ]
  | inr cn ↦ elim (Bool-cases (is_digit d)) [
    | inl dd ↦ rw (cn, dd) (rw (cn, dd) at e)
    | inr dn ↦ rw (cn, dn) (or_rest-ends _ _ (natural_loop-more n _ _) s (rw (cn, dn) at e))
  ]
]

natural_loop-further :
    (m n : ℕ) (x y : Text) (c : Sign)
    → natural_loop n x y ≡ some c
    → natural_loop (m + n) x y ≡ some c
natural_loop-further zero n x y c e = subst (λ k. natural_loop k x y ≡ some c) (omega arith) e
natural_loop-further (suc m) n x y c e =
    subst (λ k. natural_loop k x y ≡ some c) (omega arith)
      (natural_loop-more (m + n) x y c (natural_loop-further m n x y c e))

-- With as much fuel as the bytes of both strings, or more, the loop of naturalCompare does not run out of
-- fuel: it comes to the sign that naturalCompare returns.
pub natural_loop-natural_compare :
    (n : ℕ) (x y : Text) → length x + length y ≤ n → natural_loop n x y ≡ some (natural_compare x y)
unfolding natural_compare
natural_loop-natural_compare n x y h =
    let (c, e) = natural_loop-some (length x + length y) x y (omega arith) in
    subst (λ k. natural_loop k x y ≡ some (result (natural_loop (length x + length y) x y)))
      (omega (arith, h))
      (natural_loop-further (n - (length x + length y)) (length x + length y) x y _
        (e ∙ ap (λ o. some (result o)) (sym e)))
