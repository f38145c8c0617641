-- ===== src/Vercmp.antt =====
-- Comparing package versions (internal/vercmp/vercmp.go): dotted components, numbers by value, a
-- pre-release before its release.
pub mod Order
pub mod Examples
use nosaic_switch.Base.{
  ℕ, zero, suc, ◌+◌, ◌-◌, ◌^◌, Bool, true, false, not, ◌&&◌, Option, none, some, List, [], ◌∷◌, ltb,
  leb, if◌then◌else◌, ◌==◌, Text, text, length, nat_eq,
}
use nosaic_switch.Base.Int.{ℤ, pos, negsuc, int_eq, ltb_ℤ}
use nosaic_switch.Base.Decimal.{is_digit, value}

-- -1, 0 and 1.
pub data Sign : Type 0 where
  less equal greater : Sign

-- `if c != 0 { return c }`, and then the rest.
abbrev pub or_else : Sign → Sign → Sign
or_else less c = less
or_else equal c = c
or_else greater c = greater

-- The same, where the rest is a loop that may run out of fuel.
abbrev pub or_rest : Sign → Option Sign → Option Sign
or_rest less rest = some less
or_rest equal rest = rest
or_rest greater rest = some greater

-- strings.Compare: the order of bytes.
unfoldable pub compare_text : Text → Text → Sign
compare_text [] [] = equal
compare_text [] (_ ∷ _) = less
compare_text (_ ∷ _) [] = greater
compare_text (x ∷ xs) (y ∷ ys) =
    let rest = compare_text xs ys in if ltb x y then less else if ltb y x then greater else rest

-- strings.TrimLeft(s, "0")
unfoldable pub trim_zeros : Text → Text
trim_zeros [] = []
trim_zeros (c ∷ cs) = let rest = trim_zeros cs in if c == 48 then rest else c ∷ cs

-- Digit strings without converting them.
unfoldable pub compare_numeric : Text → Text → Sign
compare_numeric x y =
    let a = trim_zeros x in
    let b = trim_zeros y in
    if ltb (length a) (length b)
    then less
    else if ltb (length b) (length a)
    then greater
    else compare_text a b

-- takeRun: the longest prefix of bytes that are all digits, or all not; and the rest.
unfoldable pub take_run : Bool → Text → Text × Text
take_run digits [] = ([], [])
take_run digits (c ∷ cs) =
    let (run, rest) = take_run digits cs in
    if is_digit c
    then (if digits then (c ∷ run, rest) else ([], c ∷ cs))
    else (if digits then ([], c ∷ cs) else (c ∷ run, rest))

-- Where one of the strings has ended.
abbrev pub compare_ends : Text → Text → Sign
compare_ends [] [] = equal
compare_ends [] (_ ∷ _) = less
compare_ends (_ ∷ _) _ = greater

-- The two runs at the front.
abbrev pub compare_run : Bool → Text → Text → Sign
compare_run true x y = compare_numeric x y
compare_run false x y = compare_text x y

-- The loop of naturalCompare, on fuel: `none` is out of fuel. The bytes of both strings are enough.
unfoldable pub natural_loop : ℕ → Text → Text → Option Sign
natural_loop zero [] y = some (compare_ends [] y)
natural_loop zero (c ∷ x) [] = some greater
natural_loop zero (c ∷ x) (d ∷ y) = none
natural_loop (suc n) [] y = some (compare_ends [] y)
natural_loop (suc n) (c ∷ x) [] = some greater
natural_loop (suc n) (c ∷ x) (d ∷ y) =
    let a = take_run (is_digit c) (c ∷ x) in
    let b = take_run (is_digit c) (d ∷ y) in
    let rest = natural_loop n a.1 b.1 in
    if is_digit c
    then (if is_digit d then or_rest (compare_run true a.0 b.0) rest else some less)
    else (if is_digit d then some greater else or_rest (compare_run false a.0 b.0) rest)

-- `equal` for a loop that is out of fuel, which it never is.
abbrev pub result : Option Sign → Sign
result none = equal
result (some c) = c

unfoldable pub natural_compare : Text → Text → Sign
natural_compare x y = result (natural_loop (length x + length y) x y)

abbrev pub all_digits : Text → Bool
all_digits [] = true
all_digits (c ∷ cs) = is_digit c && all_digits cs

-- A number of decimal digits in the range of a 64-bit int.
unfoldable pub int_of : Bool → Text → Option ℤ
int_of neg [] = none
int_of neg (c ∷ cs) =
    let n = value (c ∷ cs) in
    if not (all_digits (c ∷ cs))
    then none
    else if neg
    then (if leb n (2 ^ 63) then (if n == 0 then some (pos 0) else some (negsuc (n - 1))) else none)
    else if ltb n (2 ^ 63)
    then some (pos n)
    else none

-- strconv.Atoi: an optional sign, then digits.
unfoldable pub atoi : Text → Option ℤ
atoi [] = none
atoi (c ∷ cs) =
    if c == 43 then int_of false cs else if c == 45 then int_of true cs else int_of false (c ∷ cs)

unfoldable pub compare_int : ℤ → ℤ → Sign
compare_int x y = if x == y then equal else if ltb_ℤ x y then less else greater

-- A number stands before what is none.
abbrev pub compare_read : Option ℤ → Option ℤ → Sign → Sign
compare_read (some x) (some y) c = compare_int x y
compare_read (some x) none c = less
compare_read none (some y) c = greater
compare_read none none c = c

unfoldable pub compare_part : Text → Text → Sign
compare_part x y = compare_read (atoi x) (atoi y) (natural_compare x y)

-- A component that is missing is "0".
unfoldable pub compare_parts : List Text → List Text → Sign
compare_parts [] [] = equal
compare_parts [] (y ∷ ys) = or_else (compare_part (text "0") y) (compare_parts [] ys)
compare_parts (x ∷ xs) [] = or_else (compare_part x (text "0")) (compare_parts xs [])
compare_parts (x ∷ xs) (y ∷ ys) = or_else (compare_part x y) (compare_parts xs ys)

push : ℕ → List Text → List Text
push c [] = (c ∷ []) ∷ []
push c (w ∷ ws) = (c ∷ w) ∷ ws

-- strings.Split(s, ".")
unfoldable pub split_dots : Text → List Text
unfolding push
split_dots [] = [] ∷ []
split_dots (c ∷ cs) = let rest = split_dots cs in if c == 46 then [] ∷ rest else push c rest

-- strings.Cut(s, "-"), with "" behind a dash that is not there.
unfoldable pub cut_dash : Text → Text × Text
cut_dash [] = ([], [])
cut_dash (c ∷ cs) = let (core, pre) = cut_dash cs in if c == 45 then ([], cs) else (c ∷ core, pre)

-- A pre-release loses to a plain release.
abbrev pub compare_pre : Text → Text → Sign → Sign
compare_pre [] [] c = equal
compare_pre [] (_ ∷ _) c = greater
compare_pre (_ ∷ _) [] c = less
compare_pre (_ ∷ _) (_ ∷ _) c = c

-- `trim_space` is strings.TrimSpace.
unfoldable pub compare : (Text → Text) → Text → Text → Sign
compare trim_space a b =
    let (a_core, a_pre) = cut_dash (trim_space a) in
    let (b_core, b_pre) = cut_dash (trim_space b) in
    or_else (compare_parts (split_dots a_core) (split_dots b_core))
      (compare_pre a_pre b_pre (compare_parts (split_dots a_pre) (split_dots b_pre)))
