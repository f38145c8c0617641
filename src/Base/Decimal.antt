-- ===== src/Base/Decimal.antt =====
-- strconv.Itoa and the "%d" verb: the decimal digits of an integer, and reading them back.
use Prim.Native.Nat.{◌-◌, ℕ, zero, suc, ◌+◌, ◌*◌, ◌/◌, ◌%◌, ◌<◌}
use mathlib.Core.Path.{◌≡◌, refl, sym, ap, ◌∙◌}
use mathlib.Core.Logic.{inl, inr}
use mathlib.Core.Bool.{Bool, true, ◌&&◌}
use mathlib.Core.List.{[], ◌∷◌, ◌++◌}
use native.Mathlib.Omega.{arith}
use nosaic_switch.Base.Tests.{ltb, leb, if◌then◌else◌, Bool-cases}
use nosaic_switch.Base.Lists.{length, Text, All, text_eq}
use nosaic_switch.Base.Int.{ℤ, pos, negsuc, int_eq}

abbrev digit : ℕ → ℕ
digit d = b'0' + d

-- Fuel: a number below 2 ^ 64 has at most 20 digits; `n + 1` is enough for every `n`.
digits_fuel : ℕ → ℕ → Text
digits_fuel zero n = []
digits_fuel (suc f) n =
    let rest = digits_fuel f (n / 10) in
    if ltb n 10 then digit n ∷ [] else rest ++ (digit (n % 10) ∷ [])

unfoldable pub decimal : ℕ → Text
unfolding digits_fuel
decimal n = digits_fuel (suc n) n

unfoldable pub itoa : ℤ → Text
unfolding decimal
itoa (pos n) = decimal n
itoa (negsuc n) = b'-' ∷ decimal (suc n)

-- The number that a run of digits stands for.
unfoldable pub value_from : ℕ → Text → ℕ
value_from acc [] = acc
value_from acc (c ∷ cs) = value_from (acc * 10 + (c - b'0')) cs

abbrev pub value : Text → ℕ
value cs = value_from 0 cs

value_from-append :
    (acc : ℕ) (xs : Text) (d : ℕ)
    → value_from acc (xs ++ (d ∷ [])) ≡ value_from acc xs * 10 + (d - b'0')
unfolding value_from
value_from-append acc [] d = refl
value_from-append acc (x ∷ xs) d = value_from-append (acc * 10 + (x - b'0')) xs d

digits_fuel-value : (f n : ℕ) → n < f → value (digits_fuel f n) ≡ n
unfolding digits_fuel
digits_fuel-value zero n h = elim h [ ]
digits_fuel-value (suc f) n h = elim (Bool-cases (ltb n 10)) [
  | inl small ↦ rw small (unfold value_from in ground arith)
  | inr large ↦
      rw (large, value_from-append 0 (digits_fuel f (n / 10)) (digit (n % 10)))
        (omega (arith, digits_fuel-value f (n / 10) (ground arith)))
]

-- Reading back the digits of a number gives the number.
pub value-decimal : (n : ℕ) → value (decimal n) ≡ n
unfolding decimal
value-decimal n = digits_fuel-value (suc n) n (omega arith)

pub decimal-injective : (m n : ℕ) → decimal m ≡ decimal n → m ≡ n
decimal-injective m n e = sym (value-decimal m) ∙ ap value e ∙ value-decimal n

-- A byte '0' to '9'.
abbrev pub is_digit : ℕ → Bool
is_digit c = leb b'0' c && leb c b'9'

abbrev pub IsDigit : ℕ → Type 0
IsDigit c = is_digit c ≡ true

All-snoc : (xs : Text) (d : ℕ) → All IsDigit xs → IsDigit d → All IsDigit (xs ++ (d ∷ []))
All-snoc [] d h k = (k, tt)
All-snoc (x ∷ xs) d h k = (h.0, All-snoc xs d h.1 k)

digits_fuel-All : (f n : ℕ) → All IsDigit (digits_fuel f n)
unfolding digits_fuel
digits_fuel-All zero n = tt
digits_fuel-All (suc f) n = elim (Bool-cases (ltb n 10)) [
  | inl small ↦ rw small (ground arith, tt)
  | inr large ↦ rw large (
      All-snoc (digits_fuel f (n / 10)) (digit (n % 10)) (digits_fuel-All f (n / 10))
        (ground arith))
]

pub decimal-All : (n : ℕ) → All IsDigit (decimal n)
unfolding decimal
decimal-All n = digits_fuel-All (suc n) n

-- The digits at the head of a text.
unfoldable pub digits_run : Text → Text
digits_run [] = []
digits_run (c ∷ cs) = if is_digit c then c ∷ digits_run cs else []

digits_run-All : (xs : Text) → All IsDigit xs → digits_run xs ≡ xs
unfolding digits_run
digits_run-All [] h = refl
digits_run-All (x ∷ xs) h = rw (h.0, digits_run-All xs h.1)

-- The whole of a printed number is digits.
pub digits_run-decimal : (n : ℕ) → digits_run (decimal n) ≡ decimal n
digits_run-decimal n = digits_run-All (decimal n) (decimal-All n)

snoc_head :
    (xs : Text) (d : ℕ)
    → IsDigit d
    → All IsDigit xs
    → (c : ℕ) × (r : Text) × (xs ++ (d ∷ []) ≡ c ∷ r) × IsDigit c
snoc_head [] d h a = (d, [], refl, h)
snoc_head (x ∷ xs) d h a = (x, xs ++ (d ∷ []), refl, a.0)

digits_fuel_head : (f n : ℕ) → (c : ℕ) × (r : Text) × (digits_fuel (suc f) n ≡ c ∷ r) × IsDigit c
unfolding digits_fuel
digits_fuel_head f n = elim (Bool-cases (ltb n 10)) [
  | inl small ↦ (digit n, [], rw small, ground arith)
  | inr large ↦ rw large (
      snoc_head (digits_fuel f (n / 10)) (digit (n % 10)) (ground arith)
        (digits_fuel-All f (n / 10)))
]

-- A printed number starts with a digit.
pub decimal_head : (n : ℕ) → (c : ℕ) × (r : Text) × (decimal n ≡ c ∷ r) × (is_digit c ≡ true)
unfolding decimal
decimal_head n = digits_fuel_head n n

hex_digit : ℕ → ℕ
hex_digit d = if ltb d 10 then b'0' + d else b'a' + (d - 10)

hex_fuel : ℕ → ℕ → Text
hex_fuel zero n = []
hex_fuel (suc f) n =
    let rest = hex_fuel f (n / 16) in
    if ltb n 16 then hex_digit n ∷ [] else rest ++ (hex_digit (n % 16) ∷ [])

pad_left : ℕ → Text → Text
pad_left zero t = t
pad_left (suc n) t = b'0' ∷ pad_left n t

-- The "%04x" verb: hexadecimal, padded with zeros to four places, the sign included.
unfoldable pub hex4 : ℤ → Text
unfolding hex_digit hex_fuel pad_left
hex4 (pos n) = let h = hex_fuel (suc n) n in pad_left (4 - length h) h
hex4 (negsuc n) = let h = hex_fuel (suc (suc n)) (suc n) in b'-' ∷ pad_left (3 - length h) h
