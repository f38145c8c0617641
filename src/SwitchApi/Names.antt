-- ===== src/SwitchApi/Names.antt =====
-- The names of interfaces (SVIName and LAGName of internal/switchapi/switchapi.go, validLAGName of
-- internal/nosd/mem/mem.go).
use nosaic_switch.Base.{
  ℕ, ◌^◌, ◌≤◌, ◌<◌, ◌≡◌, refl, ap, ◌∙◌, ◌↔◌, Bool, true, false, not, ◌&&◌, ◌||◌, Option, none, some,
  [], ◌∷◌, ◌++◌, arith, ltb, leb, if◌then◌else◌, ◌==◌, Text, text, ℕ_discrete, text_eq, nat_eq,
}
use nosaic_switch.Base.Int.{ℤ, pos, negsuc, int_eq, ◌-ℤ◌, ltb_ℤ}
use nosaic_switch.Base.Exec.{Check, ok, err, check_if}
use nosaic_switch.Base.Decimal.{
  itoa, decimal, value, is_digit, digits_run, value-decimal, digits_run-decimal, decimal_head,
}
use nosaic_switch.SwitchApi.Errors.{Error, not_lag_name}

unfoldable pub svi_name : ℤ → Text
svi_name vid = text "vlan" ++ itoa vid

unfoldable pub lag_name : ℤ → Text
lag_name n = text "po" ++ itoa n

-- fmt.Sscanf(name, "po%d", &n): the two letters, spaces, a sign, and the digits that follow, as far
-- as they go; what stands behind them is not read. A number outside 64 bits is an error.
in_int64 : Bool → ℕ → Option ℤ
in_int64 negative n =
    if negative
    then (if leb n (2 ^ 63) then some (pos 0 -ℤ pos n) else none)
    else (if ltb n (2 ^ 63) then some (pos n) else none)

scan_digits : Bool → Text → Option ℤ
unfolding in_int64
scan_digits negative [] = none
scan_digits negative (c ∷ cs) = in_int64 negative (value (c ∷ cs))

scan_sign : Text → Option ℤ
unfolding scan_digits
scan_sign [] = none
scan_sign (c ∷ cs) =
    if c == b'-'
    then scan_digits true (digits_run cs)
    else if c == b'+'
    then scan_digits false (digits_run cs)
    else scan_digits false (digits_run (c ∷ cs))

abbrev is_space : ℕ → Bool
is_space c = c == b' ' || c == 9 || c == 11 || c == 12 || c == 13

skip_spaces : Text → Text
skip_spaces [] = []
skip_spaces (c ∷ cs) = let rest = skip_spaces cs in if is_space c then rest else c ∷ cs

scan_lag : Text → Option ℤ
unfolding scan_sign skip_spaces
scan_lag (p ∷ o ∷ rest) = if p == b'p' && o == b'o' then scan_sign (skip_spaces rest) else none
scan_lag _ = none

unfoldable pub valid_lag_name : Text → Check Error
unfolding scan_lag
valid_lag_name name = elim (scan_lag name) [
  | none ↦ err (not_lag_name name)
  | some n ↦ check_if (ltb_ℤ n (pos 1) || not (lag_name n == name)) (not_lag_name name)
]

accepted :
    (name : Text) (o : Option ℤ)
    → elim o [
      | none ↦ err (not_lag_name name)
      | some n ↦ check_if (ltb_ℤ n (pos 1) || not (lag_name n == name)) (not_lag_name name)
    ]
      ≡ ok tt
    → (n : ℕ) × (1 ≤ n) × (o ≡ some (pos n)) × (name ≡ lag_name (pos n))
accepted name none h = cc
accepted name (some (pos n)) h = (n, ground arith, refl, ground arith)
accepted name (some (negsuc n)) h = absurd (ground arith)

scan_sign-digits :
    (c : ℕ) (r : Text) (n : ℕ)
    → is_digit c ≡ true
    → digits_run (c ∷ r) ≡ c ∷ r
    → value (c ∷ r) ≡ n
    → n < 2 ^ 63
    → scan_sign (skip_spaces (c ∷ r)) ≡ some (pos n)
unfolding scan_sign skip_spaces
scan_sign-digits c r n d e v h = ground arith

scan_sign-decimal : (n : ℕ) → n < 2 ^ 63 → scan_sign (skip_spaces (decimal n)) ≡ some (pos n)
scan_sign-decimal n h =
    let (c, r, e, d) = decimal_head n in
    rw e (scan_sign-digits c r n d (rw e at (digits_run-decimal n)) (rw e at (value-decimal n)) h)

scan_lag-lag_name : (n : ℕ) → n < 2 ^ 63 → scan_lag (lag_name (pos n)) ≡ some (pos n)
unfolding scan_lag lag_name itoa ℕ_discrete
scan_lag-lag_name n h = scan_sign-decimal n h

in_int64-pos : (b : Bool) (m n : ℕ) → in_int64 b m ≡ some (pos n) → n < 2 ^ 63
unfolding in_int64
in_int64-pos b m n h = ground arith

scan_digits-pos : (b : Bool) (cs : Text) (n : ℕ) → scan_digits b cs ≡ some (pos n) → n < 2 ^ 63
unfolding scan_digits
scan_digits-pos b [] n h = absurd (ground arith)
scan_digits-pos b (c ∷ cs) n h = in_int64-pos b (value (c ∷ cs)) n h

scan_sign-pos : (cs : Text) (n : ℕ) → scan_sign cs ≡ some (pos n) → n < 2 ^ 63
unfolding scan_sign
scan_sign-pos [] n h = absurd (ground arith)
scan_sign-pos (c ∷ cs) n h = ground (
  arith,
  scan_digits-pos true (digits_run cs) n,
  scan_digits-pos false (digits_run cs) n,
  scan_digits-pos false (digits_run (c ∷ cs)) n,
)

scan_lag-pos : (cs : Text) (n : ℕ) → scan_lag cs ≡ some (pos n) → n < 2 ^ 63
unfolding scan_lag
scan_lag-pos [] n h = absurd (ground arith)
scan_lag-pos (p ∷ []) n h = absurd (ground arith)
scan_lag-pos (p ∷ o ∷ rest) n h = ground (arith, scan_sign-pos (skip_spaces rest) n)

scanned_lag :
    (name : Text) (n : ℕ)
    → scan_lag name ≡ some (pos n)
    → 1 ≤ n
    → name ≡ lag_name (pos n)
    → valid_lag_name name ≡ ok tt
unfolding valid_lag_name
scanned_lag name n e low same = rw (e, valid_lag_name) (ground arith)

-- A LAG name is accepted exactly when it is "po" and the canonical decimal digits of a number from 1
-- to 2 ^ 63 - 1: no sign, no spaces, no leading zeros and nothing behind the number.
pub valid_lag_name_iff :
    (name : Text)
    → (valid_lag_name name ≡ ok tt) ↔ ((n : ℕ) × (1 ≤ n) × (n < 2 ^ 63) × (name ≡ lag_name (pos n)))
unfolding valid_lag_name
valid_lag_name_iff name = (
  λ h.
      let (n, low, e, same) = accepted name (scan_lag name) h in
      (n, low, scan_lag-pos name n e, same),
  λ (n, low, high, same). scanned_lag name n (ap scan_lag same ∙ scan_lag-lag_name n high) low same,
)
