-- ===== src/Vercmp/Examples.antt =====
-- Versions as packages have them.
use nosaic_switch.Base.{◌≡◌, refl, some, Text, text, ℕ_discrete, nat_eq, arith}
use nosaic_switch.Base.Int.{int_eq, ℤ-discrete}
use nosaic_switch.Base.Decimal.{value_from}
use nosaic_switch.Vercmp.{
  less, compare, cut_dash, split_dots, compare_parts, compare_part, atoi, int_of, natural_compare,
  natural_loop, take_run, compare_numeric, compare_text, trim_zeros, compare_int,
}
use nosaic_switch.Vercmp.Order.{flip, flip-compare, natural_loop-natural_compare}

-- There is nothing to trim.
abbrev plain : Text → Text
plain v = v

ten_is_newer : compare plain (text "1.9") (text "1.10") ≡ less
unfolding compare cut_dash split_dots compare_parts compare_part atoi int_of compare_int
    natural_compare natural_loop value_from ℤ-discrete ℕ_discrete
ten_is_newer = refl

candidate_is_older : compare plain (text "1.0-rc2") (text "1.0-rc10") ≡ less
unfolding compare cut_dash split_dots compare_parts compare_part atoi int_of compare_int
    natural_compare natural_loop take_run compare_numeric compare_text trim_zeros value_from
    ℤ-discrete ℕ_discrete
candidate_is_older = refl

flip-compare_example :
    compare plain (text "1.0-rc2") (text "1.0") ≡ flip (compare plain (text "1.0") (text "1.0-rc2"))
flip-compare_example = flip-compare plain (text "1.0") (text "1.0-rc2")

natural_loop-natural_compare_example :
    natural_loop 8 (text "rc2") (text "rc10") ≡ some (natural_compare (text "rc2") (text "rc10"))
natural_loop-natural_compare_example =
    natural_loop-natural_compare 8 (text "rc2") (text "rc10") (omega arith)
