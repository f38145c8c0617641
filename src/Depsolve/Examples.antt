-- ===== src/Depsolve/Examples.antt =====
-- A small tree of packages, and a TrimSpace for ASCII.
use nosaic_switch.Base.{
  nat_eq, ℕ_discrete, true, ◌&&◌, [], ◌∷◌, ◌++◌, if◌then◌else◌, Text, Text-discrete, text, text_eq,
  ◌≡◌, ◌≢◌, refl, ap, ◌∙◌, inl, inr, arith,
}
use nosaic_switch.Base.Members.{In}
use nosaic_switch.Base.Map.{lookup, insert}
use nosaic_switch.Base.Int.{ℤ-discrete}
use nosaic_switch.Base.Decimal.{value_from}
use nosaic_switch.Base.White.{is_blank, is_white}
use nosaic_switch.Base.Exec.{ok, err}
use nosaic_switch.Base.Sort.{sort, insert_sorted, text_le}
use nosaic_switch.Vercmp.{
  compare, cut_dash, split_dots, compare_parts, compare_part, atoi, int_of, compare_int,
}
use nosaic_switch.Depsolve.Require.{
  Pkg, Requirement, out_of_fuel, conflict, render, strip, split_at, scan_operators,
  parse_requirement, satisfied,
}
use nosaic_switch.Depsolve.Require.Print.{ends_in_mark, starts_in_mark, IsTight, TrimLaws}
use nosaic_switch.Depsolve.Require.Roundtrip.{parse_requirement-render}
use nosaic_switch.Depsolve.Resolve.{
  index, occurrences, providers_of, package_of, resolve_name, visit_each, visit, name_all, is_taken,
  provide, provide_all, clash, clash_all, check_conflicts, visit_roots, resolve,
}
use nosaic_switch.Depsolve.Resolve.Ends.{resolve-ends}
use nosaic_switch.Depsolve.Resolve.Order.{Needed, Met, IsOrder}
use nosaic_switch.Depsolve.Resolve.Closure.{resolve-IsOrder}

unfoldable drop_white : Text → Text
drop_white [] = []
drop_white (c ∷ s) = let rest = drop_white s in if is_white c then rest else c ∷ s

unfoldable drop_end : Text → Text
drop_end [] = []
drop_end (c ∷ s) = let rest = drop_end s in if is_blank rest && is_white c then [] else c ∷ rest

unfoldable ascii_trim : Text → Text
unfolding drop_white drop_end
ascii_trim s = drop_white (drop_end s)

drop_white_tight : (s : Text) → starts_in_mark s ≡ true → drop_white s ≡ s
unfolding drop_white
drop_white_tight [] h = refl
drop_white_tight (c ∷ s) h = ground (arith, h)

drop_end_tight : (s : Text) → ends_in_mark s ≡ true → drop_end s ≡ s
unfolding drop_end
drop_end_tight [] h = refl
drop_end_tight (c ∷ []) h = ground (arith, h)
drop_end_tight (c ∷ d ∷ s) h = rw (drop_end_tight (d ∷ s) h) refl

drop_end_space : (s : Text) → ends_in_mark s ≡ true → drop_end (s ++ (b' ' ∷ [])) ≡ s
unfolding drop_end
drop_end_space [] h = ground (arith, h)
drop_end_space (c ∷ []) h = ground (arith, h)
drop_end_space (c ∷ d ∷ s) h = rw (drop_end_space (d ∷ s) h) refl

drop_both : (s : Text) → IsTight s → drop_white (drop_end (b' ' ∷ s)) ≡ s
unfolding drop_white ℕ_discrete
drop_both [] t = absurd (ground (arith, t.0))
drop_both (c ∷ s) t =
    ap drop_white (drop_end_tight (b' ' ∷ c ∷ s) t.1) ∙ drop_white_tight (c ∷ s) t.0

ascii_trim_laws : TrimLaws ascii_trim
unfolding ascii_trim
ascii_trim_laws = record {
  tight = λ s t. ap drop_white (drop_end_tight s t.1) ∙ drop_white_tight s t.0;
  space_before = drop_both;
  space_after = λ s t. ap drop_white (drop_end_space s t.1) ∙ drop_white_tight s t.0;
}

abbrev zlib : Pkg
zlib = record {
  name = text "zlib";
  version = text "1.10";
  provides = text "z" ∷ [];
  conflicts = [];
  depends = [];
}

abbrev curl : Pkg
curl = record {
  name = text "curl";
  version = text "8";
  provides = [];
  conflicts = [];
  depends = text "z >= 1.9" ∷ [];
}

abbrev tool : Pkg
tool = record {
  name = text "tool";
  version = text "1";
  provides = [];
  conflicts = [];
  depends = text "zlib" ∷ text "curl" ∷ [];
}

in_order :
    resolve ascii_trim (tool ∷ curl ∷ zlib ∷ []) (text "tool" ∷ []) ≡ ok (zlib ∷ curl ∷ tool ∷ [])
unfolding resolve index lookup insert visit_roots visit_each visit parse_requirement scan_operators
    split_at strip satisfied compare cut_dash split_dots compare_parts compare_part atoi int_of
    compare_int value_from ℤ-discrete ℕ_discrete Text-discrete resolve_name providers_of occurrences
    package_of sort insert_sorted text_le check_conflicts name_all provide_all provide is_taken
    clash_all clash ascii_trim drop_white drop_end
in_order = refl

-- A package that conflicts with a name and provides it too is selected beside the package of that name:
-- checkConflicts takes it for the holder.
abbrev fake : Pkg
fake = record {
  name = text "fake";
  version = text "1";
  provides = text "zlib" ∷ [];
  conflicts = text "zlib" ∷ [];
  depends = [];
}

conflict_unseen : check_conflicts (zlib ∷ fake ∷ []) ≡ ok tt
unfolding check_conflicts name_all provide_all provide is_taken clash_all clash lookup insert
    Text-discrete ℕ_discrete
conflict_unseen = refl

-- The other way round it is seen.
conflict_seen :
    check_conflicts (
      record {
        name = text "old";
        version = [];
        provides = [];
        conflicts = text "zlib" ∷ [];
        depends = [];
      }
      ∷ zlib
      ∷ [])
    ≡ err (conflict (text "old") (text "zlib") (text "zlib"))
unfolding check_conflicts name_all provide_all provide is_taken clash_all clash lookup insert
    Text-discrete ℕ_discrete
conflict_seen = refl

abbrev knot : Pkg
knot = record {
  name = text "knot";
  version = text "1";
  provides = [];
  conflicts = [];
  depends = text "knot" ∷ [];
}

resolve-ends_example : resolve ascii_trim (knot ∷ []) (text "knot" ∷ []) ≢ err out_of_fuel
resolve-ends_example = resolve-ends ascii_trim (knot ∷ []) (text "knot" ∷ [])

resolve-IsOrder_example :
    IsOrder ascii_trim (tool ∷ curl ∷ zlib ∷ []) [] (zlib ∷ curl ∷ tool ∷ [])
    × ((p : Pkg)
        → In p (zlib ∷ curl ∷ tool ∷ [])
        → Needed ascii_trim (tool ∷ curl ∷ zlib ∷ []) (text "tool" ∷ []) p)
    × ((d : Text)
        → In d (text "tool" ∷ [])
        → Met ascii_trim (tool ∷ curl ∷ zlib ∷ []) (zlib ∷ curl ∷ tool ∷ []) d)
resolve-IsOrder_example =
    resolve-IsOrder ascii_trim (tool ∷ curl ∷ zlib ∷ []) (text "tool" ∷ [])
      (zlib ∷ curl ∷ tool ∷ []) in_order

abbrev json_c : Requirement
json_c = record { name = text "json-c"; op = text ">="; version = text "0.17" }

parse_requirement-render_example : parse_requirement ascii_trim (render json_c) ≡ ok json_c
unfolding ℕ_discrete
parse_requirement-render_example = parse_requirement-render ascii_trim ascii_trim_laws json_c (
  (refl, refl),
  (refl, (refl, (refl, (refl, (refl, (refl, tt)))))),
  refl,
  inr (inl refl, (refl, refl), (refl, (refl, (refl, (refl, tt))))),
)
