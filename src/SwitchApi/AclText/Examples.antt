-- ===== src/SwitchApi/AclText/Examples.antt =====
-- A rule with every match but a port, and a text library that knows one prefix.
use nosaic_switch.Base.{
  nat_eq, ℕ, ℕ_discrete, true, false, none, some, List, [], ◌∷◌, ◌++◌, if◌then◌else◌, ◌==◌, Text,
  Text-discrete, text, text_eq, All, contains, ◌≡◌, refl, sym, ap, ◌∙◌, subst, inl, inr, arith,
  Bool-cases, ==_iff,
}
use mathlib.Core.List.{append-nil}
use nosaic_switch.Base.Int.{ℤ-discrete, pos, int_eq}
use nosaic_switch.Base.Exec.{ok}
use nosaic_switch.Base.White.{IsWord, is_white, is_mark}
use nosaic_switch.SwitchApi.Address.{is6, Prefix, no_prefix, v4}
use nosaic_switch.SwitchApi.Acl.{validate, deny, AclRule, acl_any, lacks_l4}
use nosaic_switch.SwitchApi.AclText.{NetText, spaced, parse_acl_rule, acl_string}
use nosaic_switch.SwitchApi.AclText.Words.{is_word, is_word_lem}
use nosaic_switch.SwitchApi.AclText.Reads.{IsReadable, IsWritten}
use nosaic_switch.SwitchApi.AclText.Families.{FamilyLaws, some-inj}
use nosaic_switch.SwitchApi.AclText.Accepted.{parse_acl_rule-validate}
use nosaic_switch.SwitchApi.AclText.Roundtrip.{FieldsLaw, parse_acl_rule-acl_string}

-- One more byte of the first word.
abbrev onto_first : ℕ → List Text → List Text
onto_first c [] = (c ∷ []) ∷ []
onto_first c (w ∷ ws) = (c ∷ w) ∷ ws

unfoldable split_white : Text → List Text
split_white [] = [] ∷ []
split_white (c ∷ s) =
    let rest = split_white s in if is_white c then [] ∷ rest else onto_first c rest

abbrev keep_word : Text → List Text → List Text
keep_word [] ws = ws
keep_word (c ∷ w) ws = (c ∷ w) ∷ ws

unfoldable no_blanks : List Text → List Text
no_blanks [] = []
no_blanks (w ∷ ws) = keep_word w (no_blanks ws)

unfoldable ascii_fields : Text → List Text
unfolding split_white no_blanks
ascii_fields s = no_blanks (split_white s)

not_white : (c : ℕ) → is_mark c ≡ true → is_white c ≡ false
not_white c h = ground (arith, h)

split_word :
    (w : Text) (s : Text)
    → All (λ c. is_mark c ≡ true) w
    → split_white (w ++ (b' ' ∷ s)) ≡ w ∷ split_white s
unfolding split_white ℕ_discrete
split_word [] s h = refl
split_word (c ∷ w) s h =
    ap
      (λ b.
        if b
        then [] ∷ split_white (w ++ (b' ' ∷ s))
        else onto_first c (split_white (w ++ (b' ' ∷ s))))
      (not_white c h.0)
    ∙ ap (onto_first c) (split_word w s h.1)

split_last : (w : Text) → All (λ c. is_mark c ≡ true) w → split_white w ≡ w ∷ []
unfolding split_white
split_last [] h = refl
split_last (c ∷ w) h =
    ap (λ b. if b then [] ∷ split_white w else onto_first c (split_white w)) (not_white c h.0)
    ∙ ap (onto_first c) (split_last w h.1)

split_spaced :
    (w : Text) (ws : List Text) → IsWord w → All IsWord ws → split_white (w ++ spaced ws) ≡ w ∷ ws
split_spaced w [] h k = ap split_white (append-nil w) ∙ split_last w h.1
split_spaced w (v ∷ ws) h k =
    split_word w (v ++ spaced ws) h.1 ∙ ap (λ vs. w ∷ vs) (split_spaced v ws k.0 k.1)

no_blanks_words : (ws : List Text) → All IsWord ws → no_blanks ws ≡ ws
unfolding no_blanks
no_blanks_words [] h = refl
no_blanks_words ([] ∷ ws) h = absurd (ground (arith, h.0.0))
no_blanks_words ((c ∷ w) ∷ ws) h = ap (λ vs. (c ∷ w) ∷ vs) (no_blanks_words ws h.1)

abbrev lan : Prefix
lan = record { addr = v4 167772160; bits_plus_one = 9 }

abbrev one_prefix : NetText
one_prefix = record {
  fields = ascii_fields;
  parse_addr = λ s. none;
  parse_prefix = λ s. if s == text "10.0.0.0/8" then some lan else none;
  host_prefix = λ a. no_prefix;
  masked = λ p. p;
  prefix_string = λ p. text "10.0.0.0/8";
}

fields_law : FieldsLaw one_prefix
unfolding ascii_fields
fields_law w ws h k = ap no_blanks (split_spaced w ws h k) ∙ no_blanks_words (w ∷ ws) (h, k)

abbrev web : AclRule
web = record {
  seq = pos 10;
  family = pos 4;
  action = deny;
  in_port = [];
  proto = pos 6;
  src = lan;
  dst = no_prefix;
  src_port = acl_any;
  dst_port = pos 443;
}

lan-IsReadable : IsReadable one_prefix lan
unfolding is_word ℕ_discrete Text-discrete
lan-IsReadable = record {
  valid = refl;
  slash = refl;
  colon = refl;
  reads = refl;
  is_masked = refl;
  word = is_word_lem (text "10.0.0.0/8") refl;
}

web-IsWritten : IsWritten one_prefix web
unfolding lacks_l4 ℤ-discrete ℕ_discrete
web-IsWritten = record {
  seq = refl;
  family = inl refl;
  in_port = inl refl;
  proto = inr (6, refl, omega arith);
  src = inr (lan-IsReadable, refl);
  dst = inl refl;
  src_port = inl refl;
  dst_port = inr (443, refl, omega arith);
  l4 = refl;
}

parse_acl_rule-acl_string_example :
    parse_acl_rule one_prefix (pos 10) (acl_string one_prefix web) ≡ ok web
parse_acl_rule-acl_string_example =
    parse_acl_rule-acl_string one_prefix fields_law web web-IsWritten

one_prefix_families : FamilyLaws one_prefix
unfolding Text-discrete ℕ_discrete
one_prefix_families = record {
  of_addr = λ s a e. absurd (ground (arith, e));
  of_prefix = λ s p e. elim (Bool-cases (s == text "10.0.0.0/8")) [
    | inl same ↦
        let found : some lan ≡ some p = ap (λ b. if b then some lan else none) (sym same) ∙ e in
        subst (λ q. is6 q.addr ≡ contains s b':') (some-inj found)
          (subst (λ t. false ≡ contains t b':') (sym ((==_iff s (text "10.0.0.0/8")).0 same)) refl)
    | inr other ↦ absurd (ground (arith, e, other))
  ];
}

parse_acl_rule-validate_example : (web.seq ≡ pos 10) × (validate web (some (λ name. false)) ≡ ok tt)
parse_acl_rule-validate_example =
    parse_acl_rule-validate one_prefix one_prefix_families (pos 10) (acl_string one_prefix web) web
      (λ name. false) (parse_acl_rule-acl_string one_prefix fields_law web web-IsWritten) (inl refl)
