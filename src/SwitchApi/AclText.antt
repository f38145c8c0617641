-- ===== src/SwitchApi/AclText.antt =====
-- The text form of access-list rules: ParseACLRule and String of internal/switchapi/acl.go. The rule
-- that comes back beside an error is left out.
pub mod Words
pub mod Reads
pub mod Segments
pub mod Roundtrip
pub mod Families
pub mod Accepted
pub mod Examples
use nosaic_switch.Base.{
  nat_eq, Bool, true, false, not, ◌&&◌, ◌||◌, Option, none, some, List, [], ◌∷◌, ◌++◌,
  if◌then◌else◌, ◌==◌, Text, text, text_eq, contains,
}
use nosaic_switch.Base.Int.{ℤ, pos, int_eq, ltb_ℤ}
use nosaic_switch.Base.Map.{Map, lookup}
use nosaic_switch.Base.Decimal.{itoa}
use nosaic_switch.Base.Exec.{Result, ok, err}
use nosaic_switch.Vercmp.{atoi}
use nosaic_switch.SwitchApi.Address.{Addr, Prefix, no_prefix, is_valid}
use nosaic_switch.SwitchApi.Acl.{AclAction, permit, deny, AclRule, acl_any, acl_max_seq, lacks_l4}

-- strings.Fields, and netip's ParseAddr, ParsePrefix, PrefixFrom with the address's own length,
-- Prefix.Masked and Prefix.String.
pub record NetText : Type 0 where
  pub fields : Text → List Text
  pub parse_addr : Text → Option Addr
  pub parse_prefix : Text → Option Prefix
  pub host_prefix : Addr → Prefix
  pub masked : Prefix → Prefix
  pub prefix_string : Prefix → Text

-- One constructor for each message, with the words that it shows.
pub data ParseError : Type 0 where
  bad_sequence : ℤ → ParseError
  empty_rule needs_l4 : ParseError
  no_action not_l4_port not_protocol needs_value not_keyword : Text → ParseError
  other_family : Text → ℤ → ℤ → ParseError
  not_prefix : Text → ℤ → ParseError

abbrev pub acl_protocols : Map Text ℤ
acl_protocols =
    (text "icmp", pos 1)
    ∷ (text "igmp", pos 2)
    ∷ (text "tcp", pos 6)
    ∷ (text "udp", pos 17)
    ∷ (text "gre", pos 47)
    ∷ (text "esp", pos 50)
    ∷ (text "ah", pos 51)
    ∷ (text "icmpv6", pos 58)
    ∷ (text "icmp6", pos 58)
    ∷ (text "ospf", pos 89)
    ∷ (text "vrrp", pos 112)
    ∷ (text "sctp", pos 132)
    ∷ []

-- The loop of aclProtoName. One name only is left for each number, so the map's order shows nowhere.
unfoldable pub proto_name_in : ℤ → Map Text ℤ → Option Text
proto_name_in n [] = none
proto_name_in n ((name, v) ∷ rest) =
    let later = proto_name_in n rest in
    if v == n && not (name == text "icmp6") then some name else later

unfoldable pub acl_proto_name : ℤ → Text
unfolding proto_name_in
acl_proto_name n = elim (proto_name_in n acl_protocols) [ some name ↦ name | none ↦ itoa n ]

-- ACLAction.String
abbrev pub action_word : AclAction → Text
action_word permit = text "permit"
action_word deny = text "deny"

abbrev pub action_of : Text → Option AclAction
action_of w =
    if w == text "permit" then some permit else if w == text "deny" then some deny else none

-- The rule so far, and the family that its words gave; 0 is none.
pub record Partial : Type 0 where
  pub rule : AclRule
  pub family : ℤ

-- setFamily
unfoldable pub set_family : ℤ → Text → Partial → Result ParseError Partial
set_family fam why s =
    if s.family == pos 0 || s.family == fam
    then ok (record { rule = s.rule; family = fam })
    else err (other_family why fam s.family)

-- A number from 0 to `high`, or the error.
abbrev pub number_to : ℤ → ParseError → Option ℤ → Result ParseError ℤ
number_to high e none = err e
number_to high e (some n) = if ltb_ℤ n (pos 0) || ltb_ℤ high n then err e else ok n

-- l4
unfoldable pub l4_port : Text → Result ParseError ℤ
l4_port s = number_to (pos 65535) (not_l4_port s) (atoi s)

unfoldable pub proto_number : Text → Result ParseError ℤ
proto_number arg = elim (lookup arg acl_protocols) [
  | some n ↦ ok n
  | none ↦ number_to (pos 255) (not_protocol arg) (atoi arg)
]

abbrev pub with_in_port : Text → Partial → Partial
with_in_port name s = record { rule = record s.rule { in_port = name }; family = s.family }

abbrev pub with_proto : ℤ → Partial → Partial
with_proto n s = record { rule = record s.rule { proto = n }; family = s.family }

abbrev pub with_src : Prefix → Partial → Partial
with_src p s = record { rule = record s.rule { src = p }; family = s.family }

abbrev pub with_dst : Prefix → Partial → Partial
with_dst p s = record { rule = record s.rule { dst = p }; family = s.family }

abbrev pub with_src_port : ℤ → Partial → Partial
with_src_port n s = record { rule = record s.rule { src_port = n }; family = s.family }

abbrev pub with_dst_port : ℤ → Partial → Partial
with_dst_port n s = record { rule = record s.rule { dst_port = n }; family = s.family }

abbrev pub after_number : Result ParseError ℤ → (ℤ → Partial) → Result ParseError Partial
after_number (err e) f = err e
after_number (ok n) f = ok (f n)

-- The words that name a family.
abbrev pub family_word : Text → Option ℤ
family_word w =
    if w == text "ipv4" || w == text "ip"
    then some (pos 4)
    else if w == text "ipv6" || w == text "ip6"
    then some (pos 6)
    else none

-- Behind the loop: the family, and what L4 ports need.
unfoldable pub finish_rule : Partial → Result ParseError AclRule
finish_rule s =
    let r = record s.rule { family = if s.family == pos 0 then pos 4 else s.family } in
    if lacks_l4 r then err needs_l4 else ok r

abbrev pub start_rule : ℤ → AclAction → Partial
start_rule seq action = record {
  rule = record {
    seq = seq;
    family = pos 0;
    action = action;
    in_port = [];
    proto = acl_any;
    src = no_prefix;
    dst = no_prefix;
    src_port = acl_any;
    dst_port = acl_any;
  };
  family = pos 0;
}

-- A word behind a blank each.
abbrev pub spaced : List Text → Text
spaced [] = []
spaced (w ∷ ws) = b' ' ∷ (w ++ spaced ws)

-- A keyword and its value, where the test says that there is one.
abbrev pub words_if : Bool → Text → Text → List Text
words_if true w arg = w ∷ arg ∷ []
words_if false w arg = []

module _ (net : NetText) where
  -- parsePrefixLoose
  unfoldable pub parse_prefix_loose : Text → Option Prefix
  parse_prefix_loose s =
      if not (contains s b'/')
      then elim (net.parse_addr s) [ none ↦ none | some a ↦ some (net.host_prefix a) ]
      else elim (net.parse_prefix s) [ none ↦ none | some p ↦ some (net.masked p) ]

  -- "src" and "dst"
  unfoldable pub match_prefix :
      (Prefix → Partial → Partial) → Text → Partial → Result ParseError Partial
  unfolding parse_prefix_loose set_family
  match_prefix put arg s =
      let fam = if contains arg b':' then pos 6 else pos 4 in
      elim (set_family fam arg s) [
        | err e ↦ err e
        | ok t ↦ elim (parse_prefix_loose arg) [
          | none ↦ err (not_prefix arg fam)
          | some p ↦ ok (put p t)
        ]
      ]

  -- The switch over the words that take a value.
  unfoldable pub match_word : Text → Text → Partial → Result ParseError Partial
  unfolding match_prefix proto_number l4_port
  match_word w arg s =
      if w == text "in"
      then ok (with_in_port arg s)
      else if w == text "proto"
      then after_number (proto_number arg) (λ n. with_proto n s)
      else if w == text "src"
      then match_prefix with_src arg s
      else if w == text "dst"
      then match_prefix with_dst arg s
      else if w == text "sport"
      then after_number (l4_port arg) (λ n. with_src_port n s)
      else if w == text "dport"
      then after_number (l4_port arg) (λ n. with_dst_port n s)
      else err (not_keyword w)

  -- The loop over the words.
  unfoldable pub match_words : List Text → Partial → Result ParseError Partial
  unfolding set_family match_word
  match_words [] s = ok s
  match_words (w ∷ []) s = elim (family_word w) [
    | some fam ↦ set_family fam w s
    | none ↦ err (needs_value w)
  ]
  match_words (w ∷ arg ∷ ws) s = elim (family_word w) [
    | some fam ↦ elim (set_family fam w s) [ err e ↦ err e | ok t ↦ match_words (arg ∷ ws) t ]
    | none ↦ elim (match_word w arg s) [ err e ↦ err e | ok t ↦ match_words ws t ]
  ]

  unfoldable pub parse_words : ℤ → List Text → Result ParseError AclRule
  unfolding match_words finish_rule
  parse_words seq [] = err empty_rule
  parse_words seq (w ∷ ws) = elim (action_of w) [
    | none ↦ err (no_action w)
    | some action ↦ elim (match_words ws (start_rule seq action)) [
      | err e ↦ err e
      | ok s ↦ finish_rule s
    ]
  ]

  -- ParseACLRule
  unfoldable pub parse_acl_rule : ℤ → Text → Result ParseError AclRule
  unfolding parse_words
  parse_acl_rule seq s =
      if ltb_ℤ seq (pos 1) || ltb_ℤ acl_max_seq seq
      then err (bad_sequence seq)
      else parse_words seq (net.fields s)

  unfoldable pub rule_words : AclRule → List Text
  rule_words r =
      (if r.family == pos 6 then text "ipv6" ∷ [] else [])
      ++ (words_if (not (r.in_port == [])) (text "in") r.in_port
          ++ (words_if (not (r.proto == acl_any)) (text "proto") (acl_proto_name r.proto)
              ++ (words_if (is_valid r.src) (text "src") (net.prefix_string r.src)
                  ++ (words_if (is_valid r.dst) (text "dst") (net.prefix_string r.dst)
                      ++ (words_if (not (r.src_port == acl_any)) (text "sport") (itoa r.src_port)
                          ++ words_if (not (r.dst_port == acl_any)) (text "dport")
                              (itoa r.dst_port))))))

  -- ACLRule.String
  unfoldable pub acl_string : AclRule → Text
  unfolding rule_words
  acl_string r = action_word r.action ++ spaced (rule_words r)
