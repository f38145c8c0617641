-- ===== src/SwitchApi/AclText/Words.antt =====
-- How ParseACLRule (internal/switchapi/acl.go) reads the keywords that String writes, one at a time.
use nosaic_switch.Base.{
  nat_eq, ℕ, ◌<◌, ◌≤◌, ◌^◌, Bool, true, false, not, ◌&&◌, none, some, [], ◌∷◌, if◌then◌else◌, ◌==◌,
  Text, Text-discrete, ℕ_discrete, text, text_eq, All, ◌≡◌, refl, sym, ap, ◌∙◌, subst, inl, inr,
  arith, Bool-cases, Option-cases, ==_iff,
}
use nosaic_switch.Base.Int.{ℤ, pos, int_eq}
use nosaic_switch.Base.Map.{Map, lookup}
use nosaic_switch.Base.Decimal.{
  itoa, decimal, is_digit, IsDigit, value, decimal_head, decimal-All, value-decimal,
}
use nosaic_switch.Base.Exec.{ok}
use nosaic_switch.Base.White.{IsWord, is_mark, is_blank}
use nosaic_switch.Vercmp.{atoi, int_of, all_digits}
use nosaic_switch.SwitchApi.AclText.{
  ParseError, not_protocol, acl_protocols, proto_name_in, acl_proto_name, number_to, l4_port,
  proto_number,
}

all_digits-All : (xs : Text) → All IsDigit xs → all_digits xs ≡ true
all_digits-All [] h = refl
all_digits-All (x ∷ xs) h = ground (arith, h.0, all_digits-All xs h.1)

int_of_digits :
    (c : ℕ) (cs : Text)
    → all_digits (c ∷ cs) ≡ true
    → value (c ∷ cs) < 2 ^ 63
    → int_of false (c ∷ cs) ≡ some (pos (value (c ∷ cs)))
unfolding int_of
int_of_digits c cs h l = ground (arith, h, l)

atoi_digits : (c : ℕ) (cs : Text) → is_digit c ≡ true → atoi (c ∷ cs) ≡ int_of false (c ∷ cs)
unfolding atoi
atoi_digits c cs h = ground (arith, h)

-- Atoi reads what Itoa writes.
pub atoi-itoa : (n : ℕ) → n < 2 ^ 63 → atoi (itoa (pos n)) ≡ some (pos n)
unfolding itoa
atoi-itoa n h =
    let (c, cs, e, d) = decimal_head n in
    let digits : all_digits (c ∷ cs) ≡ true =
      subst (λ t. all_digits t ≡ true) e (all_digits-All (decimal n) (decimal-All n)) in
    let is_n : value (c ∷ cs) ≡ n = ap value (sym e) ∙ value-decimal n in
    ap atoi e
    ∙ atoi_digits c cs d
    ∙ int_of_digits c cs digits (omega (arith, is_n, h))
    ∙ ap (λ m. some (pos m)) is_n

pub number_to_lem :
    (high n : ℕ) (e : ParseError) → n ≤ high → number_to (pos high) e (some (pos n)) ≡ ok (pos n)
number_to_lem high n e h = ground (arith, h)

pub l4_port-itoa : (n : ℕ) → n ≤ 65535 → l4_port (itoa (pos n)) ≡ ok (pos n)
unfolding l4_port
l4_port-itoa n h =
    ap (number_to (pos 65535) _) (atoi-itoa n (omega (arith, h))) ∙ number_to_lem 65535 n _ h

-- What is found for a number is one of the names, for that number.
proto_name_in_lem :
    (P : Text → ℤ → Type 0) (n : ℤ) (ps : Map Text ℤ) (name : Text)
    → All (λ (x : Text × ℤ). P x.0 x.1) ps
    → proto_name_in n ps ≡ some name
    → P name n
unfolding proto_name_in
proto_name_in_lem P n [] name h e = absurd (ground (arith, e))
proto_name_in_lem P n ((k, v) ∷ ps) name h e =
    elim (Bool-cases (v == n && not (k == text "icmp6"))) [
      | inr other ↦
          proto_name_in_lem P n ps name h.1
            (ap (λ b. if b then some k else proto_name_in n ps) (sym other) ∙ e)
      | inl this ↦
          let same : (v == n) ≡ true = ground (arith, this) in
          let here : some k ≡ some name =
            ap (λ b. if b then some k else proto_name_in n ps) (sym this) ∙ e in
          let is_name : k ≡ name = cc in
          subst (λ x. P x n) is_name (subst (P k) ((==_iff v n).0 same) h.0)
    ]

-- A name among the protocols: a word, and the map has it for its number.
abbrev IsProtocol : Text → ℤ → Type 0
IsProtocol name n = (lookup name acl_protocols ≡ some n) × IsWord name

unfoldable pub is_word : Text → Bool
is_word [] = false
is_word (c ∷ []) = is_mark c
is_word (c ∷ d ∷ w) = is_mark c && is_word (d ∷ w)

pub is_word_lem : (w : Text) → is_word w ≡ true → IsWord w
unfolding is_word
is_word_lem [] h = absurd (ground (arith, h))
is_word_lem (c ∷ []) h = (refl, (h, tt))
is_word_lem (c ∷ d ∷ w) h = (
  refl,
  (
    (let a : is_mark c ≡ true = ground (arith, h) in a),
    (is_word_lem (d ∷ w) (ground (arith, h))).1,
  ),
)

protocols_held : All (λ (x : Text × ℤ). IsProtocol x.0 x.1) acl_protocols
unfolding lookup Text-discrete ℕ_discrete is_word
protocols_held =
    let w : (name : Text) → is_word name ≡ true → IsWord name = is_word_lem in
    (
      (refl, w (text "icmp") refl),
      (
        (refl, w (text "igmp") refl),
        (
          (refl, w (text "tcp") refl),
          (
            (refl, w (text "udp") refl),
            (
              (refl, w (text "gre") refl),
              (
                (refl, w (text "esp") refl),
                (
                  (refl, w (text "ah") refl),
                  (
                    (refl, w (text "icmpv6") refl),
                    (
                      (refl, w (text "icmp6") refl),
                      (
                        (refl, w (text "ospf") refl),
                        ((refl, w (text "vrrp") refl), ((refl, w (text "sctp") refl), tt)),
                      ),
                    ),
                  ),
                ),
              ),
            ),
          ),
        ),
      ),
    )

abbrev starts_plain : Text → Bool
starts_plain [] = true
starts_plain (c ∷ _) = not (is_digit c)

lookup_digits :
    (c : ℕ) (cs : Text) (ps : Map Text ℤ)
    → is_digit c ≡ true
    → All (λ (x : Text × ℤ). starts_plain x.0 ≡ true) ps
    → lookup (c ∷ cs) ps ≡ none
unfolding lookup
lookup_digits c cs [] d h = refl
lookup_digits c cs ((k, v) ∷ ps) d h = elim (Bool-cases (k == (c ∷ cs))) [
  | inl same ↦ absurd (
      let p : starts_plain (c ∷ cs) ≡ true =
        subst (λ t. starts_plain t ≡ true) ((==_iff k (c ∷ cs)).0 same) h.0 in
      ground (arith, p, d))
  | inr other ↦
      ap (λ b. if b then some v else lookup (c ∷ cs) ps) other ∙ lookup_digits c cs ps d h.1
]

digits_mark : (xs : Text) → All IsDigit xs → All (λ c. is_mark c ≡ true) xs
digits_mark [] h = tt
digits_mark (x ∷ xs) h = ((let d = h.0 in ground arith), digits_mark xs h.1)

pub itoa-IsWord : (n : ℕ) → IsWord (itoa (pos n))
unfolding itoa
itoa-IsWord n =
    let (c, cs, e, d) = decimal_head n in (ap is_blank e, digits_mark (decimal n) (decimal-All n))

itoa-no_protocol : (n : ℕ) → lookup (itoa (pos n)) acl_protocols ≡ none
unfolding itoa
itoa-no_protocol n =
    let (c, cs, e, d) = decimal_head n in
    ap (λ t. lookup t acl_protocols) e
    ∙ lookup_digits c cs acl_protocols d (
      refl,
      (refl, (refl, (refl, (refl, (refl, (refl, (refl, (refl, (refl, (refl, (refl, tt))))))))))),
    )

-- The word for a protocol is read back as its number.
pub acl_proto_name_lem :
    (n : ℕ)
    → n ≤ 255
    → (proto_number (acl_proto_name (pos n)) ≡ ok (pos n)) × IsWord (acl_proto_name (pos n))
unfolding acl_proto_name proto_number
acl_proto_name_lem n h = elim (Option-cases (proto_name_in (pos n) acl_protocols)) [
  | inr (name, e) ↦
      let (held, w) = proto_name_in_lem IsProtocol (pos n) acl_protocols name protocols_held e in
      subst Reads (sym (ap (λ o. elim o [ some x ↦ x | none ↦ itoa (pos n) ]) e)) (
        ap
            (λ o. elim o [
              | some x ↦ ok x
              | none ↦ number_to (pos 255) (not_protocol name) (atoi name)
            ])
            held,
        w,
      )
  | inl e ↦
      let word = itoa (pos n) in
      subst Reads (sym (ap (λ o. elim o [ some x ↦ x | none ↦ word ]) e)) (
        ap
              (λ o. elim o [
                | some x ↦ ok x
                | none ↦ number_to (pos 255) (not_protocol word) (atoi word)
              ])
              (itoa-no_protocol n)
            ∙ ap (number_to (pos 255) (not_protocol word)) (atoi-itoa n (omega (arith, h)))
            ∙ number_to_lem 255 n _ h,
        itoa-IsWord n,
      )
]
  where
    Reads : Text → Type 0
    Reads t = (proto_number t ≡ ok (pos n)) × IsWord t
