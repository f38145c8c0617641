-- ===== src/SwitchApi/AclText/Roundtrip.antt =====
-- ParseACLRule reads back the rules that String writes (internal/switchapi/acl.go).
use nosaic_switch.Base.{
  nat_eq, ℕ, ◌≤◌, Bool, true, false, not, none, some, List, [], ◌∷◌, ◌++◌, if◌then◌else◌, ◌==◌,
  Text, Text-discrete, ℕ_discrete, text, text_eq, All, ◌≡◌, refl, sym, ap, ◌∙◌, subst, ◌⊎◌, inl,
  inr, arith,
}
use nosaic_switch.Base.Int.{ℤ, pos, int_eq}
use nosaic_switch.Base.Decimal.{itoa}
use nosaic_switch.Base.Exec.{ok, err}
use nosaic_switch.Base.White.{IsWord}
use nosaic_switch.SwitchApi.Address.{Prefix, is_valid}
use nosaic_switch.SwitchApi.Acl.{AclAction, permit, deny, AclRule, acl_any}
use nosaic_switch.SwitchApi.AclText.{
  NetText, bad_sequence, no_action, action_of, acl_proto_name, action_word, match_words,
  finish_rule, start_rule, parse_words, parse_acl_rule, spaced, words_if, rule_words, acl_string,
}
use nosaic_switch.SwitchApi.AclText.Reads.{IsNumber, IsMatch, IsWritten}
use nosaic_switch.SwitchApi.AclText.Words.{is_word, is_word_lem, itoa-IsWord, acl_proto_name_lem}
use nosaic_switch.SwitchApi.AclText.Segments.{numbered, match_words_lem, finish_rule_lem}

module _ (net : NetText) where
  -- What is documented of Fields: it splits at white space.
  abbrev pub FieldsLaw : Type 0
  FieldsLaw =
      (w : Text) (ws : List Text) → IsWord w → All IsWord ws → net.fields (w ++ spaced ws) ≡ w ∷ ws

  words_if-All :
      (b : Bool) (w arg : Text) → IsWord w → (b ≡ true → IsWord arg) → All IsWord (words_if b w arg)
  words_if-All true w arg h k = (h, (k refl, tt))
  words_if-All false w arg h k = tt

  All-number :
      (high : ℕ) (x : ℤ) (w : Text) (word : ℤ → Text)
      → IsWord w
      → ((n : ℕ) → n ≤ high → IsWord (word (pos n)))
      → IsNumber net high x
      → All IsWord (words_if (not (x == acl_any)) w (word x))
  All-number high x w word h f k =
      words_if-All (not (x == acl_any)) w (word x) h
        (λ t. let (n, e, l) = numbered high x k t in subst (λ y. IsWord (word y)) (sym e) (f n l))

  All-prefix :
      (family : ℤ) (p : Prefix) (w : Text)
      → IsWord w
      → IsMatch net family p
      → All IsWord (words_if (is_valid p) w (net.prefix_string p))
  All-prefix family p w h (inl e) =
      words_if-All (is_valid p) w (net.prefix_string p) h
        (λ t. absurd (let gone : is_valid p ≡ false = ap is_valid e in ground (arith, gone, t)))
  All-prefix family p w h (inr (k, six)) =
      words_if-All (is_valid p) w (net.prefix_string p) h (λ t. k.word)

  All-append : (xs ys : List Text) → All IsWord xs → All IsWord ys → All IsWord (xs ++ ys)
  All-append [] ys h k = k
  All-append (x ∷ xs) ys h k = (h.0, All-append xs ys h.1 k)

  All-family : (b : Bool) → All IsWord (if b then text "ipv6" ∷ [] else [])
  unfolding is_word ℕ_discrete
  All-family true = (is_word_lem (text "ipv6") refl, tt)
  All-family false = tt

  All-in_port :
      (name : Text)
      → (name ≡ []) ⊎ IsWord name
      → All IsWord (words_if (not (name == [])) (text "in") name)
  unfolding is_word ℕ_discrete
  All-in_port name h =
      words_if-All (not (name == [])) (text "in") name (is_word_lem (text "in") refl)
        (λ t. elim h [ inl e ↦ absurd (ground (arith, e, t)) | inr w ↦ w ])

  rule_words-All : (r : AclRule) → IsWritten net r → All IsWord (rule_words net r)
  unfolding rule_words is_word ℕ_discrete
  rule_words-All r h = All-append _ _ (All-family (r.family == pos 6)) (
      All-append _ _ (All-in_port r.in_port h.in_port) (
        All-append _ _
          (All-number 255 r.proto (text "proto") acl_proto_name (is_word_lem (text "proto") refl)
            (λ n l. (acl_proto_name_lem n l).1) h.proto)
          (All-append _ _
            (All-prefix r.family r.src (text "src") (is_word_lem (text "src") refl) h.src)
            (All-append _ _
              (All-prefix r.family r.dst (text "dst") (is_word_lem (text "dst") refl) h.dst)
              (All-append _ _
                (All-number 65535 r.src_port (text "sport") itoa (is_word_lem (text "sport") refl)
                  (λ n l. itoa-IsWord n) h.src_port)
                (All-number 65535 r.dst_port (text "dport") itoa (is_word_lem (text "dport") refl)
                  (λ n l. itoa-IsWord n) h.dst_port))))))

  action_of_word : (a : AclAction) → action_of (action_word a) ≡ some a
  unfolding Text-discrete ℕ_discrete
  action_of_word permit = refl
  action_of_word deny = refl

  action_word-IsWord : (a : AclAction) → IsWord (action_word a)
  unfolding is_word ℕ_discrete
  action_word-IsWord permit = is_word_lem (text "permit") refl
  action_word-IsWord deny = is_word_lem (text "deny") refl

  parse_words_lem :
      (r : AclRule)
      → IsWritten net r
      → parse_words net r.seq (action_word r.action ∷ rule_words net r) ≡ ok r
  unfolding parse_words
  parse_words_lem r h =
      let (f, k, e) = match_words_lem net r h in
      ap
        (λ o. elim o [
          | none ↦ err (no_action (action_word r.action))
          | some action ↦ elim (match_words net (rule_words net r) (start_rule r.seq action)) [
            | err x ↦ err x
            | ok s ↦ finish_rule s
          ]
        ])
        (action_of_word r.action)
      ∙ ap (λ o. elim o [ err x ↦ err x | ok s ↦ finish_rule s ]) e
      ∙ finish_rule_lem net r f h.family k h.l4

  -- ParseACLRule reads back every rule that String writes: with a sequence number in range, a family, a
  -- port that is one word, a protocol to 255, masked prefixes of the family, and L4 ports to 65535 with
  -- TCP or UDP only; each of the matches may be missing.
  pub parse_acl_rule-acl_string :
      FieldsLaw
      → (r : AclRule) → IsWritten net r
      → parse_acl_rule net r.seq (acl_string net r) ≡ ok r
  unfolding parse_acl_rule acl_string
  parse_acl_rule-acl_string law r h =
      ap
        (λ b.
          if b
          then err (bad_sequence r.seq)
          else parse_words net r.seq (net.fields (acl_string net r)))
        h.seq
      ∙ ap (parse_words net r.seq) (
          law (action_word r.action) (rule_words net r) (action_word-IsWord r.action)
            (rule_words-All r h))
      ∙ parse_words_lem r h
