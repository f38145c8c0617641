-- ===== src/SwitchApi/AclText/Segments.antt =====
-- The words that String writes for each match of a rule, as the loop of ParseACLRule reads them
-- (internal/switchapi/acl.go).
use nosaic_switch.Base.{
  nat_eq, ℕ, ◌≤◌, Bool, true, false, not, List, [], ◌∷◌, ◌++◌, if◌then◌else◌, ◌==◌, Text,
  Text-discrete, ℕ_discrete, text, text_eq, ◌≡◌, refl, sym, ap, ◌∙◌, subst, ◌⊎◌, inl, inr, arith,
}
use mathlib.Core.List.{append-nil}
use nosaic_switch.Base.Int.{ℤ, pos, int_eq}
use nosaic_switch.Base.Decimal.{itoa}
use nosaic_switch.Base.Exec.{ok, err}
use nosaic_switch.SwitchApi.Address.{Prefix, no_prefix, is_valid}
use nosaic_switch.SwitchApi.Acl.{AclRule, acl_any, lacks_l4}
use nosaic_switch.SwitchApi.AclText.{
  NetText, needs_l4, acl_proto_name, Partial, set_family, with_in_port, with_proto, with_src,
  with_dst, with_src_port, with_dst_port, match_prefix, match_words, finish_rule, start_rule,
  words_if, rule_words,
}
use nosaic_switch.SwitchApi.AclText.Reads.{
  IsNumber, IsMatch, IsWritten, Fits, read_in_port, read_proto, read_src_port, read_dst_port,
  read_src, read_dst, match_prefix_lem,
}
use nosaic_switch.SwitchApi.AclText.Words.{l4_port-itoa, acl_proto_name_lem}

pub numbered :
    (high : ℕ) (x : ℤ)
    → (x ≡ acl_any) ⊎ ((n : ℕ) × (x ≡ pos n) × (n ≤ high))
    → not (x == acl_any) ≡ true
    → (n : ℕ) × (x ≡ pos n) × (n ≤ high)
numbered high x (inr k) h = k
numbered high x (inl e) h = absurd (ground (arith, e, h))

no_number : (x : ℤ) → not (x == acl_any) ≡ false → acl_any ≡ x
no_number x h = ground arith

no_port : (t : Text) → not (t == []) ≡ false → [] ≡ t
no_port t h = ground arith

set_ipv6 :
    (s : Partial)
    → s.family ≡ pos 0
    → set_family (pos 6) (text "ipv6") s ≡ ok (record { rule = s.rule; family = pos 6 })
unfolding set_family
set_ipv6 s z = ground (arith, z)

module _ (net : NetText) where
  no_words : (s : Partial) → match_words net [] s ≡ ok s
  unfolding match_words
  no_words s = refl

  -- A keyword and its value, or neither.
  segment :
      (b : Bool) (w arg : Text) (ws : List Text) (s t : Partial)
      → (b ≡ true → match_words net (w ∷ arg ∷ ws) s ≡ match_words net ws t)
      → (b ≡ false → s ≡ t)
      → match_words net (words_if b w arg ++ ws) s ≡ match_words net ws t
  segment true w arg ws s t f g = f refl
  segment false w arg ws s t f g = ap (match_words net ws) (g refl)

  segment_in_port :
      (name : Text) (ws : List Text) (s : Partial)
      → s.rule.in_port ≡ []
      → match_words net (words_if (not (name == [])) (text "in") name ++ ws) s
        ≡ match_words net ws (with_in_port name s)
  segment_in_port name ws s d =
      segment (not (name == [])) (text "in") name ws s (with_in_port name s)
        (λ h. read_in_port net name ws s) (λ h. ap (λ x. with_in_port x s) (d ∙ no_port name h))

  segment_number :
      (high : ℕ) (x : ℤ) (w : Text) (word : ℤ → Text) (put : ℤ → Partial) (ws : List Text)
      (s : Partial)
      → s ≡ put acl_any
      → ((n : ℕ)
          → n ≤ high
          → match_words net (w ∷ word (pos n) ∷ ws) s ≡ match_words net ws (put (pos n)))
      → IsNumber net high x
      → match_words net (words_if (not (x == acl_any)) w (word x) ++ ws) s
        ≡ match_words net ws (put x)
  segment_number high x w word put ws s d read k =
      segment (not (x == acl_any)) w (word x) ws s (put x)
        (λ h.
          let (n, e, l) = numbered high x k h in
          subst (λ y. match_words net (w ∷ word y ∷ ws) s ≡ match_words net ws (put y)) (sym e)
            (read n l))
        (λ h. d ∙ ap put (no_number x h))

  segment_prefix :
      (w : Text) (put : Prefix → Partial → Partial) (family : ℤ) (p : Prefix) (ws : List Text)
      (s : Partial)
      → s ≡ put no_prefix s
      → ((t : Partial)
          → match_prefix net put (net.prefix_string p) s ≡ ok t
          → match_words net (w ∷ net.prefix_string p ∷ ws) s ≡ match_words net ws t)
      → (family ≡ pos 4) ⊎ (family ≡ pos 6)
      → Fits net family s.family
      → IsMatch net family p
      → (f : ℤ) × Fits net family f
        × (match_words net (words_if (is_valid p) w (net.prefix_string p) ++ ws) s
            ≡ match_words net ws (put p (record { rule = s.rule; family = f })))
  segment_prefix w put family p ws s d read fam fits (inl e) = (
    s.family,
    fits,
    segment (is_valid p) w (net.prefix_string p) ws s (put p s)
        (λ h. absurd (let gone : is_valid p ≡ false = ap is_valid e in ground (arith, gone, h)))
        (λ h. d ∙ ap (λ q. put q s) (sym e)),
  )
  segment_prefix w put family p ws s d read fam fits (inr (h, six)) = (
    family,
    inl refl,
    segment (is_valid p) w (net.prefix_string p) ws s
        (put p (record { rule = s.rule; family = family }))
        (λ v. read _ (match_prefix_lem net put p family s h six fam fits))
        (λ v. absurd (let there = h.valid in ground (arith, v, there))),
  )

  read_ipv6 :
      (ws : List Text) (s : Partial)
      → s.family ≡ pos 0
      → match_words net (text "ipv6" ∷ ws) s
        ≡ match_words net ws (record { rule = s.rule; family = pos 6 })
  unfolding match_words Text-discrete ℕ_discrete
  read_ipv6 [] s z = set_ipv6 s z
  read_ipv6 (w ∷ ws) s z =
      ap (λ o. elim o [ err x ↦ err x | ok u ↦ match_words net (w ∷ ws) u ]) (set_ipv6 s z)

  segment_family :
      (family : ℤ) (ws : List Text) (s : Partial)
      → s.family ≡ pos 0
      → (family ≡ pos 4) ⊎ (family ≡ pos 6)
      → (f : ℤ) × Fits net family f
        × (match_words net ((if family == pos 6 then text "ipv6" ∷ [] else []) ++ ws) s
            ≡ match_words net ws (record { rule = s.rule; family = f }))
  segment_family family ws s z (inl four) = (
    s.family,
    inr (z, four),
    ap (λ b. match_words net ((if b then text "ipv6" ∷ [] else []) ++ ws) s)
        (let not_six : (family == pos 6) ≡ false = ground (arith, four) in not_six),
  )
  segment_family family ws s z (inr is_six) = (
    pos 6,
    inl (sym is_six),
    ap (λ b. match_words net ((if b then text "ipv6" ∷ [] else []) ++ ws) s)
          (let six : (family == pos 6) ≡ true = ground (arith, is_six) in six)
        ∙ read_ipv6 ws s z,
  )

  the_family :
      (f family : ℤ)
      → (family ≡ pos 4) ⊎ (family ≡ pos 6)
      → Fits net family f
      → (if f == pos 0 then pos 4 else f) ≡ family
  the_family f family h k = ground arith

  pub finish_rule_lem :
      (r : AclRule) (f : ℤ)
      → (r.family ≡ pos 4) ⊎ (r.family ≡ pos 6)
      → Fits net r.family f
      → lacks_l4 r ≡ false
      → finish_rule (record { rule = record r { family = pos 0 }; family = f }) ≡ ok r
  unfolding finish_rule
  finish_rule_lem r f h k l =
      ap
        (λ fam.
          if lacks_l4 (record r { family = fam })
          then err needs_l4
          else ok (record r { family = fam }))
        (the_family f r.family h k)
      ∙ ap (λ b. if b then err needs_l4 else ok r) l

  -- The words of a rule, behind its action, are read into it.
  pub match_words_lem :
      (r : AclRule)
      → IsWritten net r
      → (f : ℤ) × Fits net r.family f
        × (match_words net (rule_words net r) (start_rule r.seq r.action)
            ≡ ok (record { rule = record r { family = pos 0 }; family = f }))
  unfolding rule_words
  match_words_lem r h =
      let s0 : Partial = start_rule r.seq r.action in
      let g7 : List Text =
        words_if (not (r.dst_port == acl_any)) (text "dport") (itoa r.dst_port) in
      let g6 : List Text =
        words_if (not (r.src_port == acl_any)) (text "sport") (itoa r.src_port) ++ g7 in
      let g5 : List Text = words_if (is_valid r.dst) (text "dst") (net.prefix_string r.dst) ++ g6 in
      let g4 : List Text = words_if (is_valid r.src) (text "src") (net.prefix_string r.src) ++ g5 in
      let g3 : List Text =
        words_if (not (r.proto == acl_any)) (text "proto") (acl_proto_name r.proto) ++ g4 in
      let g2 : List Text = words_if (not (r.in_port == [])) (text "in") r.in_port ++ g3 in
      let (f1, k1, e1) = segment_family r.family g2 s0 refl h.family in
      let s1 : Partial = record { rule = s0.rule; family = f1 } in
      let s2 : Partial = with_in_port r.in_port s1 in
      let s3 : Partial = with_proto r.proto s2 in
      let (f4, k4, e4) =
        segment_prefix (text "src") with_src r.family r.src g5 s3 refl
          (λ t e. read_src net _ g5 s3 t e) h.family k1 h.src in
      let s4 : Partial = with_src r.src (record { rule = s3.rule; family = f4 }) in
      let (f5, k5, e5) =
        segment_prefix (text "dst") with_dst r.family r.dst g6 s4 refl
          (λ t e. read_dst net _ g6 s4 t e) h.family k4 h.dst in
      let s5 : Partial = with_dst r.dst (record { rule = s4.rule; family = f5 }) in
      let s6 : Partial = with_src_port r.src_port s5 in
      (
        f5,
        k5,
        e1
            ∙ segment_in_port r.in_port g3 s1 refl
            ∙ segment_number 255 r.proto (text "proto") acl_proto_name (λ n. with_proto n s2) g4 s2
                refl (λ n l. read_proto net _ _ g4 s2 (acl_proto_name_lem n l).0) h.proto
            ∙ e4
            ∙ e5
            ∙ segment_number 65535 r.src_port (text "sport") itoa (λ n. with_src_port n s5) g7 s5
                refl (λ n l. read_src_port net _ _ g7 s5 (l4_port-itoa n l)) h.src_port
            ∙ ap (λ ws. match_words net ws s6) (sym (append-nil g7))
            ∙ segment_number 65535 r.dst_port (text "dport") itoa (λ n. with_dst_port n s6) [] s6
                refl (λ n l. read_dst_port net _ _ [] s6 (l4_port-itoa n l)) h.dst_port
            ∙ no_words (with_dst_port r.dst_port s6),
      )
