-- ===== src/SwitchApi/AclText/Accepted.antt =====
-- What ParseACLRule accepts, and Validate of the same file (internal/switchapi/acl.go).
use nosaic_switch.Base.{
  nat_eq, Bool, true, false, ◌||◌, Option, none, some, List, [], ◌∷◌, if◌then◌else◌, ◌==◌, Text,
  text_eq, ◌≡◌, refl, sym, subst, ◌⊎◌, inl, inr, arith,
}
use nosaic_switch.Base.Int.{ℤ, pos, int_eq, ltb_ℤ, ◌≤ℤ◌}
use nosaic_switch.Base.Exec.{Result, ok, err}
use nosaic_switch.SwitchApi.Acl.{
  AclAction, AclRule, acl_max_seq, lacks_l4, lacks_l4_iff, validate, validate_iff,
}
use nosaic_switch.SwitchApi.AclText.{
  NetText, ParseError, action_of, Partial, set_family, family_word, match_word, match_words,
  finish_rule, start_rule, parse_words, parse_acl_rule, no_action, needs_value, needs_l4,
  bad_sequence,
}
use nosaic_switch.SwitchApi.AclText.Families.{
  FamilyLaws, Of, Agree, ok-inj, set_family_ok, either_family, Sound, match_word_keeps,
}

module _ (net : NetText) (laws : FamilyLaws net) (seq : ℤ) where
  family_word_family :
      (w : Text) (fam : ℤ) → family_word w ≡ some fam → (fam ≡ pos 4) ⊎ (fam ≡ pos 6)
  family_word_family w fam e = ground (arith, e)

  named_keeps :
      (w : Text) (fam : ℤ) (s t : Partial)
      → family_word w ≡ some fam
      → (Sound net laws seq) s
      → set_family fam w s ≡ ok t
      → (Sound net laws seq) t
  named_keeps w fam s t k h e =
      let (same, f) = set_family_ok fam w s t e in
      let (src, dst) = either_family fam s.family s.rule h.1 f in
      subst (Sound net laws seq) same (h.0, inr (family_word_family w fam k, src, dst))

  match_words_keeps :
      (ws : List Text) (s t : Partial)
      → (Sound net laws seq) s
      → match_words net ws s ≡ ok t
      → (Sound net laws seq) t
  unfolding match_words
  match_words_keeps [] s t h e = subst (Sound net laws seq) (ok-inj e) h
  match_words_keeps (w ∷ []) s t h e = last (family_word w) refl e
    where
      last :
          (o : Option ℤ)
          → family_word w ≡ o
          → (elim o [ some fam ↦ set_family fam w s | none ↦ err (needs_value w) ]) ≡ ok t
          → (Sound net laws seq) t
      last none k q = absurd (ground (arith, q))
      last (some fam) k q = named_keeps w fam s t k h q
  match_words_keeps (w ∷ arg ∷ ws) s t h e =
      next (λ u g q. match_words_keeps (arg ∷ ws) u t g q) (λ u g q. match_words_keeps ws u t g q)
        (family_word w) refl e
    where
      on : List Text → Result ParseError Partial → Result ParseError Partial
      on vs o = elim o [ err x ↦ err x | ok u ↦ match_words net vs u ]

      after :
          (vs : List Text)
          → ((u : Partial)
              → (Sound net laws seq) u
              → match_words net vs u ≡ ok t
              → (Sound net laws seq) t)
          → (o : Result ParseError Partial) → ((u : Partial) → o ≡ ok u → (Sound net laws seq) u)
          → on vs o ≡ ok t
          → (Sound net laws seq) t
      after vs rest (err x) g q = absurd (ground (arith, q))
      after vs rest (ok u) g q = rest u (g u refl) q

      next :
          ((u : Partial)
            → (Sound net laws seq) u
            → match_words net (arg ∷ ws) u ≡ ok t
            → (Sound net laws seq) t)
          → ((u : Partial)
              → (Sound net laws seq) u
              → match_words net ws u ≡ ok t
              → (Sound net laws seq) t)
          → (o : Option ℤ) → family_word w ≡ o
          → (elim o [
            | some fam ↦ on (arg ∷ ws) (set_family fam w s)
            | none ↦ on ws (match_word net w arg s)
          ])
            ≡ ok t
          → (Sound net laws seq) t
      next one two (some fam) k q =
          after (arg ∷ ws) one (set_family fam w s) (λ u g. named_keeps w fam s u k h g) q
      next one two none k q =
          after ws two (match_word net w arg s) (λ u g. match_word_keeps net laws seq w arg s u h g)
            q

  -- What a rule must be apart from its port and the range of its sequence number.
  abbrev Ready : AclRule → Type 0
  Ready r =
      (r.seq ≡ seq)
      × ((r.family ≡ pos 4) ⊎ (r.family ≡ pos 6))
      × Of r.family r.src
      × Of r.family r.dst
      × (lacks_l4 r ≡ false)

  closed :
      (s : Partial) (f : ℤ)
      → (if s.family == pos 0 then pos 4 else s.family) ≡ f
      → Agree s.family s.rule
      → ((f ≡ pos 4) ⊎ (f ≡ pos 6)) × Of f s.rule.src × Of f s.rule.dst
  closed s f e (inl (z, src, dst)) = (ground (arith, e, z), inl src, inl dst)
  closed s f e (inr (h, src, dst)) =
      let same : s.family ≡ f = ground (arith, e, h) in
      (
        subst (λ g. (g ≡ pos 4) ⊎ (g ≡ pos 6)) same h,
        subst (λ g. Of g s.rule.src) same src,
        subst (λ g. Of g s.rule.dst) same dst,
      )

  finish_rule-Ready :
      (s : Partial) (r : AclRule) → (Sound net laws seq) s → finish_rule s ≡ ok r → Ready r
  unfolding finish_rule
  finish_rule-Ready s r h e = checked (lacks_l4 q) refl e
    where
      q : AclRule
      q = record s.rule { family = if s.family == pos 0 then pos 4 else s.family }

      checked : (b : Bool) → lacks_l4 q ≡ b → (if b then err needs_l4 else ok q) ≡ ok r → Ready r
      checked true k g = absurd (ground (arith, g))
      checked false k g =
          let (f, src, dst) = closed s q.family refl h.1 in
          subst Ready (ok-inj g) (h.0, f, src, dst, k)

  parse_words-Ready : (ws : List Text) (r : AclRule) → parse_words net seq ws ≡ ok r → Ready r
  unfolding parse_words
  parse_words-Ready [] r e = absurd (ground (arith, e))
  parse_words-Ready (w ∷ ws) r e = started (action_of w) e
    where
      matched :
          (o : Result ParseError Partial)
          → ((s : Partial) → o ≡ ok s → (Sound net laws seq) s)
          → (elim o [ err x ↦ err x | ok s ↦ finish_rule s ]) ≡ ok r
          → Ready r
      matched (err x) g q = absurd (ground (arith, q))
      matched (ok s) g q = finish_rule-Ready s r (g s refl) q

      started :
          (o : Option AclAction)
          → (elim o [
            | none ↦ err (no_action w)
            | some action ↦ elim (match_words net ws (start_rule seq action)) [
              | err x ↦ err x
              | ok s ↦ finish_rule s
            ]
          ])
            ≡ ok r
          → Ready r
      started none q = absurd (ground (arith, q))
      started (some action) q =
          matched (match_words net ws (start_rule seq action))
            (λ s g. match_words_keeps ws (start_rule seq action) s (refl, inl (refl, refl, refl)) g)
            q

  in_range :
      (ltb_ℤ seq (pos 1) || ltb_ℤ acl_max_seq seq) ≡ false → (pos 1 ≤ℤ seq) × (seq ≤ℤ acl_max_seq)
  in_range h = (ground (arith, h), ground (arith, h))

  -- A rule that ParseACLRule gives for a sequence number has that number, and passes Validate wherever
  -- the port exists that it names, if it names one: nothing else of it is refused later.
  pub parse_acl_rule-validate :
      (s : Text) (r : AclRule) (has : Text → Bool)
      → parse_acl_rule net seq s ≡ ok r
      → (r.in_port ≡ []) ⊎ (has r.in_port ≡ true)
      → (r.seq ≡ seq) × (validate r (some has) ≡ ok tt)
  unfolding parse_acl_rule
  parse_acl_rule-validate s r has e port = ranged _ refl e
    where
      ranged :
          (b : Bool)
          → (ltb_ℤ seq (pos 1) || ltb_ℤ acl_max_seq seq) ≡ b
          → (if b then err (bad_sequence seq) else parse_words net seq (net.fields s)) ≡ ok r
          → (r.seq ≡ seq) × (validate r (some has) ≡ ok tt)
      ranged true k q = absurd (ground (arith, q))
      ranged false k q =
          let (same, family, src, dst, l4) = parse_words-Ready (net.fields s) r q in
          let (low, high) = in_range k in
          (
            same,
            (validate_iff r has).1 (record {
              seq_low = subst (λ n. pos 1 ≤ℤ n) (sym same) low;
              seq_high = subst (λ n. n ≤ℤ acl_max_seq) (sym same) high;
              family = family;
              port = port;
              src_family = src;
              dst_family = dst;
              l4 = (lacks_l4_iff r).0 l4;
            }),
          )
