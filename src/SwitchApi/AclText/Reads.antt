-- ===== src/SwitchApi/AclText/Reads.antt =====
-- Rules that an operator can write, and each keyword of theirs as ParseACLRule reads it
-- (internal/switchapi/acl.go).
use nosaic_switch.Base.{
  nat_eq, ℕ, ◌≤◌, Bool, true, false, not, ◌||◌, none, some, List, [], ◌∷◌, if◌then◌else◌, ◌==◌,
  Text, Text-discrete, ℕ_discrete, text, text_eq, contains, ◌≡◌, refl, ap, ◌∙◌, ◌⊎◌, arith,
}
use nosaic_switch.Base.Int.{ℤ, pos, int_eq, ltb_ℤ}
use nosaic_switch.Base.Exec.{ok, err}
use nosaic_switch.Base.White.{IsWord}
use nosaic_switch.SwitchApi.Address.{Prefix, no_prefix, is_valid, is6}
use nosaic_switch.SwitchApi.Acl.{AclRule, acl_any, acl_max_seq, lacks_l4}
use nosaic_switch.SwitchApi.AclText.{
  NetText, other_family, not_prefix, family_word, Partial, set_family, l4_port, proto_number,
  with_in_port, with_proto, with_src, with_dst, with_src_port, with_dst_port, after_number,
  match_prefix, parse_prefix_loose, match_word, match_words,
}

module _ (net : NetText) where
  -- What netip documents of the text of a masked prefix: it is one word with a length, in the notation
  -- of its family, and is read back.
  pub record IsReadable (p : Prefix) : Type 0 where
    pub valid : is_valid p ≡ true
    pub slash : contains (net.prefix_string p) b'/' ≡ true
    pub colon : contains (net.prefix_string p) b':' ≡ is6 p.addr
    pub reads : net.parse_prefix (net.prefix_string p) ≡ some p
    pub is_masked : net.masked p ≡ p
    pub word : IsWord (net.prefix_string p)

  -- A number to `high`, or none.
  abbrev pub IsNumber : ℕ → ℤ → Type 0
  IsNumber high x = (x ≡ acl_any) ⊎ ((n : ℕ) × (x ≡ pos n) × (n ≤ high))

  abbrev pub IsMatch : ℤ → Prefix → Type 0
  IsMatch family p = (p ≡ no_prefix) ⊎ (IsReadable p × (is6 p.addr ≡ (family == pos 6)))

  -- A rule that an operator can write.
  pub record IsWritten (r : AclRule) : Type 0 where
    pub seq : (ltb_ℤ r.seq (pos 1) || ltb_ℤ acl_max_seq r.seq) ≡ false
    pub family : (r.family ≡ pos 4) ⊎ (r.family ≡ pos 6)
    pub in_port : (r.in_port ≡ []) ⊎ IsWord r.in_port
    pub proto : IsNumber 255 r.proto
    pub src : IsMatch r.family r.src
    pub dst : IsMatch r.family r.dst
    pub src_port : IsNumber 65535 r.src_port
    pub dst_port : IsNumber 65535 r.dst_port
    pub l4 : lacks_l4 r ≡ false

  -- The family that the words gave so far: the rule's, or none where the rule's is IPv4.
  abbrev pub Fits : ℤ → ℤ → Type 0
  Fits family f = (f ≡ family) ⊎ ((f ≡ pos 0) × (family ≡ pos 4))

  -- A keyword and its value, where the value is taken.
  read_word :
      (w arg : Text) (ws : List Text) (s t : Partial)
      → family_word w ≡ none
      → match_word net w arg s ≡ ok t
      → match_words net (w ∷ arg ∷ ws) s ≡ match_words net ws t
  unfolding match_words
  read_word w arg ws s t f e =
      ap
        (λ o. elim o [
          | some fam ↦ elim (set_family fam w s) [
            | err x ↦ err x
            | ok u ↦ match_words net (arg ∷ ws) u
          ]
          | none ↦ elim (match_word net w arg s) [ err x ↦ err x | ok u ↦ match_words net ws u ]
        ])
        f
      ∙ ap (λ o. elim o [ err x ↦ err x | ok u ↦ match_words net ws u ]) e

  pub read_in_port :
      (arg : Text) (ws : List Text) (s : Partial)
      → match_words net (text "in" ∷ arg ∷ ws) s ≡ match_words net ws (with_in_port arg s)
  unfolding match_word Text-discrete ℕ_discrete
  read_in_port arg ws s = read_word (text "in") arg ws s (with_in_port arg s) refl refl

  pub read_proto :
      (arg : Text) (n : ℤ) (ws : List Text) (s : Partial)
      → proto_number arg ≡ ok n
      → match_words net (text "proto" ∷ arg ∷ ws) s ≡ match_words net ws (with_proto n s)
  unfolding match_word Text-discrete ℕ_discrete
  read_proto arg n ws s e =
      read_word (text "proto") arg ws s (with_proto n s) refl
        (ap (λ o. after_number o (λ m. with_proto m s)) e)

  pub read_src_port :
      (arg : Text) (n : ℤ) (ws : List Text) (s : Partial)
      → l4_port arg ≡ ok n
      → match_words net (text "sport" ∷ arg ∷ ws) s ≡ match_words net ws (with_src_port n s)
  unfolding match_word Text-discrete ℕ_discrete
  read_src_port arg n ws s e =
      read_word (text "sport") arg ws s (with_src_port n s) refl
        (ap (λ o. after_number o (λ m. with_src_port m s)) e)

  pub read_dst_port :
      (arg : Text) (n : ℤ) (ws : List Text) (s : Partial)
      → l4_port arg ≡ ok n
      → match_words net (text "dport" ∷ arg ∷ ws) s ≡ match_words net ws (with_dst_port n s)
  unfolding match_word Text-discrete ℕ_discrete
  read_dst_port arg n ws s e =
      read_word (text "dport") arg ws s (with_dst_port n s) refl
        (ap (λ o. after_number o (λ m. with_dst_port m s)) e)

  pub read_src :
      (arg : Text) (ws : List Text) (s t : Partial)
      → match_prefix net with_src arg s ≡ ok t
      → match_words net (text "src" ∷ arg ∷ ws) s ≡ match_words net ws t
  unfolding match_word Text-discrete ℕ_discrete
  read_src arg ws s t e = read_word (text "src") arg ws s t refl e

  pub read_dst :
      (arg : Text) (ws : List Text) (s t : Partial)
      → match_prefix net with_dst arg s ≡ ok t
      → match_words net (text "dst" ∷ arg ∷ ws) s ≡ match_words net ws t
  unfolding match_word Text-discrete ℕ_discrete
  read_dst arg ws s t e = read_word (text "dst") arg ws s t refl e

  the_family :
      (b : Bool) (family : ℤ)
      → (family ≡ pos 4) ⊎ (family ≡ pos 6)
      → b ≡ (family == pos 6)
      → (if b then pos 6 else pos 4) ≡ family
  the_family b family h e = ground arith

  pub set_family_lem :
      (family : ℤ) (why : Text) (s : Partial)
      → Fits family s.family
      → set_family family why s ≡ ok (record { rule = s.rule; family = family })
  unfolding set_family
  set_family_lem family why s h =
      ap
        (λ b.
          if b
          then ok (record { rule = s.rule; family = family })
          else err (other_family why family s.family))
        fits
    where
      fits : (s.family == pos 0 || s.family == family) ≡ true
      fits = ground arith

  parse_prefix_loose_lem :
      (p : Prefix) → IsReadable p → parse_prefix_loose net (net.prefix_string p) ≡ some p
  unfolding parse_prefix_loose
  parse_prefix_loose_lem p h =
      let word = net.prefix_string p in
      ap
        (λ b.
          if not b
          then elim (net.parse_addr word) [ none ↦ none | some a ↦ some (net.host_prefix a) ]
          else elim (net.parse_prefix word) [ none ↦ none | some q ↦ some (net.masked q) ])
        h.slash
      ∙ ap (λ o. elim o [ none ↦ none | some q ↦ some (net.masked q) ]) h.reads
      ∙ ap some h.is_masked

  -- A prefix of the rule's family is taken, and gives the family.
  pub match_prefix_lem :
      (put : Prefix → Partial → Partial) (p : Prefix) (family : ℤ) (s : Partial)
      → IsReadable p
      → is6 p.addr ≡ (family == pos 6)
      → (family ≡ pos 4) ⊎ (family ≡ pos 6)
      → Fits family s.family
      → match_prefix net put (net.prefix_string p) s
        ≡ ok (put p (record { rule = s.rule; family = family }))
  unfolding match_prefix
  match_prefix_lem put p family s h six fam fits =
      let word = net.prefix_string p in
      ap
        (λ f. elim (set_family f word s) [
          | err e ↦ err e
          | ok t ↦ elim (parse_prefix_loose net word) [
            | none ↦ err (not_prefix word f)
            | some q ↦ ok (put q t)
          ]
        ])
        (the_family (contains word b':') family fam (h.colon ∙ six))
      ∙ ap
          (λ o. elim o [
            | err e ↦ err e
            | ok t ↦ elim (parse_prefix_loose net word) [
              | none ↦ err (not_prefix word family)
              | some q ↦ ok (put q t)
            ]
          ])
          (set_family_lem family word s fits)
      ∙ ap
          (λ o. elim o [
            | none ↦ err (not_prefix word family)
            | some q ↦ ok (put q (record { rule = s.rule; family = family }))
          ])
          (parse_prefix_loose_lem p h)
