-- ===== src/SwitchApi/AclText/Families.antt =====
-- The families of the prefixes that ParseACLRule reads (internal/switchapi/acl.go), word by word.
use nosaic_switch.Base.{
  nat_eq, Bool, true, false, not, ◌||◌, Option, none, some, if◌then◌else◌, ◌==◌, Text, text,
  text_eq, contains, ◌≡◌, refl, sym, ap, ◌∙◌, subst, ◌⊎◌, inl, inr, arith, Bool-cases,
}
use nosaic_switch.Base.Int.{ℤ, pos, int_eq}
use nosaic_switch.Base.Exec.{Result, ok, err}
use nosaic_switch.SwitchApi.Address.{Addr, Prefix, is_valid, is6}
use nosaic_switch.SwitchApi.Acl.{AclRule}
use nosaic_switch.SwitchApi.AclText.{
  NetText, ParseError, Partial, set_family, l4_port, proto_number, with_src, with_dst, after_number,
  match_prefix, parse_prefix_loose, match_word, not_prefix,
}

if_ok :
    {A : Type 0} (P : Type 0) (b : Bool) (x y : Result ParseError A) (t : A)
    → (x ≡ ok t → P)
    → (y ≡ ok t → P)
    → (if b then x else y) ≡ ok t
    → P
if_ok P true x y t f g h = f h
if_ok P false x y t f g h = g h

after_number_ok :
    (P : Partial → Type 0) (o : Result ParseError ℤ) (f : ℤ → Partial) (t : Partial)
    → ((n : ℤ) → P (f n))
    → after_number o f ≡ ok t
    → P t
after_number_ok P (err e) f t h k = absurd (ground (arith, k))
after_number_ok P (ok n) f t h k = subst P (ground (arith, k)) (h n)

pub some-inj : {A : Type 0} {x y : A} → some x ≡ some y → x ≡ y
some-inj e = cc

abbrev pub Same : {A : Type 0} → Result ParseError A → Result ParseError A → Type 0
Same x y = x ≡ y

pub ok-inj : {A : Type 0} {x y : A} → Same (ok x) (ok y) → x ≡ y
ok-inj e = cc

-- A prefix that is not given, or is of the family.
abbrev pub Of : ℤ → Prefix → Type 0
Of family p = (is_valid p ≡ false) ⊎ (is6 p.addr ≡ (family == pos 6))

-- The families of what the words gave so far: none yet, and then no prefix, or one that all share.
abbrev pub Agree : ℤ → AclRule → Type 0
Agree family r =
    ((family ≡ pos 0) × (is_valid r.src ≡ false) × (is_valid r.dst ≡ false))
    ⊎ (((family ≡ pos 4) ⊎ (family ≡ pos 6)) × Of family r.src × Of family r.dst)

-- What netip documents of families: an address with a colon is IPv6, and masking keeps the family.
pub record FamilyLaws (net : NetText) : Type 0 where
  pub of_addr :
      (s : Text) (a : Addr)
      → net.parse_addr s ≡ some a
      → is6 (net.host_prefix a).addr ≡ contains s b':'
  pub of_prefix :
      (s : Text) (p : Prefix)
      → net.parse_prefix s ≡ some p
      → is6 (net.masked p).addr ≡ contains s b':'

pub set_family_ok :
    (fam : ℤ) (why : Text) (s t : Partial)
    → set_family fam why s ≡ ok t
    → (record { rule = s.rule; family = fam } ≡ t) × ((s.family ≡ pos 0) ⊎ (s.family ≡ fam))
unfolding set_family
set_family_ok fam why s t e = elim (Bool-cases (s.family == pos 0 || s.family == fam)) [
  | inl y ↦ (ground (arith, e, y), ground (arith, y))
  | inr n ↦ absurd (ground (arith, e, n))
]

pub either_family :
    (fam f : ℤ) (r : AclRule) → Agree f r → (f ≡ pos 0) ⊎ (f ≡ fam) → Of fam r.src × Of fam r.dst
either_family fam f r (inl (z, src, dst)) k = (inl src, inl dst)
either_family fam f r (inr (h, src, dst)) (inl z) = absurd (ground (arith, h, z))
either_family fam f r (inr (h, src, dst)) (inr e) =
    (subst (λ g. Of g r.src) e src, subst (λ g. Of g r.dst) e dst)

colon_family : (b : Bool) → ((if b then pos 6 else pos 4) == pos 6) ≡ b
colon_family true = ground arith
colon_family false = ground arith

one_family :
    (b : Bool) → ((if b then pos 6 else pos 4) ≡ pos 4) ⊎ ((if b then pos 6 else pos 4) ≡ pos 6)
one_family true = inr refl
one_family false = inl refl

module _ (net : NetText) (laws : FamilyLaws net) (seq : ℤ) where
  -- What holds between words.
  abbrev pub Sound : Partial → Type 0
  Sound s = (s.rule.seq ≡ seq) × Agree s.family s.rule

  parse_prefix_loose_family :
      (s : Text) (p : Prefix) → parse_prefix_loose net s ≡ some p → is6 p.addr ≡ contains s b':'
  unfolding parse_prefix_loose
  parse_prefix_loose_family s p e = elim (Bool-cases (not (contains s b'/'))) [
    | inl bare ↦ bare_prefix (net.parse_addr s) refl (choose true bare ∙ e)
    | inr long ↦ long_prefix (net.parse_prefix s) refl (choose false long ∙ e)
  ]
    where
      bare_prefix :
          (o : Option Addr)
          → net.parse_addr s ≡ o
          → (elim o [ none ↦ none | some a ↦ some (net.host_prefix a) ]) ≡ some p
          → is6 p.addr ≡ contains s b':'
      bare_prefix none k h = absurd (ground (arith, h))
      bare_prefix (some a) k h =
          ap is6 (ap (λ (q : Prefix). q.addr) (sym (some-inj h))) ∙ laws.of_addr s a k

      long_prefix :
          (o : Option Prefix)
          → net.parse_prefix s ≡ o
          → (elim o [ none ↦ none | some q ↦ some (net.masked q) ]) ≡ some p
          → is6 p.addr ≡ contains s b':'
      long_prefix none k h = absurd (ground (arith, h))
      long_prefix (some q) k h =
          ap is6 (ap (λ (x : Prefix). x.addr) (sym (some-inj h))) ∙ laws.of_prefix s q k

      choose :
          (b : Bool)
          → not (contains s b'/') ≡ b
          → (if b
              then elim (net.parse_addr s) [ none ↦ none | some a ↦ some (net.host_prefix a) ]
              else elim (net.parse_prefix s) [ none ↦ none | some q ↦ some (net.masked q) ])
            ≡ parse_prefix_loose net s
      choose b h =
          ap
            (λ c.
              if c
              then elim (net.parse_addr s) [ none ↦ none | some a ↦ some (net.host_prefix a) ]
              else elim (net.parse_prefix s) [ none ↦ none | some q ↦ some (net.masked q) ])
            (sym h)

  -- A prefix is put in once its family is that of the rest.
  match_prefix_keeps :
      (put : Prefix → Partial → Partial) (arg : Text) (s t : Partial)
      → ((p : Prefix) (u : Partial)
          → u.rule.seq ≡ seq
          → (u.family ≡ pos 4) ⊎ (u.family ≡ pos 6)
          → Of u.family u.rule.src
          → Of u.family u.rule.dst
          → Of u.family p
          → Sound (put p u))
      → Sound s
      → match_prefix net put arg s ≡ ok t
      → Sound t
  unfolding match_prefix
  match_prefix_keeps put arg s t place h e = given (set_family fam arg s) refl e
    where
      fam : ℤ
      fam = if contains arg b':' then pos 6 else pos 4

      taken :
          (o : Option Prefix)
          → parse_prefix_loose net arg ≡ o
          → (s.family ≡ pos 0) ⊎ (s.family ≡ fam)
          → (elim o [
            | none ↦ err (not_prefix arg fam)
            | some p ↦ ok (put p (record { rule = s.rule; family = fam }))
          ])
            ≡ ok t
          → Sound t
      taken none k f q = absurd (ground (arith, q))
      taken (some p) k f q =
          let (src, dst) = either_family fam s.family s.rule h.1 f in
          subst Sound (ok-inj q) (
            place p (record { rule = s.rule; family = fam }) h.0 (one_family (contains arg b':'))
              src dst
              (inr (parse_prefix_loose_family arg p k ∙ sym (colon_family (contains arg b':')))))

      given :
          (o : Result ParseError Partial)
          → set_family fam arg s ≡ o
          → (elim o [
            | err x ↦ err x
            | ok u ↦ elim (parse_prefix_loose net arg) [
              | none ↦ err (not_prefix arg fam)
              | some p ↦ ok (put p u)
            ]
          ])
            ≡ ok t
          → Sound t
      given (err x) k q = absurd (ground (arith, q))
      given (ok u) k q =
          let (same, f) = set_family_ok fam arg s u k in
          taken (parse_prefix_loose net arg) refl f (
            subst
              (λ (v : Partial).
                (elim (parse_prefix_loose net arg) [
                  | none ↦ err (not_prefix arg fam)
                  | some p ↦ ok (put p v)
                ])
                ≡ ok t)
              (sym same) q)

  pub match_word_keeps :
      (w arg : Text) (s t : Partial) → Sound s → match_word net w arg s ≡ ok t → Sound t
  unfolding match_word
  match_word_keeps w arg s t h e =
      if_ok (Sound t) (w == text "in") _ _ t (λ k. subst Sound (ok-inj k) h)
        (if_ok (Sound t) (w == text "proto") _ _ t
          (after_number_ok Sound (proto_number arg) _ t (λ n. h))
          (if_ok (Sound t) (w == text "src") _ _ t
            (match_prefix_keeps with_src arg s t (λ p u a f src dst k. (a, inr (f, k, dst))) h)
            (if_ok (Sound t) (w == text "dst") _ _ t
              (match_prefix_keeps with_dst arg s t (λ p u a f src dst k. (a, inr (f, src, k))) h)
              (if_ok (Sound t) (w == text "sport") _ _ t
                (after_number_ok Sound (l4_port arg) _ t (λ n. h))
                (if_ok (Sound t) (w == text "dport") _ _ t
                  (after_number_ok Sound (l4_port arg) _ t (λ n. h))
                  (λ k. absurd (ground (arith, k))))))))
        e
