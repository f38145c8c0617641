-- ===== src/SwitchApi/Acl.antt =====
-- Access-list rules: ACLRule and Validate of internal/switchapi/acl.go.
use nosaic_switch.Base.{
  ℕ, ◌≡◌, ◌↔◌, ◌⊎◌, Bool, true, false, not, ◌&&◌, ◌||◌, Option, none, some, [], arith,
  if◌then◌else◌, ◌==◌, Text, text_eq, nat_eq,
}
use nosaic_switch.Base.Int.{ℤ, pos, negsuc, int_eq, ◌≤ℤ◌, ltb_ℤ}
use nosaic_switch.Base.Exec.{Check, ok, err, check_if}
use nosaic_switch.SwitchApi.Address.{Prefix, is_valid, is6}
use nosaic_switch.SwitchApi.Errors.{
  Error, acl_sequence, acl_family, acl_no_port, acl_prefix_family, acl_needs_l4,
}

pub data AclAction : Type 0 where
  permit deny : AclAction

-- Proto, SrcPort and DstPort of a rule that does not match on them.
abbrev pub acl_any : ℤ
acl_any = negsuc 0

abbrev pub acl_max_seq : ℤ
acl_max_seq = pos 999999

pub record AclRule : Type 0 where
  pub seq : ℤ
  pub family : ℤ
  pub action : AclAction
  pub in_port : Text
  pub proto : ℤ
  pub src : Prefix
  pub dst : Prefix
  pub src_port : ℤ
  pub dst_port : ℤ

pub record AclEntry : Type 0 where
  pub seq : ℤ
  pub rule : AclRule
  pub parsed : Bool
  pub installed : Bool
  pub packets : ℕ

abbrev is_v6 : AclRule → Bool
is_v6 r = r.family == pos 6

abbrev xor : Bool → Bool → Bool
xor true b = not b
xor false b = b

-- A prefix that is given and is of the other family.
wrong_family : AclRule → Prefix → Bool
wrong_family r p = is_valid p && xor (is6 p.addr) (is_v6 r)

unfoldable pub lacks_l4 : AclRule → Bool
lacks_l4 r =
    (not (r.src_port == acl_any) || not (r.dst_port == acl_any))
    && not (r.proto == pos 6)
    && not (r.proto == pos 17)

bad_seq : AclRule → Bool
bad_seq r = ltb_ℤ r.seq (pos 1) || ltb_ℤ acl_max_seq r.seq

bad_family : AclRule → Bool
bad_family r = not (r.family == pos 4) && not (r.family == pos 6)

-- `has_port` is the datapath's knowledge; Go passes nil for "do not ask", `none` here.
lacks_port : AclRule → Option (Text → Bool) → Bool
lacks_port r none = false
lacks_port r (some has) = not (r.in_port == []) && not (has r.in_port)

unfoldable pub validate : AclRule → Option (Text → Bool) → Check Error
unfolding wrong_family lacks_l4 bad_seq bad_family lacks_port
validate r has_port =
    if bad_seq r
    then err (acl_sequence r.seq)
    else if bad_family r
    then err (acl_family r.family)
    else if lacks_port r has_port
    then err (acl_no_port r.in_port)
    else if wrong_family r r.src || wrong_family r r.dst
    then err (acl_prefix_family r.family)
    else check_if (lacks_l4 r) acl_needs_l4

-- What a rule must be for a datapath to take it, said without the code's order of tests.
pub record IsSound (r : AclRule) (has : Text → Bool) : Type 0 where
  pub seq_low : pos 1 ≤ℤ r.seq
  pub seq_high : r.seq ≤ℤ acl_max_seq
  pub family : (r.family ≡ pos 4) ⊎ (r.family ≡ pos 6)
  pub port : (r.in_port ≡ []) ⊎ (has r.in_port ≡ true)
  pub src_family : (is_valid r.src ≡ false) ⊎ (is6 r.src.addr ≡ (r.family == pos 6))
  pub dst_family : (is_valid r.dst ≡ false) ⊎ (is6 r.dst.addr ≡ (r.family == pos 6))
  pub l4 :
      ((r.src_port ≡ acl_any) × (r.dst_port ≡ acl_any)) ⊎ ((r.proto ≡ pos 6) ⊎ (r.proto ≡ pos 17))

ladder :
    {E : Type 0} (a b c d e : Bool) (v w x y z : E)
    → ((if a
          then err v
          else if b
          then err w
          else if c
          then err x
          else if d
          then err y
          else check_if e z)
        ≡ ok tt)
      ↔ ((a ≡ false) × (b ≡ false) × (c ≡ false) × (d ≡ false) × (e ≡ false))
ladder a b c d e v w x y z = (λ h. ground arith, λ h. ground arith)

pub lacks_l4_iff :
    (r : AclRule)
    → (lacks_l4 r ≡ false) ↔ (
        ((r.src_port ≡ acl_any) × (r.dst_port ≡ acl_any))
        ⊎ ((r.proto ≡ pos 6) ⊎ (r.proto ≡ pos 17)))
unfolding lacks_l4
lacks_l4_iff r = (λ h. ground arith, λ h. ground arith)

wrong_family_iff :
    (r : AclRule) (p : Prefix)
    → (wrong_family r p ≡ false) ↔ ((is_valid p ≡ false) ⊎ (is6 p.addr ≡ (r.family == pos 6)))
unfolding wrong_family
wrong_family_iff r p = (λ h. ground arith, λ h. ground arith)

lacks_port_iff :
    (r : AclRule) (has : Text → Bool)
    → (lacks_port r (some has) ≡ false) ↔ ((r.in_port ≡ []) ⊎ (has r.in_port ≡ true))
unfolding lacks_port
lacks_port_iff r has = (λ h. ground arith, λ h. ground arith)

bad_family_iff : (r : AclRule) → (bad_family r ≡ false) ↔ ((r.family ≡ pos 4) ⊎ (r.family ≡ pos 6))
unfolding bad_family
bad_family_iff r = (λ h. ground arith, λ h. ground arith)

bad_seq_iff : (r : AclRule) → (bad_seq r ≡ false) ↔ ((pos 1 ≤ℤ r.seq) × (r.seq ≤ℤ acl_max_seq))
unfolding bad_seq
bad_seq_iff r = (λ h. ground arith, λ h. ground arith)

or_false : (a b : Bool) → ((a || b) ≡ false) ↔ ((a ≡ false) × (b ≡ false))
or_false a b = (λ h. ground arith, λ h. ground arith)

-- A rule is accepted exactly when it is sound: its sequence number in range, one of the two families,
-- an input port that exists if it names one, prefixes of its family, and L4 ports with TCP or UDP only.
pub validate_iff :
    (r : AclRule) (has : Text → Bool) → (validate r (some has) ≡ ok tt) ↔ IsSound r has
unfolding validate
validate_iff r has = (
  λ h.
      let k = (ladder _ _ _ _ _ _ _ _ _ _).0 h in
      let fams = (or_false _ _).0 k.3 in
      record {
        seq_low = ((bad_seq_iff r).0 k.0).0;
        seq_high = ((bad_seq_iff r).0 k.0).1;
        family = (bad_family_iff r).0 k.1;
        port = (lacks_port_iff r has).0 k.2;
        src_family = (wrong_family_iff r r.src).0 fams.0;
        dst_family = (wrong_family_iff r r.dst).0 fams.1;
        l4 = (lacks_l4_iff r).0 k.4;
      },
  λ s. (ladder _ _ _ _ _ _ _ _ _ _).1 (
    (bad_seq_iff r).1 (s.seq_low, s.seq_high),
    (bad_family_iff r).1 s.family,
    (lacks_port_iff r has).1 s.port,
    (or_false _ _).1
        ((wrong_family_iff r r.src).1 s.src_family, (wrong_family_iff r r.dst).1 s.dst_family),
    (lacks_l4_iff r).1 s.l4,
  ),
)

-- What a datapath accepts is a valid rule for a caller that knows no ports too.
pub validate-unasked :
    (r : AclRule) (has : Text → Bool) → validate r (some has) ≡ ok tt → validate r none ≡ ok tt
unfolding validate lacks_port
validate-unasked r has e = ground arith
