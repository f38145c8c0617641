-- ===== src/Mem/Aggregation/Members.antt =====
-- SetLAGMembers, AddLAG and DelLAG keep ports and LAGs in agreement.
use nosaic_switch.Base.{
  ◌≡◌, refl, sym, ap, ◌∙◌, subst, ◌≢◌, ◌↔◌, ◌⊎◌, inl, inr, Bool, true, false, not, ◌&&◌, Option,
  none, some, List, [], ◌∷◌, arith, if◌then◌else◌, ◌==◌, Bool-cases, Option-cases, Text, All,
  contains, text_eq, nat_eq,
}
use nosaic_switch.Base.Int.{int_eq}
use nosaic_switch.Base.Map.{Map, lookup, adjust, has, lookup-adjust, has-adjust}
use nosaic_switch.Base.Exec.{ok}
use nosaic_switch.SwitchApi.Address.{prefix_eq}
use nosaic_switch.SwitchApi.Types.{gateway_eq}
use nosaic_switch.Mem.State.{PortState, LagState}
use nosaic_switch.Mem.Lags.{member_check, check_members, join_all, wanted, set_lag_of}
use nosaic_switch.Base.Every.{Every, Every-adjust}
use nosaic_switch.Mem.Writes.{members_of, released}
use nosaic_switch.Mem.Views.{
  lag_of, kind_of, lists, lag_in, lag_of-join_all, lag_of-released, kind_of-join_all,
  kind_of-released, contains-wanted, contains-members_of, in_place,
}
use nosaic_switch.Mem.Aggregation.{Aggregated, All-contains}

-- What the first loop of SetLAGMembers finds of a port that it lets through.
abbrev pub Fits : Text → Option PortState → Type 0
Fits name none = ⊥
Fits name (some p) = (p.is_lag ≡ false) × ((p.lag ≡ []) ⊎ (p.lag ≡ name)) × (p.vlans ≡ [])

member_check-Fits :
    (name n : Text) (p : PortState) → member_check name n p ≡ ok tt → Fits name (some p)
unfolding member_check
member_check-Fits name n p h = (ground arith, ground arith, ground arith)

step_of :
    (name n : Text) (ns : List Text) (m : Map Text PortState) (o : Option PortState)
    → lookup n m ≡ o
    → check_members name (n ∷ ns) m ≡ ok tt
    → Fits name o × (check_members name ns m ≡ ok tt)
unfolding check_members
step_of name n ns m none e h = absurd (ground arith)
step_of name n ns m (some p) e h = (member_check-Fits name n p (ground arith), ground arith)

pub check_members-Fits :
    (name : Text) (ns : List Text) (m : Map Text PortState)
    → check_members name ns m ≡ ok tt
    → (n : Text) → contains ns n ≡ true
    → Fits name (lookup n m)
check_members-Fits name [] m h n c = absurd (ground arith)
check_members-Fits name (k ∷ ns) m h n c =
    let both = step_of name k ns m (lookup k m) refl h in
    elim (text_eq.dec k n) [
      | yes same ↦ subst (λ j. Fits name (lookup j m)) same both.0
      | no other ↦ check_members-Fits name ns m both.1 n (ground arith)
    ]

Fits-lag_in :
    (name : Text) (o : Option PortState)
    → Fits name o
    → (lag_in o ≡ some []) ⊎ (lag_in o ≡ some name)
Fits-lag_in name none f = absurd f
Fits-lag_in name (some p) (kind, inl e, bare) = inl (ap some e)
Fits-lag_in name (some p) (kind, inr e, bare) = inr (ap some e)

Fits-lag_of :
    (name n : Text) (m : Map Text PortState)
    → Fits name (lookup n m)
    → (lag_of n m ≡ some []) ⊎ (lag_of n m ≡ some name)
unfolding lag_of
Fits-lag_of name n m f = Fits-lag_in name (lookup n m) f

-- Not in a VLAN and not a LAG interface.
abbrev pub Plain : PortState → Type 0
Plain p = (p.vlans ≡ []) × (p.is_lag ≡ false)

-- Members, and those of `ws`, are plain.
abbrev pub Ready : List Text → Text → PortState → Type 0
Ready ws n p = (p.lag ≢ [] → Plain p) × (contains ws n ≡ true → Plain p)

module _ (ws : List Text) where
  pub released-Ready :
      (want ns : List Text) (m : Map Text PortState)
      → Every (Ready ws) m
      → Every (Ready ws) (released want ns m)
  unfolding released
  released-Ready want [] m h = h
  released-Ready want (n ∷ ns) m h = elim (Bool-cases (contains want n)) [
    | inl keep ↦ rw keep (released-Ready want ns m h)
    | inr drop ↦ rw drop (
        released-Ready want ns _
          (Every-adjust n (set_lag_of []) m h (λ p e r. (λ q. absurd (q refl), r.1))))
  ]

  join_all-Ready :
      (g : Text) (ns : List Text) (m : Map Text PortState)
      → All (λ n. contains ws n ≡ true) ns
      → Every (Ready ws) m
      → Every (Ready ws) (join_all g ns m)
  unfolding join_all
  join_all-Ready g [] m all h = h
  join_all-Ready g (n ∷ ns) m all h =
      join_all-Ready g ns _ all.1
        (Every-adjust n (set_lag_of g) m h (λ p e r. (λ q. r.1 all.0, r.1)))

set_lag-named :
    (n g : Text) (m : Map Text PortState)
    → Every (λ n p. p.name ≡ n) m
    → Every (λ n p. p.name ≡ n) (adjust n (set_lag_of g) m)
set_lag-named n g m h = Every-adjust n (set_lag_of g) m h (λ p e old. old)

pub released-named :
    (want ns : List Text) (m : Map Text PortState)
    → Every (λ n p. p.name ≡ n) m
    → Every (λ n p. p.name ≡ n) (released want ns m)
unfolding released
released-named want [] m h = h
released-named want (n ∷ ns) m h = elim (Bool-cases (contains want n)) [
  | inl keep ↦ rw keep (released-named want ns m h)
  | inr drop ↦ rw drop (released-named want ns _ (set_lag-named n [] m h))
]

join_all-named :
    (g : Text) (ns : List Text) (m : Map Text PortState)
    → Every (λ n p. p.name ≡ n) m
    → Every (λ n p. p.name ≡ n) (join_all g ns m)
unfolding join_all
join_all-named g [] m h = h
join_all-named g (n ∷ ns) m h = join_all-named g ns _ (set_lag-named n g m h)

lists-members :
    (name g n : Text) (ws : List Text) (lags : Map Text LagState)
    → has name lags ≡ true
    → lists g (adjust name (λ l. record l { members = ws }) lags) n
      ≡ (if name == g then contains ws n else lists g lags n)
unfolding lists
lists-members name g n ws lags h =
    ground (arith, lookup-adjust name g (λ (l : LagState). record l { members = ws }) lags)

-- The port of a name that the call asks for.
asked :
    (name : Text) (want : List Text) (n : Text) (ps : Map Text PortState)
    → check_members name want ps ≡ ok tt
    → contains want n ≡ true
    → (lag_of n ps ≡ some []) ⊎ (lag_of n ps ≡ some name)
asked name want n ps h c = Fits-lag_of name n ps (check_members-Fits name want ps h n c)

Fits-Plain :
    (name : Text) (o : Option PortState) (p : PortState) → o ≡ some p → Fits name o → Plain p
Fits-Plain name none p e f = absurd f
Fits-Plain name (some q) p e f = ground arith

-- The agreement of one port and one LAG `g` after the call, from what was known before it: `x` is the
-- LAG that the port was in, `c` says that it is a front-panel port, `t` that the call asks for it,
-- `m` and `l` that the LAG of the call and `g` listed it.
agree :
    (name g : Text) (x : Option Text) (c t m l : Bool)
    → g ≢ []
    → (x ≡ some name → m ≡ true)
    → (m ≡ true → x ≡ some name)
    → (x ≡ some g → l ≡ true)
    → (l ≡ true → x ≡ some g)
    → (t ≡ true → (x ≡ some []) ⊎ (x ≡ some name))
    → (x ≡ some name → c ≡ true)
    → (c ≡ true → x ≢ none)
    → (in_place (c && t) name (in_place (m && not t) [] x) ≡ some g)
      ↔ ((if name == g then c && t else l) ≡ true)
agree name g x c t m l ne m_from m_to l_from l_to fit front is_port =
    (λ h. ground arith, λ h. ground arith)

module _ {ports : List Text} {ps : Map Text PortState} {lags : Map Text LagState} where
  pub member_front :
      (a : Aggregated ports ps lags) (n g : Text)
      → g ≢ []
      → lag_of n ps ≡ some g
      → contains ports n ≡ true
  unfolding lag_of kind_of
  member_front a n g h e = elim (Option-cases (lookup n ps)) [
    | inl gone ↦ absurd (ground arith)
    | inr (p, there) ↦
        let at : p.lag ≡ g = ground arith in
        a.is_front n (rw there (ap some ((a.bare n p there (λ q. h (sym at ∙ q))).1)))
  ]

  pub front_in :
      (a : Aggregated ports ps lags) (n : Text) → contains ports n ≡ true → lag_of n ps ≢ none
  unfolding lag_of kind_of
  front_in a n c e = ground (arith, a.front_port n)

  module _ (name : Text) (want : List Text) (a : Aggregated ports ps lags) where
    abbrev ws : List Text
    ws = wanted want ports

    abbrev ps' : Map Text PortState
    ps' = join_all name ws (released want (members_of name lags) ps)

    abbrev lags' : Map Text LagState
    lags' = adjust name (λ l. record l { members = ws }) lags

    module _ (fit : check_members name want ps ≡ ok tt) (there : has name lags ≡ true) where
      lag_now :
          (n : Text)
          → lag_of n ps'
            ≡ in_place
                (contains ports n && contains want n)
                name
                (in_place (lists name lags n && not (contains want n)) [] (lag_of n ps))
      lag_now n =
          lag_of-join_all name ws n _
          ∙ rw
              (
                contains-wanted want ports n,
                lag_of-released want (members_of name lags) n ps,
                contains-members_of name lags n,
              )
              refl

      lists_now :
          (g n : Text)
          → lists g lags' n
            ≡ (if name == g then contains ports n && contains want n else lists g lags n)
      lists_now g n = lists-members name g n ws lags there ∙ rw (contains-wanted want ports n) refl

      not_empty : name ≢ []
      not_empty e = absurd (ground (arith, a.no_empty_name))

      kind_now : (n : Text) → kind_of n ps' ≡ kind_of n ps
      kind_now n = kind_of-join_all name ws n _ ∙ kind_of-released want (members_of name lags) n ps

      agree_now : (n g : Text) → g ≢ [] → (lag_of n ps' ≡ some g) ↔ (lists g lags' n ≡ true)
      agree_now n g h =
          rw (lag_now n, lists_now g n)
            (agree name g (lag_of n ps) (contains ports n) (contains want n) (lists name lags n)
              (lists g lags n) h (a.listed_by n name not_empty) (a.says n name not_empty)
              (a.listed_by n g h) (a.says n g h) (asked name want n ps fit)
              (member_front a n name not_empty) (front_in a n))

      has_now : (n : Text) → has n lags' ≡ has n lags
      has_now n = has-adjust name n _ lags

      ready : Every (Ready ws) ps
      ready n p e = (
        a.bare n p e,
        λ c.
            Fits-Plain name (lookup n ps) p e (
              check_members-Fits name want ps fit n (ground (arith, contains-wanted want ports n))),
      )

      pub members-Aggregated : Aggregated ports ps' lags'
      members-Aggregated = record {
        listed_by = λ n g h. (agree_now n g h).0;
        says = λ n g h. (agree_now n g h).1;
        is_lag = λ n e. has_now n ∙ a.is_lag n (sym (kind_now n) ∙ e);
        lag_port = λ n e. kind_now n ∙ a.lag_port n (sym (has_now n) ∙ e);
        is_front = λ n e. a.is_front n (sym (kind_now n) ∙ e);
        front_port = λ n e. kind_now n ∙ a.front_port n e;
        bare = λ n p e.
            (join_all-Ready ws name ws _ (All-contains ws (λ k c. c))
              (released-Ready ws want (members_of name lags) ps ready) n p e).0;
        named = join_all-named name ws _ (released-named want (members_of name lags) ps a.named);
        no_empty_name = has_now [] ∙ a.no_empty_name;
        front_names = a.front_names;
      }
