-- ===== src/Mem/Invariants/MlagIds.antt =====
-- The ids of the multi-chassis pair and its peer link (internal/nosd/mem/mlag.go).
use nosaic_switch.Base.{
  ◌≡◌, refl, sym, ap, ◌∙◌, ◌≢◌, inl, inr, Bool, true, false, none, List, [], ◌∷◌, arith,
  if◌then◌else◌, ◌==◌, Bool-cases, Option-cases, Text, text_eq, nat_eq,
}
use nosaic_switch.Base.Int.{ℤ, pos, int_eq}
use nosaic_switch.Base.Map.{
  Map, lookup, insert, delete, adjust, has, lookup-insert, lookup-delete, lookup-adjust,
}
use nosaic_switch.Base.Exec.{ok}
use nosaic_switch.SwitchApi.Address.{prefix_eq}
use nosaic_switch.SwitchApi.Types.{MlagConfig, no_mlag, gateway_eq}
use nosaic_switch.Mem.State.{LagState, Config, Switch}
use nosaic_switch.Mem.Svis.{place_of}
use nosaic_switch.Mem.Lags.{new_lag}
use nosaic_switch.Mem.Mlag.{mlag_id_of, id_check, id_holder}
use nosaic_switch.Mem.Calls.{
  Net, Call, run, add_address, del_address, add_lag, set_lag_members, del_lag, set_lag_options,
  set_mlag, set_lag_mlag,
}
use nosaic_switch.Mem.Writes.{after, Guard}
use nosaic_switch.Mem.State.{new}
use nosaic_switch.Mem.Aggregation.History.{IsAggregated}
use nosaic_switch.Mem.Invariants.{history-keeps, place-keeps, choice-keeps}

-- The MLAG id of a LAG, 0 when it has none or there is no such LAG.
unfoldable pub mlag_at : Text → Map Text LagState → ℤ
unfolding mlag_id_of
mlag_at g m = mlag_id_of (lookup g m)

-- No two LAGs share an MLAG id, and the peer link has none.
abbrev pub IdsApart : Switch → Type 0
IdsApart s =
    ((g h : Text) → mlag_at g s.lags ≡ mlag_at h s.lags → mlag_at g s.lags ≢ pos 0 → g ≡ h)
    × (s.mlag.enabled ≡ true → mlag_at s.mlag.peer_link s.lags ≡ pos 0)

mlag_at-same :
    (k g : Text) (f : LagState → LagState) (m : Map Text LagState)
    → ((l : LagState) → (f l).mlag ≡ l.mlag)
    → mlag_at g (adjust k f m) ≡ mlag_at g m
unfolding mlag_at
mlag_at-same k g f m same = elim (Option-cases (lookup g m)) [
  | inl gone ↦ ground (arith, gone, lookup-adjust k g f m)
  | inr (l, there) ↦ ground (arith, there, lookup-adjust k g f m, same l)
]

mlag_at-set :
    (k g : Text) (id : ℤ) (m : Map Text LagState)
    → has k m ≡ true
    → mlag_at g (adjust k (λ l. record l { mlag = id }) m) ≡ (if k == g then id else mlag_at g m)
unfolding mlag_at
mlag_at-set k g id m there = elim (text_eq.dec k g) [
  | yes same ↦ ground (arith, lookup-adjust k g (λ l. record l { mlag = id }) m)
  | no other ↦ ground (arith, lookup-adjust k g (λ l. record l { mlag = id }) m)
]

mlag_at-new :
    (k g : Text) (lacp : Bool) (m : Map Text LagState)
    → mlag_at g (insert k (new_lag lacp) m) ≡ (if k == g then pos 0 else mlag_at g m)
unfolding mlag_at new_lag
mlag_at-new k g lacp m = ground (arith, lookup-insert k g (new_lag lacp) m)

mlag_at-delete :
    (k g : Text) (m : Map Text LagState)
    → mlag_at g (delete k m) ≡ (if k == g then pos 0 else mlag_at g m)
unfolding mlag_at
mlag_at-delete k g m = ground (arith, lookup-delete k g m)

id_holder-none :
    (name : Text) (id : ℤ) (m : Map Text LagState) (n : Text)
    → id_holder name id m ≡ none
    → id ≢ pos 0
    → name ≢ n
    → mlag_at n m ≢ id
unfolding id_holder mlag_at lookup
id_holder-none name id [] n e z d q = absurd (ground arith)
id_holder-none name id ((k, l) ∷ m) n e z d q = elim (Bool-cases (k == n)) [
  | inl same ↦ absurd (ground (arith, same))
  | inr other ↦ id_holder-none name id m n (ground arith) z d (ground (arith, other))
]

-- A change of the ids under which they stay apart.
same-Apart :
    (m m' : Map Text LagState) (c : MlagConfig)
    → ((g : Text) → mlag_at g m' ≡ mlag_at g m)
    → ((g h : Text) → mlag_at g m ≡ mlag_at h m → mlag_at g m ≢ pos 0 → g ≡ h)
      × (c.enabled ≡ true → mlag_at c.peer_link m ≡ pos 0)
    → ((g h : Text) → mlag_at g m' ≡ mlag_at h m' → mlag_at g m' ≢ pos 0 → g ≡ h)
      × (c.enabled ≡ true → mlag_at c.peer_link m' ≡ pos 0)
same-Apart m m' c same h = (
  λ g k e z. h.0 g k (sym (same g) ∙ e ∙ same k) (λ q. z (same g ∙ q)),
  λ on. same c.peer_link ∙ h.1 on,
)

-- One LAG loses its id.
cleared-Apart :
    (k : Text) (m m' : Map Text LagState) (c : MlagConfig)
    → ((g : Text) → mlag_at g m' ≡ (if k == g then pos 0 else mlag_at g m))
    → ((g h : Text) → mlag_at g m ≡ mlag_at h m → mlag_at g m ≢ pos 0 → g ≡ h)
      × (c.enabled ≡ true → mlag_at c.peer_link m ≡ pos 0)
    → ((g h : Text) → mlag_at g m' ≡ mlag_at h m' → mlag_at g m' ≢ pos 0 → g ≡ h)
      × (c.enabled ≡ true → mlag_at c.peer_link m' ≡ pos 0)
cleared-Apart k m m' c is h = (
  λ g j e z. h.0 g j (ground (arith, is g, is j)) (λ q. z (ground (arith, is g))),
  λ on. ground (arith, is c.peer_link, h.1 on),
)

id_check-free :
    (name : Text) (id : ℤ) (s : Switch)
    → id_check name id s ≡ ok tt
    → id ≢ pos 0
    → (id_holder name id s.lags ≡ none) × (s.mlag.enabled ≡ true → s.mlag.peer_link ≢ name)
unfolding id_check
id_check-free name id s e z = (ground arith, λ on q. absurd (ground arith))

set-Apart :
    (name : Text) (id : ℤ) (s : Switch)
    → has name s.lags ≡ true
    → id_check name id s ≡ ok tt
    → IdsApart s
    → IdsApart (record s { lags = adjust name (λ l. record l { mlag = id }) s.lags })
set-Apart name id s there e h = elim (int_eq.dec id (pos 0)) [
  | yes zero_id ↦
      cleared-Apart name s.lags _ s.mlag
        (λ g.
          mlag_at-set name g id s.lags there
          ∙ ap (λ x. if name == g then x else mlag_at g s.lags) zero_id)
        h
  | no real ↦
      let (free, off) = id_check-free name id s e real in
      (
        λ g k q z. elim (text_eq.dec name g) [
          | yes here ↦ elim (text_eq.dec name k) [
            | yes both ↦ sym here ∙ both
            | no other ↦ absurd (
                id_holder-none name id s.lags k free real other (
                  ground (
                    arith,
                    mlag_at-set name g id s.lags there,
                    mlag_at-set name k id s.lags there,
                  )))
          ]
          | no off_g ↦ elim (text_eq.dec name k) [
            | yes here ↦ absurd (
                id_holder-none name id s.lags g free real off_g (
                  ground (
                    arith,
                    mlag_at-set name g id s.lags there,
                    mlag_at-set name k id s.lags there,
                  )))
            | no off_k ↦
                h.0 g k
                  (ground
                    (arith, mlag_at-set name g id s.lags there, mlag_at-set name k id s.lags there))
                  (λ y. z (ground (arith, mlag_at-set name g id s.lags there)))
          ]
        ],
        λ on. ground (arith, mlag_at-set name s.mlag.peer_link id s.lags there, off on, h.1 on),
      )
]

peer-Apart :
    (s : Switch) (cfg : MlagConfig) (b : Bool)
    → (b ≡ true → mlag_at cfg.peer_link s.lags ≡ pos 0)
    → IdsApart s
    → IdsApart (record s { mlag = if b then cfg else no_mlag })
peer-Apart s cfg true zero_id h = (h.0, λ on. zero_id refl)
peer-Apart s cfg false zero_id h = (h.0, λ on. cc)

module _ (net : Net) where
  after-Apart :
      (c : Call) (s : Switch) → IsAggregated s → Guard net c s → IdsApart s → IdsApart (after c s)
  unfolding mlag_at
  after-Apart (set_lag_mlag name id) s a g h = set-Apart name id s g.1 g.2 h
  after-Apart (set_mlag cfg) s a g h = peer-Apart s cfg cfg.enabled (λ on. (g on).3) h
  after-Apart (add_lag name lacp) s a g h =
      choice-keeps IdsApart (has name s.lags) _ _
        (same-Apart s.lags _ s.mlag (λ n. mlag_at-same name n _ s.lags (λ l. refl)) h)
        (cleared-Apart name s.lags _ s.mlag (λ n. mlag_at-new name n lacp s.lags) h)
  after-Apart (del_lag name) s a g h =
      choice-keeps IdsApart (has name s.lags) _ _
        (cleared-Apart name s.lags _ s.mlag (λ n. mlag_at-delete name n s.lags) h) h
  after-Apart (set_lag_members name ports) s a g h =
      same-Apart s.lags _ s.mlag (λ n. mlag_at-same name n _ s.lags (λ l. refl)) h
  after-Apart (set_lag_options name o) s a g h =
      same-Apart s.lags _ s.mlag (λ n. mlag_at-same name n _ s.lags (λ l. refl)) h
  after-Apart (add_address name addr) s a g h =
      place-keeps IdsApart s (place_of name s) _ (λ n. h) (λ v. h) h
  after-Apart (del_address name addr) s a g h =
      place-keeps IdsApart s (place_of name s) _ (λ n. h) (λ v. h) h
  after-Apart _ s a g h = h

new-Apart : (cfg : Config) → IdsApart (new cfg)
unfolding new mlag_at lookup
new-Apart cfg = (λ g h e z. absurd (z refl), λ on. cc)

-- After any calls on a new switch, no two LAGs have the same MLAG id, and while MLAG is on the LAG that
-- is its peer link has none.
pub history-IdsApart : (net : Net) (cfg : Config) (cs : List Call) → IdsApart (run net cs (new cfg))
history-IdsApart net cfg cs = history-keeps net IdsApart (after-Apart net) cfg cs (new-Apart cfg)
