-- ===== src/Mem/Effect.antt =====
-- What a call does, in two cases: it is refused and nothing changes, or its checks passed and the
-- state is written. One rule for each step that a method is made of.
use nosaic_switch.Base.{
  ◌≡◌, refl, sym, ◌∙◌, subst, inl, inr, Bool, true, false, Option, none, some, arith, Bool-cases,
  Text, text_eq, nat_eq,
}
use nosaic_switch.Base.Int.{int_eq}
use nosaic_switch.Base.Map.{lookup, adjust}
use nosaic_switch.Base.Exec.{
  Check, Result, ok, err, check_if, lift, reads, modify, refuse_if, refuse_when, ◌>>=◌, ◌>>◌,
}
use nosaic_switch.SwitchApi.Address.{prefix_eq}
use nosaic_switch.SwitchApi.Types.{Capabilities, gateway_eq}
use nosaic_switch.SwitchApi.Errors.{Feature, Error}
use nosaic_switch.Mem.State.{
  or_missing, PortState, LagState, Switch, Op, need, lookup_port, lookup_lag, update_port,
}

abbrev pub failed : {A : Type 0} → Result Error A → Bool
failed (ok _) = false
failed (err _) = true

-- From `s`, `m` either fails and leaves `s`, or it succeeds, `G` holds, and it leaves `s'`.
pub record Effect (m : Op Unit) (s : Switch) (G : Type 0) (s' : Switch) : Type 0 where
  pub refused : failed (m s).0 ≡ true → (m s).1 ≡ s
  pub done : failed (m s).0 ≡ false → ((m s).1 ≡ s') × G

checked : (b : Bool) (e : Error) (a : Unit {0}) → check_if b e ≡ ok a → b ≡ false
checked true e a p = cc
checked false e a p = refl

present : {V : Type 0} (o : Option V) (e : Error) (v : V) → or_missing e o ≡ ok v → o ≡ some v
present none e v q = cc
present (some w) e v q = cc

module _ {G : Type 0} {s s' : Switch} where
  pub lift-Effect :
      {A : Type 0} (r : Result Error A) (k : A → Op Unit)
      → ((a : A) → r ≡ ok a → Effect (k a) s G s')
      → Effect (lift r >>= k) s G s'
  unfolding ◌>>=◌
  lift-Effect (ok a) k h = record { refused = (h a refl).refused; done = (h a refl).done }
  lift-Effect (err e) k h = record { refused = λ _. refl; done = λ f. cc }

  pub reads-Effect :
      {A : Type 0} (f : Switch → Result Error A) (k : A → Op Unit)
      → ((a : A) → f s ≡ ok a → Effect (k a) s G s')
      → Effect (reads f >>= k) s G s'
  unfolding ◌>>=◌
  reads-Effect f k h =
      let e = lift-Effect (f s) k h in record { refused = e.refused; done = e.done }

  pub check-Effect :
      (r : Check Error) (m : Op Unit) → (r ≡ ok tt → Effect m s G s') → Effect (lift r >> m) s G s'
  check-Effect r m h = lift-Effect r _ (λ a p. h p)

  pub test-Effect :
      (f : Switch → Check Error) (m : Op Unit)
      → (f s ≡ ok tt → Effect m s G s')
      → Effect (reads f >> m) s G s'
  test-Effect f m h = reads-Effect f _ (λ a p. h p)

  pub refuse_if-Effect :
      (b : Bool) (e : Error) (m : Op Unit)
      → (b ≡ false → Effect m s G s')
      → Effect (refuse_if b e >> m) s G s'
  unfolding refuse_if
  refuse_if-Effect b e m h = lift-Effect _ _ (λ a p. h (checked b e a p))

  pub refuse_when-Effect :
      (t : Switch → Bool) (e : Error) (m : Op Unit)
      → (t s ≡ false → Effect m s G s')
      → Effect (refuse_when t e >> m) s G s'
  unfolding refuse_when
  refuse_when-Effect t e m h = reads-Effect _ _ (λ a p. h (checked (t s) e a p))

  pub need-Effect :
      (c : Capabilities → Bool) (f : Feature) (m : Op Unit)
      → (c s.cfg.caps ≡ true → Effect m s G s')
      → Effect (need c f >> m) s G s'
  unfolding need
  need-Effect c f m h = refuse_when-Effect _ _ m (λ p. h (ground arith))

  pub lookup_port-Effect :
      (name : Text) (k : PortState → Op Unit)
      → ((p : PortState) → lookup name s.by_name ≡ some p → Effect (k p) s G s')
      → Effect (lookup_port name >>= k) s G s'
  unfolding lookup_port
  lookup_port-Effect name k h =
      reads-Effect _ k (λ p e. h p (present (lookup name s.by_name) _ p e))

  pub lookup_lag-Effect :
      (name : Text) (k : LagState → Op Unit)
      → ((l : LagState) → lookup name s.lags ≡ some l → Effect (k l) s G s')
      → Effect (lookup_lag name >>= k) s G s'
  unfolding lookup_lag
  lookup_lag-Effect name k h = reads-Effect _ k (λ l e. h l (present (lookup name s.lags) _ l e))

module _ {s : Switch} {G : Type 0} where
  pub modify-Effect : (f : Switch → Switch) → G → Effect (modify f) s G (f s)
  unfolding modify
  modify-Effect f g = record { refused = λ h. cc; done = λ _. (refl, g) }

  pub update_port-Effect :
      (name : Text) (f : PortState → PortState)
      → G
      → Effect (update_port name f) s G (record s { by_name = adjust name f s.by_name })
  unfolding update_port
  update_port-Effect name f g = modify-Effect _ g

module _ {m : Op Unit} {s s' : Switch} {G H : Type 0} where
  pub Effect-weaken : {t : Switch} → (G → H) → s' ≡ t → Effect m s G s' → Effect m s H t
  Effect-weaken into e v = record {
    refused = v.refused;
    done = λ h. let (same, g) = v.done h in (same ∙ e, into g);
  }

module _ {m : Op Unit} {s s' : Switch} {G : Type 0} where
  -- What holds before the call and after its write holds after the call.
  pub Effect-keeps : (P : Switch → Type 0) → Effect m s G s' → P s → (G → P s') → P (m s).1
  Effect-keeps P v h k = elim (Bool-cases (failed (m s).0)) [
    | inl no_write ↦ subst P (sym (v.refused no_write)) h
    | inr write ↦ let (same, g) = v.done write in subst P (sym same) (k g)
  ]
