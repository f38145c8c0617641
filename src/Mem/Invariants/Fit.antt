-- ===== src/Mem/Invariants/Fit.antt =====
-- What is true of every port on its own, whatever calls were made (internal/nosd/mem/mem.go and qinq.go).
pub mod History
use nosaic_switch.Base.{
  ◌≡◌, refl, sym, ◌∙◌, ◌≢◌, Bool, true, false, some, [], ◌∷◌, arith, if◌then◌else◌, Text,
  ℕ_discrete, text_eq, nat_eq,
}
use nosaic_switch.Base.Int.{ℤ, pos, int_eq, ℤ-discrete}
use nosaic_switch.Base.Map.{Map, lookup, insert, delete, lookup-insert, lookup-delete}
use nosaic_switch.Base.Exec.{ok}
use nosaic_switch.SwitchApi.Address.{prefix_eq}
use nosaic_switch.SwitchApi.Types.{gateway_eq}
use nosaic_switch.SwitchApi.Limits.{outside, valid_tpid}
use nosaic_switch.Mem.State.{PortState, Switch, new_port}
use nosaic_switch.Mem.Vlans.{drop_native, join_vlan, leave_vlan, become_tunnel}
use nosaic_switch.Mem.Lags.{new_lag_port}
use nosaic_switch.Base.Every.{Every}

-- What is true of every port: its MTU and its TPID are ones that the switch takes, it has one native
-- VLAN at most, and a tunnel port is an untagged member of its service VLAN at most.
pub record IsFit (p : PortState) : Type 0 where
  pub mtu : outside p.mtu 68 9216 ≡ false
  pub tpid : valid_tpid p.tpid ≡ ok tt
  pub native : (v w : ℤ) → lookup v p.vlans ≡ some false → lookup w p.vlans ≡ some false → v ≡ w
  pub tunnel :
      (v : ℤ) (tagged : Bool)
      → p.tunnel ≢ pos 0
      → lookup v p.vlans ≡ some tagged
      → (v ≡ p.tunnel) × (tagged ≡ false)

abbrev pub PortsFit : Switch → Type 0
PortsFit s = Every (λ n p. IsFit p) s.by_name

no_vlan : (v : ℤ) (o : Bool) → lookup {V = Bool} v [] ≢ some o
unfolding lookup
no_vlan v o e = cc

pub fresh-IsFit : (n : Text) → IsFit (new_port n)
unfolding new_port valid_tpid ℕ_discrete ℤ-discrete
fresh-IsFit n = record {
  mtu = refl;
  tpid = refl;
  native = λ v w e f. absurd (no_vlan v false e);
  tunnel = λ v t h e. absurd (no_vlan v t e);
}

pub fresh_lag-IsFit : (n : Text) → IsFit (new_lag_port n)
unfolding new_port valid_tpid ℕ_discrete ℤ-discrete
fresh_lag-IsFit n = record {
  mtu = refl;
  tpid = refl;
  native = λ v w e f. absurd (no_vlan v false e);
  tunnel = λ v t h e. absurd (no_vlan v t e);
}

delete-some :
    (k v : ℤ) (t : Bool) (m : Map ℤ Bool) → lookup v (delete k m) ≡ some t → lookup v m ≡ some t
delete-some k v t m e = ground (arith, lookup-delete k v m)

-- No untagged membership but that of `vid` is left.
drop_native-untagged :
    (vid v : ℤ) (m : Map ℤ Bool) → lookup v (drop_native vid m) ≡ some false → v ≡ vid
unfolding drop_native lookup
drop_native-untagged vid v [] e = absurd (ground arith)
drop_native-untagged vid v ((w, t) ∷ m) e = ground (arith, drop_native-untagged vid v m)

join-native :
    (vid v : ℤ) (tagged : Bool) (m : Map ℤ Bool)
    → lookup v (insert vid tagged (if tagged then m else drop_native vid m)) ≡ some false
    → (tagged ≡ true → lookup v m ≡ some false) × (tagged ≡ false → v ≡ vid)
join-native vid v true m e = (λ _. ground (arith, lookup-insert vid v true m), λ q. cc)
join-native vid v false m e = (
  λ q. cc,
  λ _. ground (arith, lookup-insert vid v false (drop_native vid m), drop_native-untagged vid v m),
)

pub join-IsFit :
    (vid : ℤ) (tagged : Bool) (p : PortState)
    → p.tunnel ≡ pos 0
    → IsFit p
    → IsFit (join_vlan vid tagged p)
unfolding join_vlan
join-IsFit vid true p plain h = record {
  mtu = h.mtu;
  tpid = h.tpid;
  native = λ v w e f.
      h.native v w ((join-native vid v true p.vlans e).0 refl)
        ((join-native vid w true p.vlans f).0 refl);
  tunnel = λ v t on e. absurd (on plain);
}
join-IsFit vid false p plain h = record {
  mtu = h.mtu;
  tpid = h.tpid;
  native = λ v w e f.
      (join-native vid v false p.vlans e).1 refl ∙ sym ((join-native vid w false p.vlans f).1 refl);
  tunnel = λ v t on e. absurd (on plain);
}

pub drop-IsFit :
    (vid : ℤ) (p : PortState) → IsFit p → IsFit (record p { vlans = delete vid p.vlans })
drop-IsFit vid p h = record {
  mtu = h.mtu;
  tpid = h.tpid;
  native = λ v w e f.
      h.native v w (delete-some vid v false p.vlans e) (delete-some vid w false p.vlans f);
  tunnel = λ v t on e. h.tunnel v t on (delete-some vid v t p.vlans e);
}

pub leave-IsFit : (vid : ℤ) (p : PortState) → IsFit p → IsFit (leave_vlan vid p)
unfolding leave_vlan valid_tpid ℕ_discrete
leave-IsFit vid p h = record {
  mtu = h.mtu;
  tpid = ground (arith, h.tpid);
  native = (drop-IsFit vid p h).native;
  tunnel = λ v t on e.
      let (same, untagged) =
        h.tunnel v t (λ q. on (ground arith)) (delete-some vid v t p.vlans e) in
      (ground arith, untagged);
}

one_vlan : (k v : ℤ) (t : Bool) → lookup v ((k, false) ∷ []) ≡ some t → (v ≡ k) × (t ≡ false)
unfolding lookup
one_vlan k v t e = (ground arith, ground arith)

pub tunnel-IsFit : (svid : ℤ) (p : PortState) → IsFit p → IsFit (become_tunnel svid p)
unfolding become_tunnel
tunnel-IsFit svid p h = record {
  mtu = h.mtu;
  tpid = h.tpid;
  native = λ v w e f. (one_vlan svid v false e).0 ∙ sym (one_vlan svid w false f).0;
  tunnel = λ v t on e. one_vlan svid v t e;
}
