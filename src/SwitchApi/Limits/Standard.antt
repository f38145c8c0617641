-- ===== src/SwitchApi/Limits/Standard.antt =====
-- What the shared checks let through, as the standards that they cite put it.
use nosaic_switch.Base.{ℕ, ◌*◌, ◌/◌, ◌<◌, ◌≡◌, ap, ◌↔◌, arith, text_eq, nat_eq}
use nosaic_switch.Base.Int.{ℤ, pos, negsuc, int_eq, ◌+ℤ◌, ◌≤ℤ◌}
use nosaic_switch.Base.Exec.{ok}
use nosaic_switch.SwitchApi.Types.{StpConfig, MlagConfig}
use nosaic_switch.SwitchApi.Limits.{
  valid_stp_times, stp_hello_of, stp_forward_of, stp_max_age_of, valid_stp_priority,
  valid_mlag_times, stp_times_check, mlag_times_check, mlag_hello_of, mlag_dead_of, mlag_settle_of,
  mlag_port_of,
}

-- `low ≤ x ≤ high`
abbrev Within : ℕ → ℤ → ℕ → Type 0
Within low x high = (pos low ≤ℤ x) × (x ≤ℤ pos high)

-- 802.1D-2004 17.14: hello h, forward delay f and max age m of a bridge.
pub record IsTimes (h f m : ℤ) : Type 0 where
  pub hello : Within 1 h 10
  pub forward_delay : Within 4 f 30
  pub max_age : Within 6 m 40
  pub age_low : h +ℤ h +ℤ pos 2 ≤ℤ m
  pub age_high : m +ℤ pos 2 ≤ℤ f +ℤ f

stp_times_check_sound : (h f m : ℤ) → stp_times_check h f m ≡ ok tt → IsTimes h f m
unfolding stp_times_check
stp_times_check_sound (pos h) (pos f) (pos m) e = ground arith
stp_times_check_sound (negsuc h) f m e = absurd (ground arith)
stp_times_check_sound (pos h) (negsuc f) m e = absurd (ground arith)
stp_times_check_sound (pos h) (pos f) (negsuc m) e = absurd (ground arith)

stp_times_check_complete : (h f m : ℤ) → IsTimes h f m → stp_times_check h f m ≡ ok tt
unfolding stp_times_check
stp_times_check_complete (pos h) (pos f) (pos m) t = ground arith
stp_times_check_complete (negsuc h) f m t = absurd (omega (arith, t.hello))
stp_times_check_complete (pos h) (negsuc f) m t = absurd (omega arith)
stp_times_check_complete (pos h) (pos f) (negsuc m) t = absurd (omega arith)

-- A configuration's bridge times are accepted exactly when they meet 802.1D-2004 17.14, with the
-- defaults for the times that it leaves out: 2 (h + 1) ≤ m ≤ 2 (f - 1), each time in its range.
pub valid_stp_times_iff :
    (c : StpConfig)
    → (valid_stp_times c ≡ ok tt) ↔ IsTimes (stp_hello_of c) (stp_forward_of c) (stp_max_age_of c)
unfolding valid_stp_times
valid_stp_times_iff c = (stp_times_check_sound _ _ _, stp_times_check_complete _ _ _)

-- What the MLAG timers must be: a hello from 100 ms to 10 s, a dead interval of at least two hellos.
pub record IsMlagTimes (h d s p reload : ℤ) : Type 0 where
  pub hello : Within 100 h 10000
  pub two_hellos : h +ℤ h ≤ℤ d
  pub dead : d ≤ℤ pos 60000
  pub settle : Within 0 s 60000
  pub port : Within 1 p 65535
  pub reload_delay : Within 0 reload 3600

mlag_times_check_sound :
    (h d s p reload : ℤ) → mlag_times_check h d s p reload ≡ ok tt → IsMlagTimes h d s p reload
unfolding mlag_times_check
mlag_times_check_sound (pos h) d s p reload e = ground arith
mlag_times_check_sound (negsuc h) d s p reload e = absurd (ground arith)

mlag_times_check_complete :
    (h d s p reload : ℤ) → IsMlagTimes h d s p reload → mlag_times_check h d s p reload ≡ ok tt
unfolding mlag_times_check
mlag_times_check_complete (pos h) d s p reload t = ground arith
mlag_times_check_complete (negsuc h) d s p reload t = absurd (omega arith)

-- MLAG's timers are accepted exactly when, with the defaults for those left out, each is in its range
-- and the dead interval is two hellos at least.
pub valid_mlag_times_iff :
    (c : MlagConfig)
    → (valid_mlag_times c ≡ ok tt)
      ↔ IsMlagTimes
          (mlag_hello_of c)
          (mlag_dead_of c)
          (mlag_settle_of c)
          (mlag_port_of c)
          c.reload_delay
unfolding valid_mlag_times
valid_mlag_times_iff c = (mlag_times_check_sound _ _ _ _ _, mlag_times_check_complete _ _ _ _ _)

-- A bridge priority is accepted exactly when it is one of the sixteen multiples of 4096 from 0 to 61440.
pub valid_stp_priority_iff :
    (p : ℤ) → (valid_stp_priority p ≡ ok tt) ↔ ((n : ℕ) × (n < 16) × (p ≡ pos (n * 4096)))
unfolding valid_stp_priority
valid_stp_priority_iff (pos p) =
    (λ h. (p / 4096, ground arith, ap pos (ground arith)), λ (n, b, e). ground arith)
valid_stp_priority_iff (negsuc p) = (λ h. absurd (ground arith), λ (n, b, e). ground arith)
