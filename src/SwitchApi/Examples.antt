-- ===== src/SwitchApi/Examples.antt =====
-- The checks of the datapath contract on concrete configurations.
use nosaic_switch.Base.{
  ℕ, ◌*◌, ◌^◌, ◌≤◌, ◌<◌, ◌≡◌, ◌↔◌, Bool, true, some, ◌==◌, Text, text, ℕ_discrete, text_eq, nat_eq,
}
use nosaic_switch.Base.Int.{pos, int_eq, ℤ-discrete}
use nosaic_switch.Base.Exec.{ok}
use nosaic_switch.SwitchApi.Address.{prefix_eq}
use nosaic_switch.SwitchApi.Types.{StpConfig, MlagConfig, no_mlag, gateway_eq}
use nosaic_switch.SwitchApi.Names.{lag_name, valid_lag_name}
use nosaic_switch.SwitchApi.Limits.{valid_stp_priority, valid_stp_times, valid_mlag_times}
use nosaic_switch.SwitchApi.Acl.{AclRule, validate}
use nosaic_switch.SwitchApi.Address.{v4, no_prefix}
use nosaic_switch.SwitchApi.Names.{valid_lag_name_iff}
use nosaic_switch.SwitchApi.Acl.{permit, acl_any, IsSound, validate_iff}
use nosaic_switch.SwitchApi.Limits.Standard.{
  IsTimes, IsMlagTimes, valid_stp_times_iff, valid_mlag_times_iff, valid_stp_priority_iff,
}

abbrev swp1_is : Text → Bool
swp1_is name = name == text "swp1"

-- permit tcp, in on swp1, from 10.0.0.0/8, to port 22
abbrev ssh_rule : AclRule
ssh_rule = record {
  seq = pos 10;
  family = pos 4;
  action = permit;
  in_port = text "swp1";
  proto = pos 6;
  src = record { addr = v4 0x0a000000; bits_plus_one = 9 };
  dst = no_prefix;
  src_port = acl_any;
  dst_port = pos 22;
}

abbrev slow_bridge : StpConfig
slow_bridge = record {
  enabled = true;
  priority = pos 4096;
  hello_time = pos 0;
  forward_delay = pos 10;
  max_age = pos 18;
}

abbrev quick_pair : MlagConfig
quick_pair = record no_mlag {
  enabled = true;
  peer_link = text "po1";
  hello_ms = pos 100;
  dead_ms = pos 200;
}

validate_iff_example : (validate ssh_rule (some swp1_is) ≡ ok tt) ↔ IsSound ssh_rule swp1_is
validate_iff_example = validate_iff ssh_rule swp1_is

valid_lag_name_iff_example :
    (valid_lag_name (text "po3") ≡ ok tt)
    ↔ ((n : ℕ) × (1 ≤ n) × (n < 2 ^ 63) × (text "po3" ≡ lag_name (pos n)))
valid_lag_name_iff_example = valid_lag_name_iff (text "po3")

valid_stp_times_iff_example :
    (valid_stp_times slow_bridge ≡ ok tt) ↔ IsTimes (pos 2) (pos 10) (pos 18)
unfolding ℤ-discrete ℕ_discrete
valid_stp_times_iff_example = valid_stp_times_iff slow_bridge

valid_mlag_times_iff_example :
    (valid_mlag_times quick_pair ≡ ok tt)
    ↔ IsMlagTimes (pos 100) (pos 200) (pos 2500) (pos 47101) (pos 0)
unfolding ℤ-discrete ℕ_discrete
valid_mlag_times_iff_example = valid_mlag_times_iff quick_pair

valid_stp_priority_iff_example :
    (valid_stp_priority (pos 4096) ≡ ok tt) ↔ ((n : ℕ) × (n < 16) × (pos 4096 ≡ pos (n * 4096)))
valid_stp_priority_iff_example = valid_stp_priority_iff (pos 4096)

abbrev ten : ℕ
ten = 10
