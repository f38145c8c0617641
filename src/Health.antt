-- ===== src/Health.antt =====
-- Whether a freshly booted image is good enough to keep (internal/health/health.go). What the datapath
-- answers is an argument; the line that Check prints is left out.
pub mod Verdict
pub mod Examples
use nosaic_switch.Base.{
  ℕ, ◌+◌, Bool, true, false, ◌&&◌, Option, none, some, List, [], ◌∷◌, if◌then◌else◌, ltb, ◌==◌,
  nat_eq, Text, length,
}
use nosaic_switch.Base.Exec.{Result, ok, err}
use nosaic_switch.SwitchApi.Types.{Port, PortStatus}
use nosaic_switch.SwitchApi.Errors.{Error}

-- Result
pub record Report : Type 0 where
  pub ports : ℕ
  pub admin_up : ℕ
  pub oper_up : ℕ

pub data Fault : Type 0 where
  no_answer : Error → Fault
  no_ports : Fault
  no_status : Text → Error → Fault
  none_up : ℕ → Fault

-- `if up { n++ }`
abbrev pub count_if : Bool → ℕ → ℕ
count_if true n = n + 1
count_if false n = n

-- `ports` and `port_status` are the two methods of the datapath that Check calls.
module _ (port_status : Text → Result Error PortStatus) where
  -- The loop over the ports.
  unfoldable pub tally : List Port → Report → Report × Option Fault
  tally [] r = (r, none)
  tally (p ∷ ps) r = elim (port_status p.name) [
    | err e ↦ (r, some (no_status p.name e))
    | ok st ↦ tally ps (record r {
      admin_up = count_if st.admin_up r.admin_up;
      oper_up = count_if st.oper_up r.oper_up;
    })
  ]

  -- Behind the loop: ports are configured up, and none is up.
  abbrev pub forwards : Report × Option Fault → Report × Option Fault
  forwards (r, some f) = (r, some f)
  forwards (r, none) =
      (r, if ltb 0 r.admin_up && r.oper_up == 0 then some (none_up r.admin_up) else none)

  -- Check
  unfoldable pub check : Result Error (List Port) → Report × Option Fault
  unfolding tally
  check (err e) = (record { ports = 0; admin_up = 0; oper_up = 0 }, some (no_answer e))
  check (ok []) = (record { ports = 0; admin_up = 0; oper_up = 0 }, some no_ports)
  check (ok (p ∷ ps)) =
      forwards (tally (p ∷ ps) (record { ports = length (p ∷ ps); admin_up = 0; oper_up = 0 }))
