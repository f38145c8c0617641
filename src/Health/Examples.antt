-- ===== src/Health/Examples.antt =====
-- A switch with two ports, one of them configured up and up.
use nosaic_switch.Base.{
  ℕ_discrete, Bool, true, false, none, some, List, [], ◌∷◌, if◌then◌else◌, ◌==◌, Text,
  Text-discrete, text, text_eq, ◌≡◌, refl, ◌↔◌,
}
use nosaic_switch.Base.Int.{pos}
use nosaic_switch.Base.Exec.{Result, ok, err}
use nosaic_switch.SwitchApi.Types.{Port, PortStatus}
use nosaic_switch.SwitchApi.Errors.{Error, no_such_port}
use nosaic_switch.Health.{none_up, tally, check}
use nosaic_switch.Health.Verdict.{Answered, Forwarding, check_iff}

abbrev swp1 : Port
swp1 = record { name = text "swp1"; index = 1 }

abbrev swp2 : Port
swp2 = record { name = text "swp2"; index = 2 }

abbrev status_of : Bool → Text → PortStatus
status_of up name = record {
  name = name;
  admin_up = name == text "swp1";
  oper_up = up;
  speed_mbps = pos 10000;
  full_duplex = true;
  mtu = pos 1500;
}

-- Both ports answer; `up` says whether their links are.
abbrev answers : Bool → Text → Result Error PortStatus
answers up name =
    if name == text "swp1"
    then ok (status_of up name)
    else if name == text "swp2"
    then ok (status_of up name)
    else err (no_such_port name)

abbrev ok_ports : List Port → Result Error (List Port)
ok_ports ps = ok ps

up_and_down : (check (answers false) (ok (swp1 ∷ swp2 ∷ []))).1 ≡ some (none_up 1)
unfolding check tally Text-discrete ℕ_discrete
up_and_down = refl

check_iff_example : ((check (answers true) (ok (swp1 ∷ swp2 ∷ []))).1 ≡ none) ↔ (
    (p : Port) × (ps : List Port) × (sts : List PortStatus) × (ok_ports (swp1 ∷ swp2 ∷ [])
      ≡ ok (p ∷ ps))
    × Answered (answers true) (p ∷ ps) sts
    × Forwarding (answers true) sts)
check_iff_example = check_iff (answers true) (ok (swp1 ∷ swp2 ∷ []))
