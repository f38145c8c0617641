-- ===== src/Thermal.antt =====
-- The cooling loop (internal/thermal/thermal.go): the curve, the hottest sensor, and the commands that
-- Run gives the fans and the lamps. What the board answers is an argument: a Round for each interval.
pub mod Slope
pub mod Target
pub mod Duty
pub mod Examples
use nosaic_switch.Base.{
  Bool, true, false, ◌&&◌, Option, none, some, List, [], ◌∷◌, ◌++◌, if◌then◌else◌, ◌==◌, Text,
  text_eq,
}
use nosaic_switch.Base.Int.{
  ℤ, pos, negsuc, int_eq, ◌+ℤ◌, ◌-ℤ◌, ◌*ℤ◌, quot_ℤ, div_ℤ, wrap64, ltb_ℤ, leb_ℤ,
}

pub record Curve : Type 0 where
  pub min_c : ℤ
  pub max_c : ℤ
  pub slew_down_max : ℤ
  pub interval : ℤ

-- The interval in nanoseconds.
abbrev pub default_curve : Curve
default_curve = record {
  min_c = pos 35;
  max_c = pos 65;
  slew_down_max = pos 5;
  interval = pos 10_000_000_000;
}

-- A field that a board left unset.
abbrev pub unset_to : ℤ → ℤ → ℤ
unset_to default x = if leb_ℤ x (pos 0) then default else x

unfoldable pub with_defaults : Curve → Curve
with_defaults c =
    let unset = c.min_c == pos 0 && c.max_c == pos 0 in
    record {
      min_c = if unset then default_curve.min_c else c.min_c;
      max_c = if unset then default_curve.max_c else c.max_c;
      slew_down_max = unset_to default_curve.slew_down_max c.slew_down_max;
      interval = unset_to default_curve.interval c.interval;
    }

-- The duty on the curve's slope, each operator in 64 bits. It is asked for between MinC and MaxC only,
-- so the divisor is not 0, but a curve can be so wide that it is negative or that the product wraps.
unfoldable pub ramp : ℤ → ℤ → ℤ → ℤ → ℤ
ramp low high floor hot =
    let over = wrap64 (hot -ℤ low) in
    let room = wrap64 (pos 100 -ℤ floor) in
    let range = wrap64 (high -ℤ low) in
    wrap64 (floor +ℤ wrap64 (div_ℤ (wrap64 (over *ℤ room)) range))

unfoldable pub target_on : ℤ → ℤ → ℤ → ℤ → ℤ
target_on low high floor hot =
    if ltb_ℤ hot (pos 0)
    then pos 100
    else if leb_ℤ hot low
    then floor
    else if leb_ℤ high hot
    then pos 100
    else ramp low high floor hot

unfoldable pub target : Curve → ℤ → ℤ → ℤ
target c hot floor = let d = with_defaults c in target_on d.min_c d.max_c floor hot

-- The loop over the readings, in thousandths of a degree.
unfoldable pub hottest_from : ℤ → List ℤ → ℤ
hottest_from hot [] = hot
hottest_from hot (milli ∷ rest) =
    let c = quot_ℤ milli 1000 in hottest_from (if ltb_ℤ hot c then c else hot) rest

-- What a board does in one interval: its readings and whether reading failed, whether it refuses the
-- fans' duty, and the fault in writing its lamps.
pub record Round : Type 0 where
  pub temps : List ℤ
  pub failed : Bool
  pub refused : Bool
  pub lamp_fault : Option Text

abbrev pub is_empty : List ℤ → Bool
is_empty [] = true
is_empty (_ ∷ _) = false

unfoldable pub hottest : Round → ℤ
unfolding hottest_from
hottest r = if r.failed && is_empty r.temps then negsuc 0 else hottest_from (negsuc 0) r.temps

-- What the loop does to the world. A line of the log by its content, less the map of readings and the
-- counts of fans; the line that says that the last command was refused is left out.
pub data Event : Type 0 where
  fan_percent : ℤ → Event
  health_lamps : ℤ → ℤ → Event
  lamps_unmanaged : Event
  log_curve : ℤ → ℤ → ℤ → ℤ → Event
  log_cycle : ℤ → ℤ → Bool → Event
  log_lamps : Text → Event
  log_stopping : Event

-- Up at once, down slowly.
unfoldable pub slew : ℤ → ℤ → ℤ → ℤ
slew down_max cur want =
    if ltb_ℤ cur want
    then want
    else if ltb_ℤ down_max (wrap64 (cur -ℤ want))
    then wrap64 (cur -ℤ down_max)
    else want

-- The panel: a fault is logged once for each distinct fault, and is what is remembered.
unfoldable pub lamp_events : ℤ → ℤ → Text → Option Text → List Event × Text
lamp_events hot max_c last none = (health_lamps hot max_c ∷ [], [])
lamp_events hot max_c last (some fault) =
    (health_lamps hot max_c ∷ (if fault == last then [] else log_lamps fault ∷ []), fault)

abbrev pub panel : Bool → ℤ → ℤ → Text → Option Text → List Event × Text
panel false hot max_c last fault = ([], last)
panel true hot max_c last fault = lamp_events hot max_c last fault

-- The duty that a round commands, from the one before.
unfoldable pub next_duty : Curve → ℤ → ℤ → Round → ℤ
next_duty curve floor cur r =
    slew (with_defaults curve).slew_down_max cur (target (with_defaults curve) (hottest r) floor)

-- What is deferred: the lamps, then full cooling.
unfoldable pub stopping : Bool → List Event
stopping lamps =
    (if lamps then lamps_unmanaged ∷ [] else []) ++ (log_stopping ∷ fan_percent (pos 100) ∷ [])

-- `lamps`: the board has health lamps. `once`: one round only.
module _ (curve : Curve) (floor : ℤ) (lamps once : Bool) where
  -- The `for`, until the rounds end: then the context is cancelled.
  unfoldable pub cycles : ℤ → Text → List Round → List Event
  unfolding next_duty lamp_events
  cycles cur last [] = []
  cycles cur last (r ∷ rs) =
      let duty = next_duty curve floor cur r in
      let (shown, fault) = panel lamps (hottest r) (with_defaults curve).max_c last r.lamp_fault in
      let rest = cycles duty fault rs in
      fan_percent duty
      ∷ log_cycle (hottest r) duty r.refused
      ∷ (shown ++ (if once then [] else rest))

  -- `refused`: the first command of the fans fails. Otherwise there is one round at least. The result
  -- says whether Run returned no error.
  unfoldable pub run : Bool → Round → List Round → Bool × List Event
  unfolding cycles stopping
  run true r rs = (false, fan_percent (pos 100) ∷ [])
  run false r rs =
      let c = with_defaults curve in
      (
        true,
        fan_percent (pos 100)
            ∷ log_curve floor c.min_c c.max_c c.interval
            ∷ (cycles (pos 100) [] (r ∷ rs) ++ stopping lamps),
      )
