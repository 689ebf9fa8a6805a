-- ===== src/Cost/Hours.antt =====
-- RunningHours of internal/cost/cost.go, in nanoseconds: the hours are its quotient by 3.6e12.
use morsel.Prelude.{
  ℕ, Bool, not, List, [], ◌∷◌, Option, none, some, str_eq, if◌then◌else◌, ℤ, pos, sub, ◌+ℤ◌,
}
use morsel.Apps.Models.{ScaleEvent}

-- The total so far, and since when the app runs if it does.
pub record Meter : Type 0 where
  pub total : ℤ
  pub run_start : Option ℕ

unfoldable pub meter_event : Meter → ScaleEvent → Meter
meter_event m e =
    if str_eq e.event "scale_to_1"
    then elim m.run_start [ none ↦ record m { run_start = some e.occurred_at } | some start ↦ m ]
    else if str_eq e.event "scale_to_0"
    then elim m.run_start [
      | none ↦ m
      | some start ↦ record { total = m.total +ℤ sub e.occurred_at start; run_start = none }
    ]
    else m

unfoldable pub meter_events : List ScaleEvent → Meter → Meter
unfolding meter_event
meter_events [] m = m
meter_events (e ∷ rest) m = meter_events rest (meter_event m e)

-- The app ran from the start of the period if its first event stops it, or if there is none and it
-- is awake.
unfoldable pub ran_before : List ScaleEvent → Bool → Bool
ran_before [] hibernated = not hibernated
ran_before (e ∷ rest) hibernated = str_eq e.event "scale_to_0"

abbrev pub close : ℕ → Meter → ℤ
close now m = elim m.run_start [ none ↦ m.total | some start ↦ m.total +ℤ sub now start ]

unfoldable pub running_time : List ScaleEvent → ℕ → ℕ → Bool → ℤ
unfolding meter_events ran_before
running_time events period_start now hibernated = close now (
    meter_events events (record {
      total = pos 0;
      run_start = if ran_before events hibernated then some period_start else none;
    }))
