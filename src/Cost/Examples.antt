-- ===== src/Cost/Examples.antt =====
-- The hours of an app that slept for a while, and the theorems applied to it.
use morsel.Prelude.{ℕ, ◌-◌, ◌≡◌, refl, false, List, [], ◌∷◌, String, arith, pos}
use morsel.Apps.Models.{ScaleEvent}
use morsel.Cost.Hours.{running_time, ran_before}
use morsel.Cost.Instants.{instants}
use morsel.Cost.Running.{runs_at, Ordered, running_time-exact}

abbrev event_at : ℕ → String → ScaleEvent
event_at t event = record {
  namespace = "org-repo--web";
  app = "web";
  event = event;
  occurred_at = t;
}

abbrev nap : List ScaleEvent
nap = event_at 10 "scale_to_0" ∷ event_at 25 "scale_to_1" ∷ []

nap-Ordered : Ordered 4 nap 30
unfolding Ordered
nap-Ordered = (omega arith, (omega arith, omega arith))

running_time-exact_example :
    running_time nap 4 30 false ≡ pos (instants (runs_at (ran_before nap false) nap) 4 (30 - 4))
running_time-exact_example = running_time-exact nap 4 30 false nap-Ordered

nap_time : running_time nap 4 30 false ≡ pos 11
unfolding running_time
nap_time = refl
