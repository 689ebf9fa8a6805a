-- ===== src/Cost/Running.antt =====
-- RunningHours against the history of the app: the number of instants at which it ran.
use morsel.Prelude.{
  ℕ, ◌+◌, ◌-◌, ◌≤◌, ◌≡◌, refl, ap, ◌∙◌, Bool, true, false, List, [], ◌∷◌, Option, none, some,
  str_eq, arith, if◌then◌else◌, leb, pos, Bool-cases, inl, inr,
}
use morsel.Apps.Models.{ScaleEvent}
use morsel.Cost.Hours.{meter_events, ran_before, close, running_time}
use morsel.Cost.Instants.{instants, instants-split, instants-constant, instants-same, instants-le}

-- Whether the app runs after an event.
abbrev pub after : ScaleEvent → Bool → Bool
after e b =
    if str_eq e.event "scale_to_1" then true else if str_eq e.event "scale_to_0" then false else b

-- Whether it runs at an instant: as after the last event up to then.
unfoldable pub runs_at : Bool → List ScaleEvent → ℕ → Bool
runs_at b [] τ = b
runs_at b (e ∷ rest) τ = if leb e.occurred_at τ then runs_at (after e b) rest τ else b

-- The events are in the order of their times, between the two ends.
unfoldable pub Ordered : ℕ → List ScaleEvent → ℕ → Type 0
Ordered from [] now = from ≤ now
Ordered from (e ∷ rest) now = (from ≤ e.occurred_at) × Ordered e.occurred_at rest now

pub Ordered-le :
    (from : ℕ) (events : List ScaleEvent) (now : ℕ) → Ordered from events now → from ≤ now
unfolding Ordered
Ordered-le from [] now h = h
Ordered-le from (e ∷ rest) now h = omega (arith, h.0, Ordered-le e.occurred_at rest now h.1)

-- Up to the next event nothing changes, and from then on the rest of the events decides.
runs_at-step :
    (b : Bool) (e : ScaleEvent) (rest : List ScaleEvent) (from gap n : ℕ)
    → from + gap ≡ e.occurred_at
    → instants (runs_at b (e ∷ rest)) from (gap + n)
      ≡ (if b then gap else 0) + instants (runs_at (after e b) rest) e.occurred_at n
unfolding runs_at
runs_at-step b e rest from gap n at = ground (
  arith,
  instants-split (runs_at b (e ∷ rest)) from gap n,
  instants-constant (runs_at b (e ∷ rest)) b from gap (λ τ l u. ground arith),
  instants-same (runs_at b (e ∷ rest)) (runs_at (after e b) rest) e.occurred_at n
      (λ τ l. ground arith),
  ap (λ k. instants (runs_at b (e ∷ rest)) k n) at,
)

abbrev is_on : Option ℕ → Bool
is_on none = false
is_on (some start) = true

-- The running time since the start, up to an instant.
abbrev since : Option ℕ → ℕ → ℕ
since none from = 0
since (some start) from = from - start

abbrev Started : Option ℕ → ℕ → Type 0
Started none from = Unit
Started (some start) from = start ≤ from

runs_at-next :
    (b : Bool) (e : ScaleEvent) (rest : List ScaleEvent) (from now : ℕ)
    → from ≤ e.occurred_at
    → e.occurred_at ≤ now
    → instants (runs_at b (e ∷ rest)) from (now - from)
      ≡ (if b then e.occurred_at - from else 0)
        + instants (runs_at (after e b) rest) e.occurred_at (now - e.occurred_at)
runs_at-next b e rest from now l u =
    ap (instants (runs_at b (e ∷ rest)) from) (omega arith)
    ∙ runs_at-step b e rest from (e.occurred_at - from) (now - e.occurred_at) (omega arith)

runs_at-empty : (b : Bool) (τ : ℕ) → runs_at b [] τ ≡ b
unfolding runs_at
runs_at-empty b τ = refl

running_time-from :
    (events : List ScaleEvent) (period_start now : ℕ) (hibernated : Bool)
    → running_time events period_start now hibernated
      ≡ close now (
          meter_events events (record {
            total = pos 0;
            run_start = if ran_before events hibernated then some period_start else none;
          }))
unfolding running_time
running_time-from events period_start now hibernated = refl

meter_events-exact :
    (events : List ScaleEvent) (from now k : ℕ) (s : Option ℕ)
    → Started s from
    → Ordered from events now
    → close now (meter_events events (record { total = pos k; run_start = s }))
      ≡ pos (k + since s from + instants (runs_at (is_on s) events) from (now - from))
unfolding Ordered meter_events
meter_events-exact [] from now k none a h = ground (
  arith,
  instants-constant (runs_at false []) false from (now - from) (λ τ l u. runs_at-empty false τ),
)
meter_events-exact [] from now k (some r) a h = ground (
  arith,
  instants-constant (runs_at true []) true from (now - from) (λ τ l u. runs_at-empty true τ),
)
meter_events-exact (e ∷ rest) from now k none a (l, h) =
    let u = Ordered-le e.occurred_at rest now h in
    ground (
      arith,
      runs_at-next false e rest from now l u,
      meter_events-exact rest e.occurred_at now k none tt h,
      meter_events-exact rest e.occurred_at now k (some e.occurred_at) (omega arith) h,
    )
meter_events-exact (e ∷ rest) from now k (some r) a (l, h) =
    let u = Ordered-le e.occurred_at rest now h in
    ground (
      arith,
      runs_at-next true e rest from now l u,
      meter_events-exact rest e.occurred_at now (k + (e.occurred_at - r)) none tt h,
      meter_events-exact rest e.occurred_at now k (some r) (omega arith) h,
    )

-- For events in the order of their times between the start of the period and now, the running time
-- is the number of nanoseconds in between at which the app ran by its history: as after the last
-- event up to that instant, and before the first one as if that had changed it, or awake if there
-- is none.
pub running_time-exact :
    (events : List ScaleEvent) (period_start now : ℕ) (hibernated : Bool)
    → Ordered period_start events now
    → running_time events period_start now hibernated
      ≡ pos (
          instants
            (runs_at (ran_before events hibernated) events)
            period_start
            (now - period_start))
running_time-exact events period_start now hibernated h =
    elim (Bool-cases (ran_before events hibernated)) [
      | inl b ↦ ground (
        arith,
        running_time-from events period_start now hibernated,
        meter_events-exact events period_start now 0 (some period_start) (omega arith) h,
      )
      | inr b ↦ ground (
        arith,
        running_time-from events period_start now hibernated,
        meter_events-exact events period_start now 0 none tt h,
      )
    ]

-- For events in the order of their times between the start of the period and now, the running time
-- is not negative and no more than the part of the period that is over.
pub running_time-bounded :
    (events : List ScaleEvent) (period_start now : ℕ) (hibernated : Bool)
    → Ordered period_start events now
    → (n : ℕ) × (running_time events period_start now hibernated ≡ pos n) × (n ≤ now - period_start)
running_time-bounded events period_start now hibernated h =
    let runs = runs_at (ran_before events hibernated) events in
    (
      instants runs period_start (now - period_start),
      running_time-exact events period_start now hibernated h,
      instants-le runs period_start (now - period_start),
    )
