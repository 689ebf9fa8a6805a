-- ===== src/Health/Latest.antt =====
-- What is read of a component is the last report that the channel took.
use morsel.Prelude.{
  ℕ, ◌≡◌, refl, sym, ap, ◌∙◌, Bool, List, [], ◌∷◌, ◌++◌, Option, none, some, String, str_eq,
  if◌then◌else◌, length, ltb, Assoc, lookup, lookup-insert, arith, if_split,
}
use morsel.Health.Receiver.{
  StatusUpdate, Component, Receiver, capacity, update_of, report, receive, keep, new_reporter,
}

-- A component reports, or the receiver takes a report.
pub data Event : Type 0 where
  reported : Component → Bool → String → Event
  received : ℕ → Event

unfoldable pub run : List Event → Receiver → Receiver
unfolding report receive
run [] r = r
run (reported c healthy reason ∷ events) r = run events (report c healthy reason r)
run (received now ∷ events) r = run events (receive now r)

-- The reports that the channel took.
unfoldable pub accepted : List Event → Receiver → List StatusUpdate
accepted [] r = []
accepted (reported c healthy reason ∷ events) r =
    let rest = accepted events (report c healthy reason r) in
    if ltb (length r.channel) capacity then update_of c healthy reason ∷ rest else rest
accepted (received now ∷ events) r = accepted events (receive now r)

-- The last report of the component, after what was known of it.
unfoldable pub latest : String → Option StatusUpdate → List StatusUpdate → Option StatusUpdate
latest name known [] = known
latest name known (u ∷ log) = latest name (if str_eq u.component name then some u else known) log

-- A report without the time at which it was taken.
abbrev pub untimed : Option StatusUpdate → Option StatusUpdate
untimed none = none
untimed (some u) = some (record u { updated_at = 0 })

abbrev pub known : String → Receiver → Option StatusUpdate
known name r = untimed (lookup name r.state)

-- The reports in the buffer have no time yet.
abbrev Untimed : List StatusUpdate → Type 0
Untimed [] = Unit
Untimed (u ∷ log) = (u.updated_at ≡ 0) × Untimed log

latest-append :
    (name : String) (front back : List StatusUpdate) (k : Option StatusUpdate)
    → latest name k (front ++ back) ≡ latest name (latest name k front) back
unfolding latest
latest-append name [] back k = refl
latest-append name (u ∷ front) back k = latest-append name front back _

Untimed-append :
    (log : List StatusUpdate) (u : StatusUpdate)
    → Untimed log
    → u.updated_at ≡ 0
    → Untimed (log ++ u ∷ [])
Untimed-append [] u h e = (e, tt)
Untimed-append (x ∷ log) u (here, there) e = (here, Untimed-append log u there e)

keep-known :
    (now : ℕ) (name : String) (u : StatusUpdate) (state : Assoc StatusUpdate)
    → u.updated_at ≡ 0
    → untimed (lookup name (keep now u state))
      ≡ (if str_eq u.component name then some u else untimed (lookup name state))
keep-known now name u state e =
    ground (arith, e, lookup-insert u.component name (record u { updated_at = now }) state)

-- What is known of a component once the buffer is empty.
abbrev pending : String → Receiver → Option StatusUpdate
pending name r = latest name (known name r) r.channel

abbrev taken : Component → Bool → String → Receiver → List StatusUpdate
taken c healthy reason r =
    if ltb (length r.channel) capacity then update_of c healthy reason ∷ [] else []

report-pending :
    (name : String) (c : Component) (healthy : Bool) (reason : String) (r : Receiver)
    → pending name (report c healthy reason r)
      ≡ latest name (pending name r) (taken c healthy reason r)
unfolding report latest
report-pending name c healthy reason r =
    ground (arith, latest-append name r.channel (update_of c healthy reason ∷ []) (known name r))

report-Untimed :
    (c : Component) (healthy : Bool) (reason : String) (r : Receiver)
    → Untimed r.channel
    → Untimed (report c healthy reason r).channel
unfolding report
report-Untimed c healthy reason r h =
    if_split (λ (x : Receiver). Untimed x.channel) (ltb (length r.channel) capacity) _ _
      (λ e. Untimed-append r.channel (update_of c healthy reason) h refl) (λ e. h)

receive-pending :
    (name : String) (now : ℕ) (channel : List StatusUpdate) (state : Assoc StatusUpdate)
    → Untimed channel
    → (pending name (receive now (record { channel = channel; state = state }))
        ≡ pending name (record { channel = channel; state = state }))
      × Untimed (receive now (record { channel = channel; state = state })).channel
unfolding receive latest
receive-pending name now [] state h = (refl, tt)
receive-pending name now (u ∷ rest) state (here, there) =
    (ap (λ k. latest name k rest) (keep-known now name u state here), there)

run-pending :
    (name : String) (events : List Event) (r : Receiver)
    → Untimed r.channel
    → pending name (run events r) ≡ latest name (pending name r) (accepted events r)
unfolding run accepted latest
run-pending name [] r h = refl
run-pending name (reported c healthy reason ∷ events) r h =
    let r1 = report c healthy reason r in
    let rest = run-pending name events r1 (report-Untimed c healthy reason r h) in
    ground (arith, rest, report-pending name c healthy reason r)
run-pending name (received now ∷ events) r h =
    let (same, untimed_rest) = receive-pending name now r.channel r.state h in
    run-pending name events (receive now r) untimed_rest
    ∙ ap (λ k. latest name k (accepted events (receive now r))) same

-- What the receiver knows of a component once the buffer is empty is the last of its reports that the
-- channel took.
pub run-latest :
    (name : String) (events : List Event)
    → (run events new_reporter).channel ≡ []
    → known name (run events new_reporter) ≡ latest name none (accepted events new_reporter)
unfolding new_reporter lookup latest
run-latest name events e =
    ap (λ log. latest name (known name (run events new_reporter)) log) (sym e)
    ∙ run-pending name events new_reporter tt
