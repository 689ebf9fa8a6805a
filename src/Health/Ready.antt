-- ===== src/Health/Ready.antt =====
-- When the service says that it is ready.
use morsel.Prelude.{
  ℕ, ◌≡◌, ◌↔◌, refl, sym, ap, ◌∙◌, subst, Bool, true, false, ◌||◌, List, [], ◌∷◌, Option, none,
  some, String, str_eq, Assoc, insert, lookup, any, arith, eq_iff, eq_refl, Bool-cases, inl, inr,
  length, ltb, if_split,
}
use morsel.Health.Receiver.{
  StatusUpdate, Component, Receiver, new_reporter, capacity, report, receive, is_failing, all_ready,
  readyz_handler,
}
use morsel.Health.Latest.{
  Event, reported, received, run, accepted, latest, known, untimed, run-latest,
}

abbrev has_key : String → String × StatusUpdate → Bool
has_key name row = str_eq row.0 name

abbrev Distinct : Assoc StatusUpdate → Type 0
Distinct [] = Unit
Distinct ((name, u) ∷ rows) = (any (has_key name) rows ≡ false) × Distinct rows

insert-keys :
    (key other : String) (u : StatusUpdate) (rows : Assoc StatusUpdate)
    → any (has_key other) (insert key u rows) ≡ any (has_key other) rows || str_eq key other
unfolding insert
insert-keys key other u [] = ground arith
insert-keys key other u ((name, v) ∷ rows) =
    ground (arith, insert-keys key other u rows, eq_iff name key)

insert-Distinct :
    (key : String) (u : StatusUpdate) (rows : Assoc StatusUpdate)
    → Distinct rows
    → Distinct (insert key u rows)
unfolding insert
insert-Distinct key u [] h = (refl, tt)
insert-Distinct key u ((name, v) ∷ rows) (alone, rest) =
    if_split Distinct (str_eq name key) _ _
      (λ e. (subst (λ n. any (has_key n) rows ≡ false) ((eq_iff name key).0 e) alone, rest))
      (λ e. (
        ground (arith, insert-keys key name u rows, alone, eq_iff name key, eq_iff key name, e),
        insert-Distinct key u rows rest,
      ))

receive-Distinct :
    (now : ℕ) (channel : List StatusUpdate) (state : Assoc StatusUpdate)
    → Distinct state
    → Distinct (receive now (record { channel = channel; state = state })).state
unfolding receive
receive-Distinct now [] state h = h
receive-Distinct now (u ∷ rest) state h =
    insert-Distinct u.component (record u { updated_at = now }) state h

report-Distinct :
    (c : Component) (healthy : Bool) (reason : String) (r : Receiver)
    → Distinct r.state
    → Distinct (report c healthy reason r).state
unfolding report
report-Distinct c healthy reason r h =
    if_split (λ (x : Receiver). Distinct x.state) (ltb (length r.channel) capacity) _ _ (λ e. h)
      (λ e. h)

run-Distinct :
    (events : List Event) (r : Receiver) → Distinct r.state → Distinct (run events r).state
unfolding run
run-Distinct [] r h = h
run-Distinct (reported c healthy reason ∷ events) r h =
    run-Distinct events (report c healthy reason r) (report-Distinct c healthy reason r h)
run-Distinct (received now ∷ events) r h =
    run-Distinct events (receive now r) (receive-Distinct now r.channel r.state h)

-- A row that a lookup finds is not failing, if none is.
ready-row :
    (name : String) (u : StatusUpdate) (rows : Assoc StatusUpdate)
    → all_ready rows ≡ true
    → lookup name rows ≡ some u
    → is_failing u ≡ false
unfolding lookup
ready-row name u [] r e = ground (arith, e)
ready-row name u ((n, v) ∷ rows) r e = ground (arith, r, e, ready-row name u rows)

lookup-key :
    (name : String) (u : StatusUpdate) (rows : Assoc StatusUpdate)
    → lookup name rows ≡ some u
    → any (has_key name) rows ≡ true
unfolding lookup
lookup-key name u [] e = ground (arith, e)
lookup-key name u ((n, v) ∷ rows) e = ground (arith, e, lookup-key name u rows)

-- If not all are ready, a component is failing.
failing-row :
    (rows : Assoc StatusUpdate)
    → all_ready rows ≡ false
    → Distinct rows
    → (name : String) × (u : StatusUpdate) × (lookup name rows ≡ some u) × (is_failing u ≡ true)
unfolding lookup
failing-row [] r d = ground (arith, r)
failing-row ((n, v) ∷ rows) r (alone, rest) = elim (Bool-cases (is_failing v)) [
  | inl e ↦ (n, v, ground (arith, eq_refl n), e)
  | inr e ↦
      let (name, u, at, bad) = failing-row rows (ground (arith, r, e)) rest in
      (name, u, ground (arith, at, alone, lookup-key name u rows at, eq_iff n name), bad)
]

failing-untimed :
    (o : Option StatusUpdate) (u : StatusUpdate)
    → untimed o ≡ some u
    → (v : StatusUpdate) × (o ≡ some v) × (is_failing v ≡ is_failing u)
failing-untimed none u e = ground (arith, e)
failing-untimed (some v) u e = (v, refl, ground (arith, e))

-- Some component has reported, and none is failing, by what is known of each.
abbrev pub Ready : (String → Option StatusUpdate) → Type 0
Ready status =
    ((name : String) × (u : StatusUpdate) × (status name ≡ some u))
    × ((name : String) (u : StatusUpdate) → status name ≡ some u → is_failing u ≡ false)

Ready-forward :
    (channel : List StatusUpdate) (state : Assoc StatusUpdate)
    → readyz_handler (record { channel = channel; state = state }) ≡ 200
    → Ready (λ name. untimed (lookup name state))
unfolding readyz_handler lookup
Ready-forward channel [] e = ground (arith, e)
Ready-forward channel ((n, v) ∷ rows) e = (
  (n, record v { updated_at = 0 }, ground (arith, eq_refl n)),
  λ name u at.
      let (x, found, same) = failing-untimed (lookup name ((n, v) ∷ rows)) u at in
      let all : all_ready ((n, v) ∷ rows) ≡ true = ground (arith, e) in
      sym same ∙ ready-row name x ((n, v) ∷ rows) all found,
)

Ready-back :
    (channel : List StatusUpdate) (state : Assoc StatusUpdate)
    → Distinct state
    → Ready (λ name. untimed (lookup name state))
    → readyz_handler (record { channel = channel; state = state }) ≡ 200
unfolding readyz_handler lookup
Ready-back channel [] d ((name, u, e), fine) = ground (arith, e)
Ready-back channel ((n, v) ∷ rows) d (some_report, fine) =
    elim (Bool-cases (all_ready ((n, v) ∷ rows))) [
      | inl e ↦ ground (arith, e)
      | inr e ↦
          let (name, u, at, bad) = failing-row ((n, v) ∷ rows) e d in
          let good = fine name (record u { updated_at = 0 }) (ap untimed at) in
          ground (arith, good, bad)
    ]

Ready-same :
    (status other : String → Option StatusUpdate)
    → ((name : String) → status name ≡ other name)
    → Ready status
    → Ready other
Ready-same status other same ((name, u, e), fine) =
    ((name, u, sym (same name) ∙ e), λ n x at. fine n x (same n ∙ at))

-- After any sequence of reports and of turns of the receiver's loop from a new reporter, once the
-- buffer is empty, the readiness handler answers 200 if and only if the channel has taken a report
-- and no component is both critical and unhealthy by the last of its reports that the channel took.
pub readyz_handler-Ready :
    (events : List Event)
    → (run events new_reporter).channel ≡ []
    → (readyz_handler (run events new_reporter) ≡ 200)
      ↔ Ready (λ name. latest name none (accepted events new_reporter))
unfolding new_reporter
readyz_handler-Ready events e =
    let r = run events new_reporter in
    let log : String → Option StatusUpdate =
      λ name. latest name none (accepted events new_reporter) in
    let state : String → Option StatusUpdate = λ name. known name r in
    let same : (name : String) → state name ≡ log name = λ name. run-latest name events e in
    (
      λ h. Ready-same state log same (Ready-forward r.channel r.state h),
      λ h.
          Ready-back r.channel r.state (run-Distinct events new_reporter tt)
            (Ready-same log state (λ name. sym (same name)) h),
    )
