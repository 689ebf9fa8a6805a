-- ===== src/Wake/Single.antt =====
-- At most one wake of a namespace runs at a time: the map of internalWakeHandler.
use morsel.Prelude.{
  ℕ, ◌≡◌, refl, ap, Bool, true, false, not, List, [], ◌∷◌, ◌++◌, String, str_eq, if◌then◌else◌, any,
  select, sum_of, sum_of-append, arith, eq_iff, eq_refl, subst,
}
use morsel.Wake.Outcome.{Outcome, Asks, touch, refused, held, accepted, handler-Outcome}
use morsel.Apps.Models.{App, BudgetFlags, World, Faults}
use morsel.Apps.Hibernation.{namespace_or_empty}
use morsel.Wake.Handler.{
  Server, WakeTask, WakeRequest, WakeReply, wake_ack, Outside, start_wake, end_wake,
  internal_wake_handler,
}

abbrev wakes : String → WakeTask → ℕ
wakes ns t = if str_eq t.namespace ns then 1 else 0

-- The wakes of a namespace that run.
abbrev pub running_wakes : String → Server → ℕ
running_wakes ns s = sum_of (wakes ns) s.tasks

abbrev pub in_map : String → Server → Bool
in_map ns s = any (str_eq ns) s.waking_now

-- The map has a namespace if one wake of it runs, and lacks it if none does.
abbrev pub OneWake : Server → Type 0
OneWake s = (ns : String) → running_wakes ns s ≡ (if in_map ns s then 1 else 0)

start_wake-OneWake : (a : App) (ns : String) (s : Server) → OneWake s → OneWake (start_wake a ns s)
unfolding start_wake
start_wake-OneWake a ns s h other =
    let t : WakeTask = record { app_id = a.id; app_type = a.app_type; namespace = ns } in
    ground (
      arith,
      h other,
      h ns,
      sum_of-append (wakes other) s.tasks (t ∷ []),
      eq_iff ns other,
      eq_iff other ns,
    )

any-without :
    (gone ns : String) (map : List String)
    → any (str_eq ns) (select (λ x. not (str_eq gone x)) map)
      ≡ (if str_eq gone ns then false else any (str_eq ns) map)
any-without gone ns [] = ground arith
any-without gone ns (x ∷ map) =
    ground (arith, any-without gone ns map, eq_iff gone x, eq_iff ns x, eq_iff gone ns)

end_wake-OneWake :
    (f : Faults) (now : ℕ) (front back : List WakeTask) (t : WakeTask) (s : Server)
    → s.tasks ≡ front ++ t ∷ back
    → OneWake s
    → OneWake (end_wake f now front t back s)
unfolding end_wake
end_wake-OneWake f now front back t s e h ns =
    let before : sum_of (wakes ns) s.tasks ≡ sum_of (wakes ns) (front ++ t ∷ back) =
      ap (sum_of (wakes ns)) e in
    ground (
      arith,
      h ns,
      before,
      sum_of-append (wakes ns) front (t ∷ back),
      sum_of-append (wakes ns) front back,
      any-without t.namespace ns s.waking_now,
    )

-- What happens to the server: a request, the end of a wake, or anything else in the database and the
-- cluster.
pub data Step : Server → Server → Type 0 where
  request :
      (f : Faults) (now period_end : ℕ) (cfg : BudgetFlags) (o : Outside) (r : WakeRequest)
      (s : Server)
      → Step s (internal_wake_handler f now period_end cfg o r s).0
  ended :
      (f : Faults) (now : ℕ) (front back : List WakeTask) (t : WakeTask) (s : Server)
      → s.tasks ≡ front ++ t ∷ back
      → Step s (end_wake f now front t back s)
  elsewhere : (w : World) (s : Server) → Step s (record s { world = w })

pub data Run : Server → Server → Type 0 where
  stay : (s : Server) → Run s s
  next : (s u v : Server) → Step s u → Run u v → Run s v

Outcome-OneWake :
    (f : Faults) (now period_end : ℕ) (cfg : BudgetFlags) (o : Outside) (r : WakeRequest)
    (s v : Server) (reply : WakeReply)
    → Outcome f now period_end cfg o r s v reply
    → OneWake s
    → OneWake v
unfolding touch
Outcome-OneWake f now period_end cfg o r s v reply (refused n code) h = h
Outcome-OneWake f now period_end cfg o r s v reply (held a asked blocked) h = h
Outcome-OneWake f now period_end cfg o r s v reply (accepted a asked free) h =
    start_wake-OneWake a (namespace_or_empty a.namespace) (touch f now a s) h

Step-OneWake : (s v : Server) → Step s v → OneWake s → OneWake v
Step-OneWake s v (request f now period_end cfg o r _) h =
    Outcome-OneWake f now period_end cfg o r s v _ (handler-Outcome f now period_end cfg o r s) h
Step-OneWake s v (ended f now front back t _ e) h = end_wake-OneWake f now front back t s e h
Step-OneWake s v (elsewhere w _) h = h

-- From a server whose map of waking namespaces matches the background wakes that run, any sequence
-- of requests to the wake endpoint, ends of wakes and changes elsewhere, failed ones included,
-- leads to such a server: of each namespace at most one wake runs, and the map has exactly the
-- namespaces of those that run.
pub Run-OneWake : (s v : Server) → Run s v → OneWake s → OneWake v
Run-OneWake s v (stay _) h = h
Run-OneWake s v (next _ u _ first rest) h = Run-OneWake u v rest (Step-OneWake s u first h)

start_wake-in_map : (a : App) (ns : String) (s : Server) → in_map ns (start_wake a ns s) ≡ true
unfolding start_wake
start_wake-in_map a ns s = ground (arith, eq_refl ns)

-- The app of an acknowledgement has one wake running.
abbrev pub Awaited : Outside → WakeRequest → Server → Server → WakeReply → Type 0
Awaited o r s v (wake_ack name) =
    (a : App) × Asks o r s a
    × (a.name ≡ name)
    × (running_wakes (namespace_or_empty a.namespace) v ≡ 1)
Awaited o r s v _ = Unit

Outcome-Awaited :
    (f : Faults) (now period_end : ℕ) (cfg : BudgetFlags) (o : Outside) (r : WakeRequest)
    (s v : Server) (reply : WakeReply)
    → OneWake v
    → Outcome f now period_end cfg o r s v reply
    → Awaited o r s v reply
Outcome-Awaited f now period_end cfg o r s v reply h (refused n code) = tt
Outcome-Awaited f now period_end cfg o r s v reply h (held a asked blocked) = tt
Outcome-Awaited f now period_end cfg o r s v reply h (accepted a asked free) =
    let ns = namespace_or_empty a.namespace in
    (a, asked, refl, ground (arith, h ns, start_wake-in_map a ns (touch f now a s)))

-- If the map matches the wakes that run, a request that the wake endpoint acknowledges is a POST
-- with a token that is verified, for the host of an app with the acknowledged name, and after it
-- exactly one wake of that app's namespace runs.
pub acknowledged_runs :
    (f : Faults) (now period_end : ℕ) (cfg : BudgetFlags) (o : Outside) (r : WakeRequest)
    (s : Server) (name : String)
    → OneWake s
    → (internal_wake_handler f now period_end cfg o r s).1 ≡ wake_ack name
    → (a : App) × Asks o r s a
      × (a.name ≡ name)
      × (running_wakes
            (namespace_or_empty a.namespace)
            (internal_wake_handler f now period_end cfg o r s).0
          ≡ 1)
acknowledged_runs f now period_end cfg o r s name h e =
    let (v, reply) = internal_wake_handler f now period_end cfg o r s in
    let out : Outcome f now period_end cfg o r s v reply =
      handler-Outcome f now period_end cfg o r s in
    subst (Awaited o r s v) e (
      Outcome-Awaited f now period_end cfg o r s v reply
        (Outcome-OneWake f now period_end cfg o r s v reply out h) out)
