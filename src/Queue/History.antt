-- ===== src/Queue/History.antt =====
-- A history of calls on the queues of one namespace, by any number of clients: the requests reach
-- SQLite one at a time, and each has its own failures.
use morsel.Prelude.{
  ℕ, ◌+◌, ◌≤◌, ◌≡◌, ◌≢◌, List, [], ◌∷◌, Option, none, some, String, ok, ℤ, All, ap, sym, ◌∙◌, subst,
  All-append, All-select,
}
use morsel.Queue.Tables.{MessageRow, delete_message}
use morsel.Queue.Files.{Dir, Faults, create_queue, delete_queue}
use morsel.Queue.Local.{
  enqueue, dequeue, ack, depth, usage, set_quota, Message, format_time, timeout_or_default,
}
use morsel.Queue.Claims.{messages_of, dequeue-Claimed}
use morsel.Queue.Moves.{Move, keep, append, hide, drop, clear}
use morsel.Queue.Refinement.{
  Moves, enqueue-Moves, dequeue-Moves, ack-Moves, delete_queue-Moves, create_queue-Keeps,
  depth-Keeps, usage-Keeps, set_quota-Keeps,
}
use morsel.Queue.Delivery.{
  Held, set_visibility-Held, set_visibility-Held_ne, select_next_message-not-Held,
}

pub data Call : Type 0 where
  enqueues : ℕ → Option String → String → String → List ℕ → String → Call
  dequeues : ℕ → ℕ → String → ℤ → Call
  acks : String → String → Call
  creates deletes measures : String → Call
  limits : ℤ → Call
  uses : Call

unfoldable pub step : Dir → Faults × Call → Dir
step d (f, enqueues now i ns name body sender) = (enqueue f now i ns name body sender d).0
step d (f, dequeues now db_now name t) = (dequeue f now db_now name t d).0
step d (f, acks name i) = (ack f name i d).0
step d (f, creates name) = (create_queue f name d).0
step d (f, deletes name) = (delete_queue f name d).0
step d (f, measures name) = (depth f name d).0
step d (f, limits n) = (set_quota f n d).0
step d (f, uses) = (usage f d).0

unfoldable pub run : Dir → List (Faults × Call) → Dir
run d [] = d
run d (c ∷ cs) = run (step d c) cs

-- The id that a call may have drawn, and the time at which it reads the table.
abbrev pub fresh_of : Call → Option String
fresh_of (enqueues now i ns name body sender) = i
fresh_of _ = none

abbrev pub clock_of : Call → ℕ
clock_of (dequeues now db_now name t) = db_now
clock_of _ = 0

-- Under any faults, each call of the queue's interface makes on each queue's table one move of the
-- abstract queue: nothing, a new message at the end, the selected message hidden, one id deleted,
-- or the queue emptied.
pub step-Moves :
    (j : String) (d : Dir) (f : Faults) (c : Call)
    → Moves j (fresh_of c) (clock_of c) d (step d (f, c))
unfolding step
step-Moves j d f (enqueues now i ns name body sender) =
    enqueue-Moves j f now i ns name body sender d
step-Moves j d f (dequeues now db_now name t) = dequeue-Moves j f now db_now name t d
step-Moves j d f (acks name i) = ack-Moves j f name i d
step-Moves j d f (creates name) = keep (create_queue-Keeps j f name d)
step-Moves j d f (deletes name) = delete_queue-Moves j f name d
step-Moves j d f (measures name) = keep (depth-Keeps j f name d)
step-Moves j d f (limits n) = keep (set_quota-Keeps j f n d)
step-Moves j d f uses = keep (usage-Keeps j f d)

-- A call at a time up to `u` that does not draw the id `i`.
abbrev pub Within : ℕ → String → Call → Type 0
Within u i c = (clock_of c ≤ u) × (fresh_of c ≢ some i)

Move-Held :
    (u : ℕ) (i : String) {fresh : Option String} {clock : ℕ} (rows rows' : List MessageRow)
    → clock ≤ u
    → fresh ≢ some i
    → Move fresh clock rows rows'
    → Held u i rows
    → Held u i rows'
unfolding delete_message
Move-Held u i rows rows' le ne (keep e) h = subst (Held u i) (sym e) h
Move-Held u i rows rows' le ne (append r drawn _ _ e) h =
    subst (Held u i) (sym e)
      (All-append _ rows (r ∷ []) h ((λ same. absurd (ne (drawn ∙ ap some same))), tt))
Move-Held u i rows rows' le ne (hide t r sel e) h = subst (Held u i) (sym e) (
    set_visibility-Held_ne u t i r.id rows
      (λ same. select_next_message-not-Held u _ i rows le h sel (sym same)) h)
Move-Held u i rows rows' le ne (drop k e) h = subst (Held u i) (sym e) (All-select _ _ rows h)
Move-Held u i rows rows' le ne (clear e) h = subst (Held u i) (sym e) tt

run-Held :
    (u : ℕ) (i j : String) (d : Dir) (cs : List (Faults × Call))
    → All (λ c. Within u i c.1) cs
    → Held u i (messages_of d j)
    → Held u i (messages_of (run d cs) j)
unfolding run
run-Held u i j d [] w h = h
run-Held u i j d ((f, c) ∷ cs) w h =
    run-Held u i j (step d (f, c)) cs w.1 (Move-Held u i _ _ w.0.0 w.0.1 (step-Moves j d f c) h)

-- Once Dequeue has handed out a message, a later Dequeue on the same queue by the database's clock
-- at or before the end of its visibility timeout returns a message of another id, whatever calls on
-- the namespace come between, failed ones included, provided that these dequeue by a clock no later
-- than that and that no new message draws the same id.
pub dequeue_exclusive :
    (f g : Faults) (now db_now now2 db_now2 : ℕ) (name : String) (t t2 : ℤ) (d d' d2 : Dir)
    (m m2 : Message) (cs : List (Faults × Call))
    → dequeue f now db_now name t d ≡ (d', ok (some m))
    → All (λ c. Within (format_time (now + timeout_or_default t)) m.id c.1) cs
    → db_now2 ≤ format_time (now + timeout_or_default t)
    → dequeue g now2 db_now2 name t2 (run d' cs) ≡ (d2, ok (some m2))
    → m2.id ≢ m.id
dequeue_exclusive f g now db_now now2 db_now2 name t t2 d d' d2 m m2 cs e w le e2 same =
    let u = format_time (now + timeout_or_default t) in
    let c = dequeue-Claimed f now db_now name t d d' m e in
    let c2 = dequeue-Claimed g now2 db_now2 name t2 (run d' cs) d2 m2 e2 in
    let held : Held u m.id (messages_of d' name) =
      subst (λ i. Held u i (messages_of d' name)) (sym (ap (λ (x : Message). x.id) c.returned))
        (subst (Held u c.row.id) (sym c.updated)
          (set_visibility-Held u c.row.id (messages_of d name))) in
    select_next_message-not-Held u db_now2 m.id (messages_of (run d' cs) name) le
      (run-Held u m.id name d' cs w held) c2.selected
      (sym (ap (λ (x : Message). x.id) c2.returned) ∙ same)
