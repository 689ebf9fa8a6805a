-- ===== src/Queue/Receipt.antt =====
-- From Enqueue through Dequeue to Ack: what a consumer gets, and that an acknowledged message is
-- gone for good.
use mathlib.Core.List.{Mem}
use morsel.Prelude.{
  ℕ, ◌+◌, ◌≡◌, refl, ap, sym, subst, ◌∙◌, true, false, List, [], ◌∷◌, ◌++◌, Option, none, some,
  String, arith, ℤ, ok, Result,
}
use morsel.Queue.Tables.{MessageRow, is_visible, earlier, select_next_message}
use morsel.Queue.Files.{
  Error, Dir, Faults, open_queue_db, begin_tx, select_row, update_visibility, commit, exists, db_at,
  open_queue,
}
use morsel.Queue.Local.{Message, enqueue, dequeue, claim, format_time, timeout_or_default}
use morsel.Queue.Claims.{messages_of, dequeue-Claimed}
use morsel.Queue.Delivery.{NoneBefore, NoneVisible, idle, due, select_next_message-Selected}
use morsel.Queue.Accounting.{refused, accepted, enqueue_outcome}
use morsel.Queue.Refinement.{open_queue-Keeps}

-- The calls of Dequeue that work.
pub record Claims (f : Faults) : Type 0 where
  pub opens : f open_queue_db ≡ false
  pub begins : f begin_tx ≡ false
  pub selects : f select_row ≡ false
  pub updates : f update_visibility ≡ false
  pub commits : f commit ≡ false

abbrev pub to_message : Option MessageRow → Option Message
to_message none = none
to_message (some r) = some (record { id = r.id; body = r.body; enqueued_at = r.enqueued_at })

claim-ok :
    (f : Faults) (name : String) (until : ℕ) (o : Option MessageRow) (d : Dir)
    → Claims f
    → (claim f name until o d).1 ≡ ok (to_message o)
unfolding claim
claim-ok f name until none d w = refl
claim-ok f name until (some r) d w = ground arith

open_queue-ok :
    (f : Faults) (name : String) (d : Dir)
    → f open_queue_db ≡ false
    → exists name d ≡ true
    → (open_queue f name d).1 ≡ ok tt
unfolding open_queue
open_queue-ok f name d w there = ground arith

-- On a queue that is there, where the calls of Dequeue to the database work, Dequeue succeeds and
-- returns the message that the selection gives, or none if it gives none.
pub dequeue_returns :
    (f : Faults) (now db_now : ℕ) (name : String) (t : ℤ) (d : Dir)
    → Claims f
    → exists name d ≡ true
    → (dequeue f now db_now name t d).1
      ≡ ok (to_message (select_next_message db_now (messages_of d name)))
unfolding dequeue messages_of
dequeue_returns f now db_now name t d w there =
    let d1 = (open_queue f name d).0 in
    let same = open_queue-Keeps name f name d in
    let until = format_time (now + timeout_or_default t) in
    ground (
      arith,
      same,
      open_queue-ok f name d w.opens there,
      claim-ok f name until (select_next_message db_now (db_at d1 name).messages) d1 w,
    )

-- A message that Dequeue returns is a row of the queue's table with its id, body and time, was
-- visible at the database's clock, and no visible row of the table was enqueued before it.
pub dequeue_oldest :
    (f : Faults) (now db_now : ℕ) (name : String) (t : ℤ) (d d' : Dir) (m : Message)
    → dequeue f now db_now name t d ≡ (d', ok (some m))
    → (r : MessageRow) × Mem r (messages_of d name)
      × (m ≡ record { id = r.id; body = r.body; enqueued_at = r.enqueued_at })
      × (is_visible db_now r ≡ true)
      × NoneBefore db_now r.enqueued_at (messages_of d name)
dequeue_oldest f now db_now name t d d' m e =
    let c = dequeue-Claimed f now db_now name t d d' m e in
    elim (select_next_message-Selected db_now (messages_of d name)) [
      | idle n _ ↦ absurd (let q : none ≡ some c.row = sym n ∙ c.selected in ground arith)
      | due r s there v before ↦ (
        r,
        there,
        c.returned
            ∙ ap
                (λ (x : MessageRow). record {
                  id = x.id;
                  body = x.body;
                  enqueued_at = x.enqueued_at;
                })
                (let q : c.row ≡ r = cc (c.selected, s) in q),
        v,
        before,
      )
    ]

none_due-append :
    (now : ℕ) (rows : List MessageRow) (r : MessageRow)
    → NoneVisible now rows
    → is_visible now r ≡ true
    → select_next_message now (rows ++ r ∷ []) ≡ some r
unfolding select_next_message earlier
none_due-append now [] r h v = ground arith
none_due-append now (x ∷ rows) r h v = ground (arith, none_due-append now rows r h.1 v, h.0)

-- A message that Enqueue has accepted into a queue in which nothing is visible by a clock is what
-- the next Dequeue by that clock returns, with the body that was sent, where the calls of that
-- Dequeue work.
pub dequeue-enqueue :
    (f g : Faults) (now later db_now : ℕ) (i ns name sender : String) (body : List ℕ) (t : ℤ)
    (d d' : Dir)
    → enqueue f now (some i) ns name body sender d ≡ (d', ok tt)
    → NoneVisible db_now (messages_of d name)
    → Claims g
    → (dequeue g later db_now name t d').1
      ≡ ok (some (record { id = i; body = body; enqueued_at = format_time now }))
unfolding is_visible
dequeue-enqueue f g now later db_now i ns name sender body t d d' e quiet w =
    elim (enqueue_outcome f now (some i) ns name body sender d) [
      | refused x r q ↦ absurd (ground arith)
      | accepted _ _ s ↦
          let state = ap (λ (p : Dir × Result Error (Unit {0})). p.0) e in
          let there : exists name d' ≡ true = subst (λ x. exists name x ≡ true) state s.there in
          let rows : messages_of d' name ≡ messages_of d name ++ s.row ∷ [] =
            subst (λ x. messages_of x name ≡ messages_of d name ++ s.row ∷ []) state s.appended in
          let due =
            none_due-append db_now (messages_of d name) s.row quiet
              (ground (arith, ap (λ (r : MessageRow). r.visibility_until) s.content)) in
          dequeue_returns g later db_now name t d' w there
          ∙ ap (λ (o : Option MessageRow). ok (to_message o))
              (ap (select_next_message db_now) rows ∙ due)
          ∙ ground (arith, s.content, s.drawn)
    ]
