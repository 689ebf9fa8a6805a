-- ===== src/Queue/Balance.antt =====
-- The byte count of quota.db is the size of what is stored, as long as no queue is deleted.
use morsel.Prelude.{
  ℕ, ◌+◌, ◌<◌, ◌≡◌, refl, ap, sym, subst, ◌∙◌, false, List, [], ◌∷◌, Option, none, some, String,
  arith, eq_refl, ℤ, ok, Result-cases, inl, inr, All,
}
use morsel.Queue.Tables.{
  MessageRow, QuotaRow, Db, subtract_bytes, delete_message, get_message_body_size, set_visibility,
  set_limit_bytes, select_next_message,
}
use morsel.Queue.Files.{
  Dir, Faults, update_quota, open_quota_db, db_at, write_db, open_quota, open_queue,
  open_or_create_queue, create_queue, quota_path,
}
use morsel.Queue.Local.{
  ack, discard, claim, dequeue, enqueue, depth, usage, set_quota, read_quota_row, format_time,
  timeout_or_default,
}
use morsel.Queue.Claims.{messages_of, db_at-write_db}
use morsel.Queue.Moves.{read_quota_row-state}
use morsel.Queue.Refinement.{dequeue_cases, discard_cases, ack_cases, open_queue-Keeps}
use morsel.Queue.Quota.{
  quota_of, quota_rows, stored_bytes, first_row, quota_of-open_quota, quota_rows-open_quota,
  stored_bytes-open_quota, update_total-subtract, update_total-stored, quota_of-write_same,
  stored_bytes-write_db, stored_bytes-write_same, quota_of-open_or_create,
  stored_bytes-open_or_create, quota_of-open_queue, stored_bytes-open_queue,
  read_quota_row-quota_of,
}
use morsel.Queue.Accounting.{refused, accepted, enqueue_outcome}
use morsel.Queue.History.{
  Call, enqueues, dequeues, acks, creates, deletes, measures, limits, uses, step, run, step-Moves,
}
use morsel.Queue.Keys.{UniqueIds, bytes_of-set_visibility, bytes_of-delete_message, Move-UniqueIds}

-- The calls that keep the count in quota.db work.
pub record Counts (f : Faults) : Type 0 where
  pub opens : f open_quota_db ≡ false
  pub updates : f update_quota ≡ false

pub record Balanced (d : Dir) : Type 0 where
  pub exact : (quota_of d).total_bytes ≡ stored_bytes d
  pub keys : (j : String) → UniqueIds (messages_of d j)

abbrev IsExact : Dir → Type 0
IsExact d = (quota_of d).total_bytes ≡ stored_bytes d

abbrev total : QuotaRow → ℕ
total q = q.total_bytes

IsExact-same :
    (d d' : Dir)
    → quota_of d' ≡ quota_of d
    → stored_bytes d' ≡ stored_bytes d
    → IsExact d
    → IsExact d'
IsExact-same d d' q s h = ap total q ∙ h ∙ sym s

open_queue-IsExact :
    (f : Faults) (name : String) (d : Dir) → IsExact d → IsExact (open_queue f name d).0
open_queue-IsExact f name d =
    IsExact-same d (open_queue f name d).0 (quota_of-open_queue f name d)
      (stored_bytes-open_queue f name d)

open_quota-IsExact : (f : Faults) (d : Dir) → IsExact d → IsExact (open_quota f d).0
open_quota-IsExact f d =
    IsExact-same d (open_quota f d).0 (quota_of-open_quota f d) (stored_bytes-open_quota f d)

claim-IsExact :
    (f : Faults) (name : String) (until : ℕ) (o : Option MessageRow) (d : Dir)
    → IsExact d
    → IsExact (claim f name until o d).0
unfolding claim messages_of
claim-IsExact f name until none d h = h
claim-IsExact f name until (some r) d h =
    let rows = set_visibility until r.id (db_at d name).messages in
    let db : Db = record (db_at d name) { messages = rows } in
    ground (
      arith,
      quota_of-write_same name db d refl,
      stored_bytes-write_db name db d,
      bytes_of-set_visibility until r.id (db_at d name).messages,
    )

dequeue-IsExact :
    (f : Faults) (now db_now : ℕ) (name : String) (t : ℤ) (d : Dir)
    → IsExact d
    → IsExact (dequeue f now db_now name t d).0
dequeue-IsExact f now db_now name t d h =
    let d1 = (open_queue f name d).0 in
    let h1 = open_queue-IsExact f name d h in
    elim (dequeue_cases name f now db_now name t d) [
      | inl e ↦ rw e h1
      | inr e ↦ rw e (
          claim-IsExact f name (format_time (now + timeout_or_default t))
            (select_next_message db_now (messages_of d1 name)) d1 h1)
    ]

pub open_quota-ok : (f : Faults) (d : Dir) → f open_quota_db ≡ false → (open_quota f d).1 ≡ ok tt
unfolding open_quota
open_quota-ok f d w = ground arith

open_quota-works :
    (f : Faults) (d : Dir) → f open_quota_db ≡ false → 0 < quota_rows (open_quota f d).0
open_quota-works f d w = omega (arith, quota_rows-open_quota f d {a = tt} (open_quota-ok f d w))

-- The size that goes from the table goes from the count.
discard-IsExact :
    (f : Faults) (name i : String) (size : Option ℕ) (d : Dir)
    → Counts f
    → UniqueIds (messages_of d name)
    → get_message_body_size i (messages_of d name) ≡ size
    → IsExact d
    → IsExact (discard f name i size d).0
unfolding discard
discard-IsExact f name i none d w u e h = h
discard-IsExact f name i (some n) d w u e h =
    let rows = delete_message i (messages_of d name) in
    let db : Db = record (db_at d name) { messages = rows } in
    let d1 = write_db name db d in
    let d2 = (open_quota f d1).0 in
    let gone = bytes_of-delete_message i (messages_of d name) n u e in
    let s1 = stored_bytes-write_db name db d in
    let q1 = ap total (quota_of-write_same name db d refl) in
    let s2 = stored_bytes-open_quota f d1 in
    let q2 = ap total (quota_of-open_quota f d1) in
    elim (discard_cases name f name i n d) [
      | inl e ↦ rw e h
      | inr (inl (x, failed, e)) ↦ absurd (ground (arith, open_quota-ok f d1 w.opens))
      | inr (inr e) ↦ rw e (
          omega (
            arith,
            ap total (update_total-subtract f n d2 w.updates (open_quota-works f d1 w.opens)),
            update_total-stored f (subtract_bytes n) d2,
            gone,
            s1,
            q1,
            s2,
            q2,
          ))
    ]

ack-IsExact :
    (f : Faults) (name i : String) (d : Dir)
    → Counts f
    → UniqueIds (messages_of d name)
    → IsExact d
    → IsExact (ack f name i d).0
ack-IsExact f name i d w u h =
    let d1 = (open_queue f name d).0 in
    let h1 = open_queue-IsExact f name d h in
    let same : messages_of d1 name ≡ messages_of d name = open_queue-Keeps name f name d in
    elim (ack_cases name f name i d) [
      | inl e ↦ rw e h1
      | inr e ↦ rw e (
          discard-IsExact f name i (get_message_body_size i (messages_of d1 name)) d1 w
            (subst UniqueIds (sym same) u) refl h1)
    ]

enqueue-IsExact :
    (f : Faults) (now : ℕ) (i : Option String) (ns name : String) (body : List ℕ) (sender : String)
    (d : Dir)
    → Counts f
    → IsExact d
    → IsExact (enqueue f now i ns name body sender d).0
enqueue-IsExact f now i ns name body sender d w h =
    elim (enqueue_outcome f now i ns name body sender d) [
      | refused x _ q ↦ IsExact-same d (enqueue f now i ns name body sender d).0 q.quota q.stored h
      | accepted _ _ s ↦ omega (arith, ap total (s.counted w.updates), s.stored)
    ]

pub usage_state : (f : Faults) (d : Dir) → (usage f d).0 ≡ (open_quota f d).0
unfolding usage
usage_state f d = ground (arith, read_quota_row-state "" f (open_quota f d).0)

depth_state : (f : Faults) (name : String) (d : Dir) → (depth f name d).0 ≡ (open_queue f name d).0
unfolding depth
depth_state f name d = ground arith

create_queue-IsExact :
    (f : Faults) (name : String) (d : Dir) → IsExact d → IsExact (create_queue f name d).0
unfolding create_queue
create_queue-IsExact f name d =
    IsExact-same d (open_or_create_queue f name d).0 (quota_of-open_or_create f name d)
      (stored_bytes-open_or_create f name d)

first_row-limit :
    (n : ℤ) (rows : List QuotaRow)
    → (first_row (set_limit_bytes n rows)).total_bytes ≡ (first_row rows).total_bytes
unfolding first_row set_limit_bytes
first_row-limit n [] = refl
first_row-limit n (q ∷ rest) = refl

limit-IsExact :
    (n : ℤ) (d : Dir)
    → IsExact d
    → let db = db_at d quota_path in
      IsExact (write_db quota_path (record db { quota = set_limit_bytes n db.quota }) d)
unfolding quota_of messages_of
limit-IsExact n d h =
    let db = db_at d quota_path in
    let new : Db = record db { quota = set_limit_bytes n db.quota } in
    ground (
      arith,
      first_row-limit n db.quota,
      db_at-write_db quota_path quota_path new d,
      eq_refl quota_path,
      stored_bytes-write_same quota_path new d,
    )

set_quota-IsExact : (f : Faults) (n : ℤ) (d : Dir) → IsExact d → IsExact (set_quota f n d).0
unfolding set_quota
set_quota-IsExact f n d h =
    let d1 = (open_quota f d).0 in
    ground (arith, open_quota-IsExact f d h, limit-IsExact n d1 (open_quota-IsExact f d h))

-- Every call but a deletion.
abbrev pub KeepsQueues : Call → Type 0
KeepsQueues (deletes name) = ⊥
KeepsQueues _ = Unit {0}

step-IsExact :
    (d : Dir) (f : Faults) (c : Call)
    → Counts f
    → KeepsQueues c
    → Balanced d
    → IsExact (step d (f, c))
unfolding step
step-IsExact d f (enqueues now i ns name body sender) w k b =
    enqueue-IsExact f now i ns name body sender d w b.exact
step-IsExact d f (dequeues now db_now name t) w k b = dequeue-IsExact f now db_now name t d b.exact
step-IsExact d f (acks name i) w k b = ack-IsExact f name i d w (b.keys name) b.exact
step-IsExact d f (creates name) w k b = create_queue-IsExact f name d b.exact
step-IsExact d f (deletes name) w k b = absurd k
step-IsExact d f (measures name) w k b =
    rw (depth_state f name d) (open_queue-IsExact f name d b.exact)
step-IsExact d f (limits n) w k b = set_quota-IsExact f n d b.exact
step-IsExact d f uses w k b = rw (usage_state f d) (open_quota-IsExact f d b.exact)

-- No history of calls without a deletion, in which the updates of the count work, brings the count
-- away from the bytes that are stored.
pub run-Balanced :
    (d : Dir) (cs : List (Faults × Call))
    → All (λ c. Counts c.0 × KeepsQueues c.1) cs
    → Balanced d
    → Balanced (run d cs)
unfolding run
run-Balanced d [] w b = b
run-Balanced d ((f, c) ∷ cs) w b = run-Balanced (step d (f, c)) cs w.1 (record {
  exact = step-IsExact d f c w.0.0 w.0.1 b;
  keys = λ j. Move-UniqueIds _ _ (step-Moves j d f c) (b.keys j);
})

-- Usage reports what it finds in the first row.
pub usage-total :
    (f : Faults) (d d' : Dir) (n : ℕ) → usage f d ≡ (d', ok n) → n ≡ (quota_of d).total_bytes
unfolding usage
usage-total f d d' n e =
    let d1 = (open_quota f d).0 in
    elim (Result-cases (open_quota f d).1) [
      | inr (x, o) ↦ absurd (ground arith)
      | inl (a, o) ↦ elim (Result-cases (read_quota_row f d1).1) [
        | inr (x, r) ↦ absurd (ground arith)
        | inl (q, r) ↦
            ground (
              arith,
              ap total (read_quota_row-quota_of f d1 q r),
              ap total (quota_of-open_quota f d),
            )
      ]
    ]

-- From a namespace whose count is exact and whose message ids are distinct, after any history of
-- calls without a deletion of a queue in which quota.db can be opened and the count updated, a
-- Usage that succeeds returns the sum of the sizes of the stored messages.
pub usage_exact :
    (g : Faults) (d d' : Dir) (cs : List (Faults × Call)) (n : ℕ)
    → All (λ c. Counts c.0 × KeepsQueues c.1) cs
    → Balanced d
    → usage g (run d cs) ≡ (d', ok n)
    → n ≡ stored_bytes (run d cs)
usage_exact g d d' cs n w b e = usage-total g (run d cs) d' n e ∙ (run-Balanced d cs w b).exact
