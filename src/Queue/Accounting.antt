-- ===== src/Queue/Accounting.antt =====
-- What Enqueue does on each of its ways out, and to the byte count.
use morsel.Prelude.{
  ℕ, ◌+◌, ◌≤◌, ◌<◌, ◌^◌, ◌≡◌, refl, subst, ap, sym, ◌∙◌, ◌≢◌, true, false, List, [], ◌∷◌, ◌++◌,
  Option, none, some, String, arith, eq_iff, eq_refl, lookup-insert, pos, ok, err, Result, length,
  sum_of-append, any, Result-cases, Bool-cases, inl, inr, ◌⊎◌, int64_small,
}
use morsel.Queue.Tables.{MessageRow, QuotaRow, Db, has_id, add_bytes, upsert_meta, insert_message}
use morsel.Queue.Files.{
  Dir, Faults, Error, quota_exceeded, failed, random, update_quota, begin_tx, commit, exists, db_at,
  write_db, open_quota, open_or_create_queue, signal_queue, quota_path,
}
use morsel.Queue.Local.{
  over_limit, read_quota_row, update_total, insert_or_fail, note_sender, store_message, enqueue,
  format_time,
}
use morsel.Queue.Claims.{messages_of, messages_of-write_db}
use morsel.Queue.Moves.{
  open_quota-Keeps, open_or_create_queue-Keeps, update_total-Keeps, signal_queue-Keeps,
  read_quota_row-state,
}
use morsel.Queue.Quota.{
  quota_of, quota_rows, stored_bytes, bytes_of, quota_of-open_quota, quota_rows-open_quota,
  stored_bytes-open_quota, read_quota_row-quota_of, update_total-add, update_total-stored,
  signal_queue-quota, quota_of-write_same, stored_bytes-write_db, quota_rows-write_same,
  quota_of-open_or_create, quota_rows-open_or_create, stored_bytes-open_or_create,
}

-- The message tables and the byte count are as before.
pub record Quiet (d d' : Dir) : Type 0 where
  pub rows : (j : String) → messages_of d' j ≡ messages_of d j
  pub quota : quota_of d' ≡ quota_of d
  pub stored : stored_bytes d' ≡ stored_bytes d

pub Quiet-refl : (d : Dir) → Quiet d d
Quiet-refl d = record { rows = λ j. refl; quota = refl; stored = refl }

pub open_quota-Quiet : (f : Faults) (d : Dir) → Quiet d (open_quota f d).0
open_quota-Quiet f d = record {
  rows = λ j. open_quota-Keeps j f d;
  quota = quota_of-open_quota f d;
  stored = stored_bytes-open_quota f d;
}

pub opened-Quiet :
    (f : Faults) (name : String) (d : Dir)
    → Quiet d (open_or_create_queue f name (open_quota f d).0).0
opened-Quiet f name d =
    let d1 = (open_quota f d).0 in
    record {
      rows = λ j. open_or_create_queue-Keeps j f name d1 ∙ open_quota-Keeps j f d;
      quota = quota_of-open_or_create f name d1 ∙ quota_of-open_quota f d;
      stored = stored_bytes-open_or_create f name d1 ∙ stored_bytes-open_quota f d;
    }

-- A stored message: one row at the end of its table, under an id that the table did not have, and
-- its size on the byte count, unless the update of the count failed.
pub record Stored (f : Faults) (now : ℕ) (i : Option String) (name : String) (body : List ℕ)
    (d d' : Dir) : Type 0 where
  pub row : MessageRow
  pub drawn : i ≡ some row.id
  pub fresh : any (has_id row.id) (messages_of d name) ≡ false
  pub content : row ≡ record {
    id = row.id;
    body = body;
    body_size = length body;
    enqueued_at = format_time now;
    visibility_until = none;
  }
  pub appended : messages_of d' name ≡ messages_of d name ++ row ∷ []
  pub others : (j : String) → j ≢ name → messages_of d' j ≡ messages_of d j
  pub stored : stored_bytes d' ≡ stored_bytes d + length body
  pub there : exists name d' ≡ true
  pub counted :
      f update_quota ≡ false
      → quota_of d' ≡ record (quota_of d) { total_bytes = (quota_of d).total_bytes + length body }

insert_or_fail-ok :
    (f : Faults) (r : MessageRow) (db db' : Db)
    → insert_or_fail f r db ≡ ok db'
    → (any (has_id r.id) db.messages ≡ false)
      × (db'.messages ≡ db.messages ++ r ∷ [])
      × (db'.quota ≡ db.quota)
unfolding insert_or_fail insert_message
insert_or_fail-ok f r db db' e = ground arith

note_sender-ok :
    (f : Faults) (ns sender : String) (stamp : ℕ) (db db' : Db)
    → note_sender f ns sender stamp db ≡ ok db'
    → (db'.messages ≡ db.messages) × (db'.quota ≡ db.quota)
unfolding note_sender upsert_meta
note_sender-ok f ns sender stamp db db' e = ground arith

stored-exists :
    (f : Faults) (name : String) (n : ℕ) (db : Db) (d : Dir)
    → exists name (signal_queue name (update_total f (add_bytes n) (write_db name db d))) ≡ true
unfolding signal_queue
stored-exists f name n db d =
    let d1 = write_db name db d in
    let q : Db = record (db_at d1 quota_path) { quota = add_bytes n (db_at d1 quota_path).quota } in
    ground (
      arith,
      lookup-insert name name db d.files,
      lookup-insert quota_path name q d1.files,
      eq_refl name,
    )

module _ (f : Faults) (now : ℕ) (name : String) (body : List ℕ) (d : Dir)
    (opened : 0 < quota_rows d) (id : String) (db : Db) where
  abbrev new_row : MessageRow
  new_row = record {
    id = id;
    body = body;
    body_size = length body;
    enqueued_at = format_time now;
    visibility_until = none;
  }

  written-Stored :
      any (has_id id) (messages_of d name) ≡ false
      → db.messages ≡ messages_of d name ++ new_row ∷ []
      → db.quota ≡ (db_at d name).quota
      → Stored f now
          (some id)
          name
          body
          d
          (signal_queue name (update_total f (add_bytes (length body)) (write_db name db d)))
  written-Stored fresh rows same =
      let d1 = write_db name db d in
      let d2 = update_total f (add_bytes (length body)) d1 in
      record {
        row = new_row;
        drawn = refl;
        fresh = fresh;
        content = refl;
        appended =
            signal_queue-Keeps name name d2
            ∙ update_total-Keeps name f (add_bytes (length body)) d1
            ∙ ground (arith, messages_of-write_db name name db d, eq_refl name);
        others = λ j ne.
            signal_queue-Keeps j name d2
            ∙ update_total-Keeps j f (add_bytes (length body)) d1
            ∙ ground (arith, messages_of-write_db name j db d, eq_iff name j);
        stored =
            (signal_queue-quota name d2).1
            ∙ update_total-stored f (add_bytes (length body)) d1
            ∙ omega (
              arith,
              stored_bytes-write_db name db d,
              ap bytes_of rows,
              sum_of-append (λ (r : MessageRow). r.body_size) (messages_of d name) (new_row ∷ []),
            );
        there = stored-exists f name (length body) db d;
        counted = λ w.
            (signal_queue-quota name d2).0
            ∙ update_total-add f (length body) d1 w
                (omega (arith, quota_rows-write_same name db d same))
            ∙ ap (λ (q : QuotaRow). record q { total_bytes = q.total_bytes + length body })
                (quota_of-write_same name db d same);
      }

store_message_outcome :
    (f : Faults) (now : ℕ) (ns name : String) (body : List ℕ) (sender : String) (i : Option String)
    (d : Dir)
    → 0 < quota_rows d
    → ((x : Error) × (store_message f now ns name body sender i d ≡ (d, err x)))
      ⊎ ((d' : Dir) × (store_message f now ns name body sender i d ≡ (d', ok tt))
          × Stored f now i name body d d')
unfolding store_message messages_of
store_message_outcome f now ns name body sender none d h = inl (failed random, refl)
store_message_outcome f now ns name body sender (some i) d h =
    let row = new_row f now name body d h i (db_at d name) in
    elim (Bool-cases (f begin_tx)) [
      | inl b ↦ inl (failed begin_tx, ground arith)
      | inr b ↦ elim (Result-cases (insert_or_fail f row (db_at d name))) [
        | inr (x, e) ↦ inl (x, ground arith)
        | inl (db, e) ↦ elim (Result-cases (note_sender f ns sender (format_time now) db)) [
          | inr (x, e2) ↦ inl (x, ground arith)
          | inl (noted, e2) ↦ elim (Bool-cases (f commit)) [
            | inl c ↦ inl (failed commit, ground arith)
            | inr c ↦
                let (fresh, rows, quota) = insert_or_fail-ok f row (db_at d name) db e in
                let (rows2, quota2) = note_sender-ok f ns sender (format_time now) db noted e2 in
                inr (
                  signal_queue name
                      (update_total f (add_bytes (length body)) (write_db name noted d)),
                  ground arith,
                  written-Stored f now name body d h i noted fresh (rows2 ∙ rows) (quota2 ∙ quota),
                )
          ]
        ]
      ]
    ]

-- A call that fails has stored nothing and counted nothing; one that succeeds was within the limit.
pub data EnqueueOutcome (f : Faults) (now : ℕ) (i : Option String) (name : String) (body : List ℕ)
    (d : Dir) (r : Dir × Result Error (Unit {0})) : Type 0 where
  refused : (x : Error) → r.1 ≡ err x → Quiet d r.0 → EnqueueOutcome f now i name body d r
  accepted :
      r.1 ≡ ok tt
      → over_limit (quota_of d) (length body) ≡ false
      → Stored f now i name body d r.0
      → EnqueueOutcome f now i name body d r

module _ {f : Faults} {now : ℕ} {i : Option String} {name : String} {body : List ℕ} {d : Dir}
    {r : Dir × Result Error (Unit {0})} where
  refuse : (s : Dir) (x : Error) → r ≡ (s, err x) → Quiet d s → EnqueueOutcome f now i name body d r
  refuse s x e q =
      refused x (ap (λ (p : Dir × Result Error (Unit {0})). p.1) e)
        (subst (Quiet d) (sym (ap (λ (p : Dir × Result Error (Unit {0})). p.0) e)) q)

  accept :
      (s : Dir)
      → r ≡ (s, ok tt)
      → over_limit (quota_of d) (length body) ≡ false
      → Stored f now i name body d s
      → EnqueueOutcome f now i name body d r
  accept s e fits st = accepted (ap (λ (p : Dir × Result Error (Unit {0})). p.1) e) fits (
      subst (Stored f now i name body d) (sym (ap (λ (p : Dir × Result Error (Unit {0})). p.0) e))
        st)

-- Opening the files first makes no difference to what is stored.
Stored-after :
    (f : Faults) (now : ℕ) (i : Option String) (name : String) (body : List ℕ) (d d2 d' : Dir)
    → Quiet d d2
    → Stored f now i name body d2 d'
    → Stored f now i name body d d'
Stored-after f now i name body d d2 d' q s = record {
  row = s.row;
  drawn = s.drawn;
  fresh = subst (λ rows. any (has_id s.row.id) rows ≡ false) (q.rows name) s.fresh;
  content = s.content;
  appended = s.appended ∙ ap (λ (rows : List MessageRow). rows ++ s.row ∷ []) (q.rows name);
  others = λ j ne. s.others j ne ∙ q.rows j;
  stored = omega (arith, s.stored, q.stored);
  there = s.there;
  counted = λ w.
      s.counted w
      ∙ ap (λ (c : QuotaRow). record c { total_bytes = c.total_bytes + length body }) q.quota;
}

opened_rows :
    (f : Faults) (name : String) (d : Dir)
    → (open_quota f d).1 ≡ ok tt
    → 0 < quota_rows (open_or_create_queue f name (open_quota f d).0).0
opened_rows f name d e =
    omega (arith, quota_rows-open_or_create f name (open_quota f d).0, quota_rows-open_quota f d e)

-- On every branch, Enqueue either fails and leaves the messages of every queue and the bytes on the
-- count as they were, or succeeds, within the limit by the count it read, and has stored one new
-- unclaimed message with that body at the end of the queue and counted its bytes where the update
-- of the count worked.
pub enqueue_outcome :
    (f : Faults) (now : ℕ) (i : Option String) (ns name : String) (body : List ℕ) (sender : String)
    (d : Dir)
    → EnqueueOutcome f now i name body d (enqueue f now i ns name body sender d)
unfolding enqueue
enqueue_outcome f now i ns name body sender d =
    let d1 = (open_quota f d).0 in
    let d2 = (open_or_create_queue f name d1).0 in
    let state = read_quota_row-state name f d1 in
    elim (Result-cases (open_quota f d).1) [
      | inr (x, e) ↦ refuse d1 x (ground arith) (open_quota-Quiet f d)
      | inl (a, e) ↦ elim (Result-cases (read_quota_row f d1).1) [
        | inr (x, r) ↦ refuse d1 x (ground (arith, state)) (open_quota-Quiet f d)
        | inl (q, r) ↦
            let read = read_quota_row-quota_of f d1 q r ∙ quota_of-open_quota f d in
            elim (Bool-cases (over_limit q (length body))) [
              | inl over ↦ refuse d1 quota_exceeded (ground (arith, state)) (open_quota-Quiet f d)
              | inr fits ↦ elim (Result-cases (open_or_create_queue f name d1).1) [
                | inr (x, o) ↦ refuse d2 x (ground (arith, state)) (opened-Quiet f name d)
                | inl (b, o) ↦
                    elim (store_message_outcome f now ns name body sender i d2
                      (opened_rows f name d e)) [
                        | inl (x, m) ↦ refuse d2 x (ground (arith, state)) (opened-Quiet f name d)
                        | inr (d', m, st) ↦
                            accept d' (ground (arith, state)) (rw (← read) fits)
                              (Stored-after f now i name body d d2 d' (opened-Quiet f name d) st)
                      ]
              ]
            ]
      ]
    ]

-- Under a positive limit, where the count with the body added stays below 2^63 and the update of
-- the count works, a successful Enqueue raises the count by the body's length and leaves it at or
-- below the limit.
pub enqueue_within_limit :
    (f : Faults) (now : ℕ) (i : Option String) (ns name : String) (body : List ℕ) (sender : String)
    (d d' : Dir) (n : ℕ)
    → enqueue f now i ns name body sender d ≡ (d', ok tt)
    → (quota_of d).limit_bytes ≡ pos n
    → 0 < n
    → (quota_of d).total_bytes + length body < 2 ^ 63
    → f update_quota ≡ false
    → ((quota_of d').total_bytes ≡ (quota_of d).total_bytes + length body)
      × ((quota_of d').total_bytes ≤ n)
unfolding over_limit
enqueue_within_limit f now i ns name body sender d d' n e lim pn small w =
    elim (enqueue_outcome f now i ns name body sender d) [
      | refused x r q ↦ absurd (ground arith)
      | accepted r fits s ↦
          let state = ap (λ (p : Dir × Result Error (Unit {0})). p.0) e in
          let c = ap (λ (q : QuotaRow). q.total_bytes) (ap quota_of (sym state) ∙ s.counted w) in
          (c, ground (arith, c, int64_small ((quota_of d).total_bytes + length body)))
    ]
