-- ===== src/Queue/Refinement.antt =====
-- Each operation of internal/queue/local.go makes a move of every queue's message table.
use mathlib.Core.Path.{subst₂}
use morsel.Prelude.{
  ℕ, ◌+◌, ◌≡◌, refl, sym, ap, ◌∙◌, false, List, [], ◌∷◌, ◌++◌, Option, none, some, String, arith,
  eq_iff, str_eq, ℤ, length, any, ok, err, subst, not, ◌&&◌, Result-cases, Bool-cases, inl, inr,
  ◌||◌, ◌⊎◌, lookup-remove,
}
use morsel.Queue.Tables.{
  MessageRow, Db, add_bytes, set_limit_bytes, subtract_bytes, get_message_body_size,
  select_next_message, set_visibility, insert_message, delete_message, has_id, upsert_meta,
}
use morsel.Queue.Files.{
  begin_tx, commit, select_row, delete_row, read_size, update_visibility, remove_file, exists, Dir,
  Faults, Error, db_at, write_db, open_queue, open_quota, open_or_create_queue, signal_queue,
  create_queue, delete_queue, quota_path,
}
use morsel.Queue.Local.{
  over_limit, dequeue, claim, format_time, timeout_or_default, enqueue, store_message,
  read_quota_row, update_total, insert_or_fail, note_sender, ack, discard, depth, usage, set_quota,
}
use morsel.Queue.Claims.{messages_of, db_at-write_db, db_at-open_queue}
use morsel.Queue.Moves.{
  Move, keep, append, hide, drop, clear, Keeps, write_db-Keeps, open_quota-Keeps,
  read_quota_row-state, open_or_create_queue-Keeps, update_total-Keeps, signal_queue-Keeps,
}

insert_or_fail-ok :
    (f : Faults) (r : MessageRow) (db db' : Db)
    → insert_or_fail f r db ≡ ok db'
    → (any (has_id r.id) db.messages ≡ false) × (db'.messages ≡ db.messages ++ r ∷ [])
unfolding insert_or_fail insert_message
insert_or_fail-ok f r db db' e = ground arith

note_sender-ok :
    (f : Faults) (ns sender : String) (stamp : ℕ) (db db' : Db)
    → note_sender f ns sender stamp db ≡ ok db'
    → db'.messages ≡ db.messages
unfolding note_sender upsert_meta
note_sender-ok f ns sender stamp db db' e = ground arith

module _ (j : String) where
  abbrev pub Moves : Option String → ℕ → Dir → Dir → Type 0
  Moves i c d d' = Move i c (messages_of d j) (messages_of d' j)

  after_Keeps :
      {i : Option String} {c : ℕ} (d d1 d2 : Dir) → Keeps j d d1 → Moves i c d1 d2 → Moves i c d d2
  after_Keeps {i} {c} d d1 d2 k m = subst (λ rows. Move i c rows (messages_of d2 j)) k m

  before_Keeps :
      {i : Option String} {c : ℕ} (d d1 d2 : Dir) → Moves i c d d1 → Keeps j d1 d2 → Moves i c d d2
  before_Keeps {i} {c} d d1 d2 m k = subst (λ rows. Move i c (messages_of d j) rows) (sym k) m

  stored-Moves :
      {c : ℕ} (f : Faults) (name : String) (n : ℕ) (db : Db) (r : MessageRow) (d : Dir)
      → any (has_id r.id) (messages_of d name) ≡ false
      → r.visibility_until ≡ none
      → db.messages ≡ messages_of d name ++ r ∷ []
      → Moves
          (some r.id)
          c
          d
          (signal_queue name (update_total f (add_bytes n) (write_db name db d)))
  unfolding messages_of
  stored-Moves f name n db r d fresh due rows =
      let d1 = write_db name db d in
      let d2 = update_total f (add_bytes n) d1 in
      let kept = signal_queue-Keeps j name d2 ∙ update_total-Keeps j f (add_bytes n) d1 in
      elim (Bool-cases (str_eq name j)) [
        | inl hit ↦
            append r refl (ground (arith, eq_iff name j)) due
              (kept ∙ ground (arith, db_at-write_db name j db d, eq_iff name j))
        | inr miss ↦ keep (kept ∙ ground (arith, db_at-write_db name j db d))
      ]

  store_message-Moves :
      {c : ℕ} (f : Faults) (now : ℕ) (ns name : String) (body : List ℕ) (sender : String)
      (i : Option String) (d : Dir)
      → Moves i c d (store_message f now ns name body sender i d).0
  unfolding store_message messages_of
  store_message-Moves f now ns name body sender none d = keep refl
  store_message-Moves {c} f now ns name body sender (some i) d =
      let row : MessageRow = record {
        id = i;
        body = body;
        body_size = length body;
        enqueued_at = format_time now;
        visibility_until = none;
      } in
      elim (Result-cases (insert_or_fail f row (db_at d name))) [
        | inr (x, e) ↦ keep (ground arith)
        | inl (db, e) ↦ elim (Result-cases (note_sender f ns sender (format_time now) db)) [
          | inr (x, e2) ↦ keep (ground arith)
          | inl (noted, e2) ↦ elim (Bool-cases (f begin_tx || f commit)) [
            | inl b ↦ keep (ground arith)
            | inr b ↦
                let (fresh, rows) = insert_or_fail-ok f row (db_at d name) db e in
                let kept = note_sender-ok f ns sender (format_time now) db noted e2 in
                subst (Moves (some i) c d)
                  {x = signal_queue name
                    (update_total f (add_bytes (length body)) (write_db name noted d))}
                  {y = (store_message f now ns name body sender (some i) d).0} (ground arith)
                  (stored-Moves f name (length body) noted row d fresh refl (kept ∙ rows))
          ]
        ]
      ]

  enqueue_cases :
      (f : Faults) (now : ℕ) (i : Option String) (ns name : String) (body : List ℕ)
      (sender : String) (d : Dir)
      → let d2 = (open_or_create_queue f name (open_quota f d).0).0 in
        (Keeps j d (enqueue f now i ns name body sender d).0)
        ⊎ ((enqueue f now i ns name body sender d).0
            ≡ (store_message f now ns name body sender i d2).0)
  unfolding enqueue
  enqueue_cases f now i ns name body sender d =
      let d1 = (open_quota f d).0 in
      let keeps1 = open_quota-Keeps j f d in
      let keeps2 = open_or_create_queue-Keeps j f name d1 in
      let state = read_quota_row-state j f d1 in
      elim (Result-cases (open_quota f d).1) [
        | inr (x, e) ↦ inl (ground (arith, keeps1))
        | inl (a, e) ↦ elim (Result-cases (read_quota_row f d1).1) [
          | inr (x, r) ↦ inl (ground (arith, keeps1, state))
          | inl (q, r) ↦ elim (Bool-cases (over_limit q (length body))) [
            | inl over ↦ inl (ground (arith, keeps1, state))
            | inr fits ↦ elim (Result-cases (open_or_create_queue f name d1).1) [
              | inr (x, o) ↦ inl (ground (arith, keeps1, keeps2, state))
              | inl (b, o) ↦ inr (ground (arith, state))
            ]
          ]
        ]
      ]

  pub enqueue-Moves :
      {c : ℕ} (f : Faults) (now : ℕ) (i : Option String) (ns name : String) (body : List ℕ)
      (sender : String) (d : Dir)
      → Moves i c d (enqueue f now i ns name body sender d).0
  enqueue-Moves f now i ns name body sender d = elim (enqueue_cases f now i ns name body sender d) [
    | inl kept ↦ keep kept
    | inr e ↦
        let d1 = (open_quota f d).0 in
        let d2 = (open_or_create_queue f name d1).0 in
        rw e (
          after_Keeps d d2 (store_message f now ns name body sender i d2).0
            (open_or_create_queue-Keeps j f name d1 ∙ open_quota-Keeps j f d)
            (store_message-Moves f now ns name body sender i d2))
  ]

  pub open_queue-Keeps : (f : Faults) (name : String) (d : Dir) → Keeps j d (open_queue f name d).0
  unfolding messages_of
  open_queue-Keeps f name d = ap (λ (db : Db). db.messages) (db_at-open_queue f name j d)

  rewrite_queue-Moves :
      {i : Option String} {c : ℕ} (name : String) (rows : List MessageRow) (d : Dir)
      → Move i c (messages_of d name) rows
      → Moves i c d (write_db name (record (db_at d name) { messages = rows }) d)
  unfolding messages_of
  rewrite_queue-Moves {i} {c} name rows d m =
      let db : Db = record (db_at d name) { messages = rows } in
      elim (Bool-cases (str_eq name j)) [
        | inl hit ↦
            subst₂ (Move i c) (ground (arith, eq_iff name j))
              (ground (arith, db_at-write_db name j db d)) m
        | inr miss ↦ keep (ground (arith, db_at-write_db name j db d))
      ]

  claim-Moves :
      (f : Faults) (name : String) (now until : ℕ) (d : Dir) (o : Option MessageRow)
      → select_next_message now (messages_of d name) ≡ o
      → Moves none now d (claim f name until o d).0
  unfolding claim messages_of
  claim-Moves f name now until d none e = keep refl
  claim-Moves f name now until d (some r) e = elim (Bool-cases (f update_visibility || f commit)) [
    | inl b ↦ keep (ground arith)
    | inr b ↦
        subst (Moves none now d)
          {x = write_db name
            (record (db_at d name) { messages = set_visibility until r.id (db_at d name).messages })
            d}
          {y = (claim f name until (some r) d).0} (ground arith)
          (rewrite_queue-Moves name _ d (hide until r e refl))
  ]

  pub dequeue_cases :
      (f : Faults) (now db_now : ℕ) (name : String) (t : ℤ) (d : Dir)
      → let d1 = (open_queue f name d).0 in
        ((dequeue f now db_now name t d).0 ≡ d1)
        ⊎ ((dequeue f now db_now name t d).0
            ≡ (claim f name
                (format_time (now + timeout_or_default t))
                (select_next_message db_now (messages_of d1 name))
                d1).0)
  unfolding dequeue messages_of
  dequeue_cases f now db_now name t d = elim (Result-cases (open_queue f name d).1) [
    | inr (x, e) ↦ inl (ground arith)
    | inl (a, e) ↦ elim (Bool-cases (f begin_tx || f select_row)) [
      | inl b ↦ inl (ground arith)
      | inr b ↦ inr (ground arith)
    ]
  ]

  pub dequeue-Moves :
      (f : Faults) (now db_now : ℕ) (name : String) (t : ℤ) (d : Dir)
      → Moves none db_now d (dequeue f now db_now name t d).0
  dequeue-Moves f now db_now name t d =
      let d1 = (open_queue f name d).0 in
      let kept = open_queue-Keeps f name d in
      elim (dequeue_cases f now db_now name t d) [
        | inl e ↦ rw e (keep kept)
        | inr e ↦ rw e (
            after_Keeps d d1
              (claim f name (format_time (now + timeout_or_default t))
                (select_next_message db_now (messages_of d1 name)) d1).0
              kept (claim-Moves f name db_now _ d1 _ refl))
      ]

  pub discard_cases :
      (f : Faults) (name i : String) (n : ℕ) (d : Dir)
      → let d1 =
          write_db name
            (record (db_at d name) { messages = delete_message i (messages_of d name) })
            d in
        let d2 = (open_quota f d1).0 in
        ((discard f name i (some n) d).0 ≡ d)
        ⊎ ((x : Error) × ((open_quota f d1).1 ≡ err x) × ((discard f name i (some n) d).0 ≡ d2))
        ⊎ ((discard f name i (some n) d).0 ≡ update_total f (subtract_bytes n) d2)
  unfolding discard messages_of
  discard_cases f name i n d = elim (Bool-cases (f delete_row)) [
    | inl b ↦ inl (ground arith)
    | inr b ↦
        let d1 =
          write_db name
            (record (db_at d name) { messages = delete_message i (db_at d name).messages }) d in
        elim (Result-cases (open_quota f d1).1) [
          | inl (a, e) ↦ inr (inr (ground arith))
          | inr (x, e) ↦ inr (inl (x, e, ground arith))
        ]
  ]

  discard-Moves :
      {b : Option String} {c : ℕ} (f : Faults) (name i : String) (size : Option ℕ) (d : Dir)
      → Moves b c d (discard f name i size d).0
  unfolding discard
  discard-Moves f name i none d = keep refl
  discard-Moves f name i (some n) d =
      let rows = delete_message i (messages_of d name) in
      let d1 = write_db name (record (db_at d name) { messages = rows }) d in
      let d2 = (open_quota f d1).0 in
      let dropped = rewrite_queue-Moves name rows d (drop i refl) in
      let kept = open_quota-Keeps j f d1 in
      elim (discard_cases f name i n d) [
        | inl e ↦ rw e (keep refl)
        | inr (inl (_, _, e)) ↦ rw e (before_Keeps d d1 d2 dropped kept)
        | inr (inr e) ↦ rw e (
            before_Keeps d d1 (update_total f (subtract_bytes n) d2) dropped
              (update_total-Keeps j f (subtract_bytes n) d2 ∙ kept))
      ]

  pub ack_cases :
      (f : Faults) (name i : String) (d : Dir)
      → let d1 = (open_queue f name d).0 in
        ((ack f name i d).0 ≡ d1)
        ⊎ ((ack f name i d).0
            ≡ (discard f name i (get_message_body_size i (messages_of d1 name)) d1).0)
  unfolding ack messages_of
  ack_cases f name i d = elim (Result-cases (open_queue f name d).1) [
    | inr (x, e) ↦ inl (ground arith)
    | inl (a, e) ↦ elim (Bool-cases (f read_size)) [
      | inl b ↦ inl (ground arith)
      | inr b ↦ inr (ground arith)
    ]
  ]

  pub ack-Moves :
      {b : Option String} {c : ℕ} (f : Faults) (name i : String) (d : Dir)
      → Moves b c d (ack f name i d).0
  ack-Moves f name i d =
      let d1 = (open_queue f name d).0 in
      let kept = open_queue-Keeps f name d in
      elim (ack_cases f name i d) [
        | inl e ↦ rw e (keep kept)
        | inr e ↦ rw e (
            after_Keeps d d1 (discard f name i (get_message_body_size i (messages_of d1 name)) d1).0
              kept (discard-Moves f name i _ d1))
      ]

  pub delete_queue-Moves :
      {b : Option String} {c : ℕ} (f : Faults) (name : String) (d : Dir)
      → Moves b c d (delete_queue f name d).0
  unfolding delete_queue messages_of
  delete_queue-Moves f name d = elim (Bool-cases (str_eq name j)) [
    | inl hit ↦ elim (Bool-cases (exists name d && not (f remove_file))) [
      | inl gone ↦ clear (ground (arith, lookup-remove name j d.files))
      | inr stays ↦ keep (ground arith)
    ]
    | inr miss ↦ keep (ground (arith, lookup-remove name j d.files))
  ]

  pub depth-Keeps : (f : Faults) (name : String) (d : Dir) → Keeps j d (depth f name d).0
  unfolding depth
  depth-Keeps f name d = ground (arith, open_queue-Keeps f name d)

  pub usage-Keeps : (f : Faults) (d : Dir) → Keeps j d (usage f d).0
  unfolding usage
  usage-Keeps f d =
      ground (arith, open_quota-Keeps j f d, read_quota_row-state j f (open_quota f d).0)

  pub set_quota-Keeps : (f : Faults) (limit : ℤ) (d : Dir) → Keeps j d (set_quota f limit d).0
  unfolding set_quota messages_of
  set_quota-Keeps f limit d =
      let d1 = (open_quota f d).0 in
      ground (
        arith,
        open_quota-Keeps j f d,
        write_db-Keeps j quota_path
            (record (db_at d1 quota_path) {
              quota = set_limit_bytes limit (db_at d1 quota_path).quota;
            })
            d1,
      )

  pub create_queue-Keeps :
      (f : Faults) (name : String) (d : Dir) → Keeps j d (create_queue f name d).0
  unfolding create_queue
  create_queue-Keeps f name d = open_or_create_queue-Keeps j f name d
