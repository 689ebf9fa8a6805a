-- ===== src/Queue/Acked.antt =====
-- An acknowledged message is gone for good.
use morsel.Prelude.{
  ℕ, ◌≡◌, refl, ap, sym, ◌∙◌, ◌≢◌, false, List, [], ◌∷◌, Option, none, some, String, arith, eq_iff,
  eq_refl, str_ne, ℤ, ok, any, All, Result-cases, Option-cases, inl, inr,
}
use morsel.Queue.Tables.{
  MessageRow, Db, has_id, earlier, select_next_message, delete_message, subtract_bytes,
  get_message_body_size,
}
use morsel.Queue.Files.{Dir, Faults, db_at, write_db, open_quota, open_queue}
use morsel.Queue.Local.{Message, dequeue, ack, discard, update_total}
use morsel.Queue.Claims.{messages_of, messages_of-write_db, dequeue-Claimed}
use morsel.Queue.Moves.{Move, keep, append, hide, drop, clear, open_quota-Keeps, update_total-Keeps}
use morsel.Queue.History.{Call, fresh_of, step, run, step-Moves}
use morsel.Queue.Keys.{any-set_visibility, any-delete_message, any-append}

any-deleted : (i : String) (rows : List MessageRow) → any (has_id i) (delete_message i rows) ≡ false
unfolding delete_message
any-deleted i [] = refl
any-deleted i (x ∷ rows) = ground (arith, any-deleted i rows)

pub size-none :
    (i : String) (rows : List MessageRow)
    → get_message_body_size i rows ≡ none
    → any (has_id i) rows ≡ false
unfolding get_message_body_size
size-none i [] e = refl
size-none i (x ∷ rows) e = ground (arith, size-none i rows)

module _ (f : Faults) (name i : String) (d : Dir) where
  abbrev Gone : Dir → Type 0
  Gone x = any (has_id i) (messages_of x name) ≡ false

  abbrev without : Dir
  without =
      write_db name (record (db_at d name) { messages = delete_message i (messages_of d name) }) d

  pub discard-state :
      (n : ℕ) (d' : Dir)
      → discard f name i (some n) d ≡ (d', ok tt)
      → d' ≡ update_total f (subtract_bytes n) (open_quota f without).0
  unfolding discard messages_of
  discard-state n d' h = elim (Result-cases (open_quota f without).1) [
    | inl (a, o) ↦ ground arith
    | inr (x, o) ↦ absurd (ground arith)
  ]

  discard-Gone :
      (size : Option ℕ) (d' : Dir)
      → get_message_body_size i (messages_of d name) ≡ size
      → discard f name i size d ≡ (d', ok tt)
      → Gone d'
  unfolding discard
  discard-Gone none d' e h = ground (arith, size-none i (messages_of d name))
  discard-Gone (some n) d' e h =
      let rows = delete_message i (messages_of d name) in
      let db : Db = record (db_at d name) { messages = rows } in
      let d2 = (open_quota f without).0 in
      let kept =
        update_total-Keeps name f (subtract_bytes n) d2 ∙ open_quota-Keeps name f without in
      let gone : messages_of without name ≡ rows =
        ground (arith, messages_of-write_db name name db d, eq_refl name) in
      ap (λ x. any (has_id i) (messages_of x name)) (discard-state n d' h)
      ∙ ap (any (has_id i)) (kept ∙ gone)
      ∙ any-deleted i (messages_of d name)

-- Ack leaves no message of that id in the table, whether or not there was one.
ack-Gone :
    (f : Faults) (name i : String) (d d' : Dir)
    → ack f name i d ≡ (d', ok tt)
    → any (has_id i) (messages_of d' name) ≡ false
unfolding ack
ack-Gone f name i d d' h =
    let d1 = (open_queue f name d).0 in
    elim (Result-cases (open_queue f name d).1) [
      | inr (x, o) ↦ absurd (ground arith)
      | inl (a, o) ↦
          discard-Gone f name i d1 (get_message_body_size i (messages_of d1 name)) d' refl
            (unfold messages_of in ground arith)
    ]

Move-Gone :
    (i : String) {fresh : Option String} {clock : ℕ} (rows rows' : List MessageRow)
    → fresh ≢ some i
    → Move fresh clock rows rows'
    → any (has_id i) rows ≡ false
    → any (has_id i) rows' ≡ false
Move-Gone i rows rows' ne (keep e) h = ap (any (has_id i)) e ∙ h
Move-Gone i rows rows' ne (append r drawn _ _ e) h =
    ap (any (has_id i)) e
    ∙ any-append i rows r h (str_ne r.id i (λ same. ne (drawn ∙ ap some same)))
Move-Gone i rows rows' ne (hide t r _ e) h =
    ap (any (has_id i)) e ∙ any-set_visibility t r.id i rows ∙ h
Move-Gone i rows rows' ne (drop k e) h = ap (any (has_id i)) e ∙ any-delete_message k i rows h
Move-Gone i rows rows' ne (clear e) h = ap (any (has_id i)) e

run-Gone :
    (i name : String) (d : Dir) (cs : List (Faults × Call))
    → All (λ c. fresh_of c.1 ≢ some i) cs
    → any (has_id i) (messages_of d name) ≡ false
    → any (has_id i) (messages_of (run d cs) name) ≡ false
unfolding run
run-Gone i name d [] w h = h
run-Gone i name d ((f, c) ∷ cs) w h =
    run-Gone i name (step d (f, c)) cs w.1 (Move-Gone i _ _ w.0 (step-Moves name d f c) h)

selected-not-Gone :
    (now : ℕ) (i : String) (rows : List MessageRow) {r : MessageRow}
    → any (has_id i) rows ≡ false
    → select_next_message now rows ≡ some r
    → r.id ≢ i
unfolding select_next_message earlier
selected-not-Gone now i [] h e same = cc
selected-not-Gone now i (x ∷ rows) {r} h e same =
    elim (Option-cases (select_next_message now rows)) [
      | inl n ↦ ground (arith, eq_iff x.id i)
      | inr (b, s) ↦
          ground (arith, eq_iff x.id i, selected-not-Gone now i rows {r = b} (ground arith) s)
    ]

-- Once Ack has returned without an error, no Dequeue on that queue returns a message of that id,
-- after any history of calls on the namespace, failed ones included, in which no new message draws
-- the same id.
pub ack_final :
    (f g : Faults) (now db_now : ℕ) (name i : String) (t : ℤ) (d d' d2 : Dir) (m : Message)
    (cs : List (Faults × Call))
    → ack f name i d ≡ (d', ok tt)
    → All (λ c. fresh_of c.1 ≢ some i) cs
    → dequeue g now db_now name t (run d' cs) ≡ (d2, ok (some m))
    → m.id ≢ i
ack_final f g now db_now name i t d d' d2 m cs e w e2 same =
    let c = dequeue-Claimed g now db_now name t (run d' cs) d2 m e2 in
    selected-not-Gone db_now i (messages_of (run d' cs) name)
      (run-Gone i name d' cs w (ack-Gone f name i d d' e)) c.selected
      (sym (ap (λ (x : Message). x.id) c.returned) ∙ same)
