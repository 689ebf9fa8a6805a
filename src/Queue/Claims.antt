-- ===== src/Queue/Claims.antt =====
-- What a successful Dequeue of internal/queue/local.go has done to the table.
use morsel.Prelude.{
  ℕ, ◌+◌, ◌≡◌, refl, sym, ap, List, Option, none, some, String, arith, eq_iff, str_eq,
  if◌then◌else◌, ℤ, ◌∙◌, ok, lookup-insert, eq_refl,
}
use morsel.Queue.Tables.{MessageRow, Db, select_next_message, set_visibility}
use morsel.Queue.Files.{Dir, Faults, db_at, open_queue, write_db}
use morsel.Queue.Local.{dequeue, claim, Message, format_time, timeout_or_default}

unfoldable pub messages_of : Dir → String → List MessageRow
messages_of d name = (db_at d name).messages

pub db_at-write_db :
    (p j : String) (db : Db) (d : Dir)
    → db_at (write_db p db d) j ≡ (if str_eq p j then db else db_at d j)
db_at-write_db p j db d = ground (arith, lookup-insert p j db d.files)

pub messages_of-write_db :
    (p j : String) (db : Db) (d : Dir)
    → messages_of (write_db p db d) j ≡ (if str_eq p j then db.messages else messages_of d j)
unfolding messages_of
messages_of-write_db p j db d = ground (arith, db_at-write_db p j db d)

pub record Claimed (d d' : Dir) (name : String) (db_now until : ℕ) (m : Message) : Type 0 where
  pub row : MessageRow
  pub selected : select_next_message db_now (messages_of d name) ≡ some row
  pub returned : m ≡ record { id = row.id; body = row.body; enqueued_at = row.enqueued_at }
  pub updated : messages_of d' name ≡ set_visibility until row.id (messages_of d name)

-- Opening a queue changes no table.
pub db_at-open_queue :
    (f : Faults) (name j : String) (d : Dir) → db_at (open_queue f name d).0 j ≡ db_at d j
unfolding open_queue
db_at-open_queue f name j d = ground (arith, db_at-write_db name j (db_at d name) d, eq_iff name j)

claim-Claimed :
    (f : Faults) (name : String) (now until : ℕ) (d d' : Dir) (m : Message) (o : Option MessageRow)
    → o ≡ select_next_message now (messages_of d name)
    → claim f name until o d ≡ (d', ok (some m))
    → Claimed d d' name now until m
unfolding messages_of claim
claim-Claimed f name now until d d' m none p e = ground arith
claim-Claimed f name now until d d' m (some r) p e = record {
  row = r;
  selected = sym p;
  returned = ground arith;
  updated = ground (
    arith,
    db_at-write_db name name
        (record (db_at d name) { messages = set_visibility until r.id (messages_of d name) }) d,
    eq_refl name,
  );
}

dequeue-claim :
    (f : Faults) (now db_now : ℕ) (name : String) (t : ℤ) (d d' : Dir) (m : Message)
    → dequeue f now db_now name t d ≡ (d', ok (some m))
    → let d1 = (open_queue f name d).0 in
      claim f name
        (format_time (now + timeout_or_default t))
        (select_next_message db_now (messages_of d1 name))
        d1
      ≡ (d', ok (some m))
unfolding messages_of dequeue
dequeue-claim f now db_now name t d d' m e = ground arith

pub dequeue-Claimed :
    (f : Faults) (now db_now : ℕ) (name : String) (t : ℤ) (d d' : Dir) (m : Message)
    → dequeue f now db_now name t d ≡ (d', ok (some m))
    → Claimed d d' name db_now (format_time (now + timeout_or_default t)) m
unfolding messages_of
dequeue-Claimed f now db_now name t d d' m e =
    let d1 = (open_queue f name d).0 in
    let same = ap (λ (db : Db). db.messages) (db_at-open_queue f name name d) in
    let c : Claimed d1 d' name db_now (format_time (now + timeout_or_default t)) m =
      claim-Claimed f name db_now (format_time (now + timeout_or_default t)) d1 d' m _ refl
        (dequeue-claim f now db_now name t d d' m e) in
    record {
      row = c.row;
      selected = ap (select_next_message db_now) (sym same) ∙ c.selected;
      returned = c.returned;
      updated = c.updated ∙ ap (set_visibility _ c.row.id) same;
    }
