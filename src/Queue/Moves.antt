-- ===== src/Queue/Moves.antt =====
-- Each operation of internal/queue/local.go as a move of the message tables.
use morsel.Prelude.{
  ℕ, ◌≡◌, false, List, [], ◌∷◌, ◌++◌, Option, none, some, String, arith, eq_iff, any,
}
use morsel.Queue.Tables.{
  MessageRow, QuotaRow, Db, select_next_message, set_visibility, delete_message, has_id,
  quota_schema,
}
use morsel.Queue.Files.{
  Dir, Faults, db_at, write_db, open_quota, open_or_create_queue, signal_queue, quota_path,
}
use morsel.Queue.Local.{read_quota_row, update_total}
use morsel.Queue.Claims.{messages_of, db_at-write_db}

-- What may happen to a queue's table under a call that has drawn the id `fresh`, if any, at the time
-- `clock` of the database: nothing; a new message of that id, not yet claimed, goes to the end; the
-- message selected at that time is hidden until a later one; a message goes; the queue goes.
pub data Move (fresh : Option String) (clock : ℕ) (rows rows' : List MessageRow) : Type 0 where
  keep : rows' ≡ rows → Move fresh clock rows rows'
  append :
      (r : MessageRow)
      → fresh ≡ some r.id
      → any (has_id r.id) rows ≡ false
      → r.visibility_until ≡ none
      → rows' ≡ rows ++ r ∷ []
      → Move fresh clock rows rows'
  hide :
      (until : ℕ) (r : MessageRow)
      → select_next_message clock rows ≡ some r
      → rows' ≡ set_visibility until r.id rows
      → Move fresh clock rows rows'
  drop : (i : String) → rows' ≡ delete_message i rows → Move fresh clock rows rows'
  clear : rows' ≡ [] → Move fresh clock rows rows'

module _ (j : String) where
  abbrev pub Keeps : Dir → Dir → Type 0
  Keeps d d' = messages_of d' j ≡ messages_of d j

  pub write_db-Keeps :
      (p : String) (db : Db) (d : Dir) → db.messages ≡ messages_of d p → Keeps d (write_db p db d)
  unfolding messages_of
  write_db-Keeps p db d h = ground (arith, db_at-write_db p j db d, eq_iff p j)

  pub open_quota-Keeps : (f : Faults) (d : Dir) → Keeps d (open_quota f d).0
  unfolding messages_of open_quota quota_schema
  open_quota-Keeps f d =
      ground (arith, write_db-Keeps quota_path (quota_schema (db_at d quota_path)) d)

  pub read_quota_row-Keeps : (f : Faults) (d : Dir) → Keeps d (read_quota_row f d).0
  unfolding read_quota_row
  read_quota_row-Keeps f d = ground arith

  pub read_quota_row-state : (f : Faults) (d : Dir) → (read_quota_row f d).0 ≡ d
  unfolding read_quota_row
  read_quota_row-state f d = ground arith

  pub open_or_create_queue-Keeps :
      (f : Faults) (name : String) (d : Dir) → Keeps d (open_or_create_queue f name d).0
  unfolding messages_of open_or_create_queue
  open_or_create_queue-Keeps f name d = ground (arith, write_db-Keeps name (db_at d name) d)

  pub update_total-Keeps :
      (f : Faults) (change : List QuotaRow → List QuotaRow) (d : Dir)
      → Keeps d (update_total f change d)
  unfolding messages_of
  update_total-Keeps f change d = ground (
    arith,
    write_db-Keeps quota_path
        (record (db_at d quota_path) { quota = change (db_at d quota_path).quota }) d,
  )

  pub signal_queue-Keeps : (name : String) (d : Dir) → Keeps d (signal_queue name d)
  unfolding messages_of signal_queue
  signal_queue-Keeps name d = ground arith
