-- ===== src/Queue/Local.antt =====
-- The operations of internal/queue/local.go of cmd/morsel-ctrl-plane on messages and on the quota.
-- `now` is Go's clock in nanoseconds, `db_now` SQLite's in milliseconds.
use morsel.Prelude.{
  ℕ, ◌+◌, ◌/◌, ◌&&◌, List, Option, none, some, String, ltb, str_eq, if◌then◌else◌, length, ℤ, pos,
  negsuc, ltb_ℤ, int64, Bool, Result, ok, err, pure, gets, modify, failing, lift, ◌>>=◌, ◌>>◌,
}
use morsel.Queue.Tables.{
  MessageRow, QuotaRow, Db, insert_message, select_next_message, set_visibility,
  get_message_body_size, delete_message, count_messages, upsert_meta, get_quota, add_bytes,
  subtract_bytes, set_limit_bytes,
}
use morsel.Queue.Files.{
  Faults, read_quota, random, begin_tx, insert_row, update_meta, commit, update_quota, select_row,
  update_visibility, read_size, delete_row, count_rows, Error, quota_exceeded, failed, Dir, M,
  db_at, write_db, quota_path, open_queue, open_or_create_queue, open_quota, signal_queue,
}

-- The layout of a stored time cuts to milliseconds.
abbrev pub format_time : ℕ → ℕ
format_time now = now / 1000000

-- `limit > 0 && total + len > limit`, the sum in 64 bits.
unfoldable pub over_limit : QuotaRow → ℕ → Bool
unfolding int64
over_limit q len = ltb_ℤ (pos 0) q.limit_bytes && ltb_ℤ q.limit_bytes (int64 (q.total_bytes + len))

unfoldable pub read_quota_row : Faults → M QuotaRow
read_quota_row f d =
    if f read_quota
    then (d, err (failed read_quota))
    else elim (get_quota (db_at d quota_path).quota) [
      | none ↦ (d, err (failed read_quota))
      | some q ↦ (d, ok q)
    ]

abbrev pub fresh_id : Option String → M String
fresh_id none d = (d, err (failed random))
fresh_id (some i) d = (d, ok i)

unfoldable pub insert_or_fail : Faults → MessageRow → Db → Result Error Db
insert_or_fail f r db =
    if f insert_row then err (failed insert_row) else elim (insert_message r db.messages) [
      | none ↦ err (failed insert_row)
      | some rows ↦ ok (record db { messages = rows })
    ]

-- Only a sender of another namespace is noted.
unfoldable pub note_sender : Faults → String → String → ℕ → Db → Result Error Db
note_sender f ns sender stamp db =
    if str_eq sender ns
    then ok db
    else if f update_meta
    then err (failed update_meta)
    else ok (upsert_meta "last_external_enqueue_at" stamp db)

-- Best effort: a failed update leaves the count behind.
abbrev pub update_total : Faults → (List QuotaRow → List QuotaRow) → Dir → Dir
update_total f change d =
    if f update_quota
    then d
    else let db = db_at d quota_path in
      write_db quota_path (record db { quota = change db.quota }) d

-- The message's id, the transaction, and what follows a commit.
unfoldable pub store_message :
    Faults → ℕ → String → String → List ℕ → String → Option String → M (Unit {0})
store_message f now ns name body sender i = do
  id ← fresh_id i
  failing (f begin_tx) (failed begin_tx)
  db ← gets (λ d. db_at d name)
  inserted ← lift (
      insert_or_fail f
        (record {
          id = id;
          body = body;
          body_size = length body;
          enqueued_at = format_time now;
          visibility_until = none;
        })
        db)
  noted ← lift (note_sender f ns sender (format_time now) inserted)
  failing (f commit) (failed commit)
  modify (write_db name noted)
  modify (update_total f (add_bytes (length body)))
  modify (signal_queue name)

unfoldable pub enqueue :
    Faults → ℕ → Option String → String → String → List ℕ → String → M (Unit {0})
unfolding store_message
enqueue f now i ns name body sender = do
  open_quota f
  quota ← read_quota_row f
  failing (over_limit quota (length body)) quota_exceeded
  open_or_create_queue f name
  store_message f now ns name body sender i

pub record Message : Type 0 where
  pub id : String
  pub body : List ℕ
  pub enqueued_at : ℕ

abbrev pub default_visibility_timeout : ℕ
default_visibility_timeout = 30000000000

abbrev pub timeout_or_default : ℤ → ℕ
timeout_or_default (pos n) = if ltb 0 n then n else default_visibility_timeout
timeout_or_default (negsuc n) = default_visibility_timeout

-- `none` is `(nil, nil)`: no message is due.
unfoldable pub claim : Faults → String → ℕ → Option MessageRow → M (Option Message)
claim f name until none d = (d, ok none)
claim f name until (some row) d =
    if f update_visibility
    then (d, err (failed update_visibility))
    else if f commit
    then (d, err (failed commit))
    else let db = db_at d name in
      (
        write_db name (record db { messages = set_visibility until row.id db.messages }) d,
        ok (some (record { id = row.id; body = row.body; enqueued_at = row.enqueued_at })),
      )

unfoldable pub dequeue : Faults → ℕ → ℕ → String → ℤ → M (Option Message)
unfolding claim
dequeue f now db_now name timeout = do
  open_queue f name
  failing (f begin_tx) (failed begin_tx)
  failing (f select_row) (failed select_row)
  next ← gets (λ d. select_next_message db_now (db_at d name).messages)
  claim f name (format_time (now + timeout_or_default timeout)) next

-- A message that is not there is acknowledged already.
unfoldable pub discard : Faults → String → String → Option ℕ → M (Unit {0})
discard f name i none = pure tt
discard f name i (some size) = do
  failing (f delete_row) (failed delete_row)
  db ← gets (λ d. db_at d name)
  modify (write_db name (record db { messages = delete_message i db.messages }))
  open_quota f
  modify (update_total f (subtract_bytes size))

unfoldable pub ack : Faults → String → String → M (Unit {0})
unfolding discard
ack f name i = do
  open_queue f name
  failing (f read_size) (failed read_size)
  size ← gets (λ d. get_message_body_size i (db_at d name).messages)
  discard f name i size

unfoldable pub depth : Faults → String → M ℕ
depth f name = do
  open_queue f name
  failing (f count_rows) (failed count_rows)
  gets (λ d. count_messages (db_at d name).messages)

unfoldable pub set_quota : Faults → ℤ → M (Unit {0})
set_quota f limit = do
  open_quota f
  failing (f update_quota) (failed update_quota)
  db ← gets (λ d. db_at d quota_path)
  modify (write_db quota_path (record db { quota = set_limit_bytes limit db.quota }))

unfoldable pub usage : Faults → M ℕ
usage f = do open_quota f; quota ← read_quota_row f; pure quota.total_bytes
