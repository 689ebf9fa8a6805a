-- ===== src/Queue/Files.antt =====
-- The directory of one namespace, its files and the notifier channels: the helpers of
-- internal/queue/local.go of cmd/morsel-ctrl-plane, CreateQueue and DeleteQueue.
-- A path is its file name without `.db`. `Faults` says which of the calls into SQLite, the file
-- system and the random source fail. A failed open leaves the directory as it was, a failed call
-- its table.
use morsel.Prelude.{
  Bool, true, false, Option, none, some, String, Assoc, lookup, insert, remove, if◌then◌else◌, ok,
  err, Action,
}
use morsel.Queue.Tables.{Db, empty_db, messages_schema, quota_schema}

-- The calls that may fail.
pub data Fault : Type 0 where
  open_quota_db read_quota open_queue_db random begin_tx insert_row update_meta commit : Fault
  update_quota select_row update_visibility read_size delete_row count_rows remove_file
        remove_sidecar :
      Fault
  read_dir read_meta : Fault

abbrev pub Faults : Type 0
Faults = Fault → Bool

pub data Error : Type 0 where
  queue_not_found quota_exceeded : Error
  failed : Fault → Error

-- The files of the namespace's directory, and the notifier channels of the process: a channel
-- holds at most one signal.
pub record Dir : Type 0 where
  pub files : Assoc Db
  pub notifiers : Assoc Bool

abbrev pub M : Type 0 → Type 0
M A = Action Dir Error A

abbrev pub exists : String → Dir → Bool
exists p d = elim (lookup p d.files) [ none ↦ false | some db ↦ true ]

abbrev pub db_or_empty : Option Db → Db
db_or_empty none = empty_db
db_or_empty (some db) = db

abbrev pub db_at : Dir → String → Db
db_at d p = db_or_empty (lookup p d.files)

abbrev pub write_db : String → Db → Dir → Dir
write_db p db d = record d { files = insert p db d.files }

abbrev pub quota_path : String
quota_path = "quota"

abbrev pub open_sqlite : String → (Db → Db) → Dir → Dir
open_sqlite p schema d = write_db p (schema (db_at d p)) d

unfoldable pub open_queue : Faults → String → M (Unit {0})
open_queue f name d =
    if exists name d
    then (if f open_queue_db
        then (d, err (failed open_queue_db))
        else (open_sqlite name messages_schema d, ok tt))
    else (d, err queue_not_found)

unfoldable pub open_or_create_queue : Faults → String → M (Unit {0})
open_or_create_queue f name d =
    if f open_queue_db
    then (d, err (failed open_queue_db))
    else (open_sqlite name messages_schema d, ok tt)

unfoldable pub open_quota : Faults → M (Unit {0})
open_quota f d =
    if f open_quota_db
    then (d, err (failed open_quota_db))
    else (open_sqlite quota_path quota_schema d, ok tt)

-- A full channel takes no second signal, and a queue that nobody has waited for has no channel.
unfoldable pub signal_queue : String → Dir → Dir
signal_queue name d = elim (lookup name d.notifiers) [
  | none ↦ d
  | some pending ↦ record d { notifiers = insert name true d.notifiers }
]

-- The part of a wait that takes the lock: it makes the channel if there is none.
unfoldable pub register_wait : String → Dir → Dir
register_wait name d = elim (lookup name d.notifiers) [
  | none ↦ record d { notifiers = insert name false d.notifiers }
  | some pending ↦ d
]

-- The end of a wait: by the signal, which is taken, or by the timeout.
unfoldable pub wake : String → Dir → Dir × Bool
wake name d = elim (lookup name d.notifiers) [
  | none ↦ (d, false)
  | some true ↦ (record d { notifiers = insert name false d.notifiers }, true)
  | some false ↦ (d, false)
]

unfoldable pub create_queue : Faults → String → M (Unit {0})
create_queue = open_or_create_queue

-- The file goes first, then what SQLite keeps beside it: where that stays, the queue is gone all the
-- same.
unfoldable pub delete_queue : Faults → String → M (Unit {0})
delete_queue f name d =
    if exists name d
    then (if f remove_file then (d, err (failed remove_file)) else (
      record d { files = remove name d.files },
      if f remove_sidecar then err (failed remove_sidecar) else ok tt,
    ))
    else (d, err queue_not_found)
