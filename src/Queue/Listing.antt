-- ===== src/Queue/Listing.antt =====
-- ListQueues and IdleStatus of internal/queue/local.go of cmd/morsel-ctrl-plane.
use morsel.Prelude.{
  ℕ, ◌+◌, ◌*◌, Bool, true, false, List, [], ◌∷◌, Option, none, some, String, Assoc, ltb, str_eq,
  if◌then◌else◌, ℤ, pos, negsuc, pure, gets, failing, ◌>>=◌, ◌>>◌,
}
use morsel.Queue.Tables.{Db, count_messages, get_meta}
use morsel.Queue.Files.{
  Faults, count_rows, read_meta, read_dir, failed, M, db_at, quota_path, open_queue,
}

pub record Info : Type 0 where
  pub name : String
  pub depth : ℕ
  pub idle : Bool

-- `now` is in nanoseconds, the stored time in milliseconds. The queue is busy if the last external
-- message came less than `idle_after` ago; without one, or with no such time given, it is idle.
unfoldable pub is_idle : ℕ → ℤ → Option ℕ → Bool
is_idle now (negsuc n) last = true
is_idle now (pos n) none = true
is_idle now (pos n) (some t) =
    if ltb now (t * 1000000 + n) then (if ltb 0 n then false else true) else true

-- A failed read of the meta table counts as no external message.
abbrev last_external : Faults → Db → Option ℕ
last_external f db = if f read_meta then none else get_meta "last_external_enqueue_at" db

unfoldable pub queue_info : Faults → ℕ → String → ℤ → M Info
queue_info f now name idle_after = do
  open_queue f name
  failing (f count_rows) (failed count_rows)
  db ← gets (λ d. db_at d name)
  pure (record {
    name = name;
    depth = count_messages db.messages;
    idle = is_idle now idle_after (last_external f db);
  })

-- The queues among the files, in the order of the directory.
unfoldable pub queue_names : Assoc Db → List String
queue_names [] = []
queue_names ((p, db) ∷ files) =
    let rest = queue_names files in if str_eq p quota_path then rest else p ∷ rest

unfoldable pub infos_of : (String → Faults) → ℕ → List String → ℤ → M (List Info)
infos_of f now [] idle_after = pure []
infos_of f now (name ∷ rest) idle_after = do
  info ← queue_info (f name) now name idle_after
  infos ← infos_of f now rest idle_after
  pure (info ∷ infos)

-- The faults of the directory's read, and those of each queue's file.
unfoldable pub list_queues : Faults → (String → Faults) → ℕ → ℤ → M (List Info)
unfolding queue_names infos_of queue_info
list_queues g f now idle_after = do
  failing (g read_dir) (failed read_dir)
  names ← gets (λ d. queue_names d.files)
  infos_of f now names idle_after
