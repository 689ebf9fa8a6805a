-- ===== src/Queue/Deletion.antt =====
-- What a successful Ack and Dequeue of internal/queue/local.go do to each queue of a namespace.
use morsel.Prelude.{ℕ, List, String, str_eq, if◌then◌else◌}
use morsel.Queue.Tables.{set_visibility, MessageRow, delete_message}

-- The rows of a queue without the id if it is the queue of that name.
abbrev pub rows_without : String → String → String → List MessageRow → List MessageRow
rows_without name i j rows = if str_eq name j then delete_message i rows else rows

-- The rows of a queue with the id hidden until that time if it is the queue of that name.
abbrev pub rows_hiding : ℕ → String → String → String → List MessageRow → List MessageRow
rows_hiding until name i j rows = if str_eq name j then set_visibility until i rows else rows
