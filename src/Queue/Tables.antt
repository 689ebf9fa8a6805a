-- ===== src/Queue/Tables.antt =====
-- The SQLite tables of one queue file and of the quota file, and the statements run on them:
-- internal/queue/queries/*.sql.go and internal/queue/*_schema.sql of cmd/morsel-ctrl-plane.
-- A time stored as text is the number of its milliseconds: the layout has a fixed width, so the
-- order of the texts is that of the numbers.
use morsel.Prelude.{
  ℕ, ◌+◌, ◌-◌, Bool, true, not, List, [], ◌∷◌, ◌++◌, Option, none, some, String, Assoc, lookup,
  insert, ltb, leb, str_eq, if◌then◌else◌, length, select, find, any, ℤ, pos,
}

pub record MessageRow : Type 0 where
  pub id : String
  pub body : List ℕ
  pub body_size : ℕ
  pub enqueued_at : ℕ
  pub visibility_until : Option ℕ

pub record QuotaRow : Type 0 where
  pub total_bytes : ℕ
  pub limit_bytes : ℤ

-- One file. A file that has not seen one of the two schemas has that schema's tables empty.
pub record Db : Type 0 where
  pub messages : List MessageRow
  pub meta : Assoc ℕ
  pub quota : List QuotaRow

abbrev pub empty_db : Db
empty_db = record { messages = []; meta = []; quota = [] }

-- `CREATE TABLE IF NOT EXISTS` twice.
abbrev pub messages_schema : Db → Db
messages_schema db = db

-- The table has no key, so `INSERT OR IGNORE` has no conflict to ignore, and adds a row each time.
unfoldable pub quota_schema : Db → Db
quota_schema db = record db {
  quota = db.quota ++ record { total_bytes = 0; limit_bytes = pos 0 } ∷ [];
}

abbrev pub has_id : String → MessageRow → Bool
has_id i r = str_eq r.id i

-- `id` is the primary key: a second row of that id is refused.
unfoldable pub insert_message : MessageRow → List MessageRow → Option (List MessageRow)
insert_message r rows = if any (has_id r.id) rows then none else some (rows ++ r ∷ [])

unfoldable pub is_visible : ℕ → MessageRow → Bool
is_visible now r = elim r.visibility_until [ none ↦ true | some t ↦ ltb t now ]

-- Of two candidates the earlier one by `enqueued_at`, and of equals the first in the table.
unfoldable pub earlier : MessageRow → Option MessageRow → MessageRow
earlier r none = r
earlier r (some b) = if leb r.enqueued_at b.enqueued_at then r else b

unfoldable pub select_next_message : ℕ → List MessageRow → Option MessageRow
unfolding is_visible earlier
select_next_message now [] = none
select_next_message now (r ∷ rows) =
    let rest = select_next_message now rows in
    if is_visible now r then some (earlier r rest) else rest

unfoldable pub set_visibility : ℕ → String → List MessageRow → List MessageRow
set_visibility until i [] = []
set_visibility until i (r ∷ rows) =
    (if has_id i r then record r { visibility_until = some until } else r)
    ∷ set_visibility until i rows

unfoldable pub get_message_body_size : String → List MessageRow → Option ℕ
get_message_body_size i rows = elim (find (has_id i) rows) [
  | none ↦ none
  | some r ↦ some r.body_size
]

unfoldable pub delete_message : String → List MessageRow → List MessageRow
delete_message i rows = select (λ r. not (has_id i r)) rows

abbrev pub count_messages : List MessageRow → ℕ
count_messages rows = length rows

unfoldable pub get_meta : String → Db → Option ℕ
unfolding lookup
get_meta key db = lookup key db.meta

unfoldable pub upsert_meta : String → ℕ → Db → Db
unfolding insert
upsert_meta key value db = record db { meta = insert key value db.meta }

-- `QueryRow` scans the first row only.
unfoldable pub get_quota : List QuotaRow → Option QuotaRow
get_quota [] = none
get_quota (q ∷ rest) = some q

-- The updates have no `WHERE`: they change every row.
abbrev pub change_quota : (QuotaRow → QuotaRow) → List QuotaRow → List QuotaRow
change_quota f [] = []
change_quota f (q ∷ rest) = f q ∷ change_quota f rest

unfoldable pub add_bytes : ℕ → List QuotaRow → List QuotaRow
add_bytes n = change_quota (λ q. record q { total_bytes = q.total_bytes + n })

-- `MAX(0, total_bytes - ?)`: the subtraction of ℕ stops at 0.
unfoldable pub subtract_bytes : ℕ → List QuotaRow → List QuotaRow
subtract_bytes n = change_quota (λ q. record q { total_bytes = q.total_bytes - n })

unfoldable pub set_limit_bytes : ℤ → List QuotaRow → List QuotaRow
set_limit_bytes limit = change_quota (λ q. record q { limit_bytes = limit })
