-- ===== src/Queue/Quota.antt =====
-- The byte count of a namespace: the first row of quota.db, and the sizes of the stored messages.
use morsel.Prelude.{
  ℕ, suc, ◌+◌, ◌-◌, ◌<◌, ◌≡◌, refl, ap, false, List, [], ◌∷◌, ◌++◌, String, Assoc, lookup, insert,
  arith, eq_iff, str_eq, if◌then◌else◌, pos, ok, length, length-append, eq_refl, sum_of,
}
use morsel.Queue.Tables.{
  MessageRow, QuotaRow, Db, quota_schema, add_bytes, subtract_bytes, get_quota, change_quota,
}
use morsel.Queue.Files.{
  Dir, Faults, update_quota, db_at, db_or_empty, write_db, open_quota, open_queue,
  open_or_create_queue, signal_queue, quota_path,
}
use morsel.Queue.Local.{read_quota_row, update_total}
use morsel.Queue.Claims.{messages_of, db_at-write_db}

unfoldable pub first_row : List QuotaRow → QuotaRow
first_row [] = record { total_bytes = 0; limit_bytes = pos 0 }
first_row (q ∷ rest) = q

-- The row that the code reads, zero before the first open.
unfoldable pub quota_of : Dir → QuotaRow
unfolding first_row
quota_of d = first_row (db_at d quota_path).quota

unfoldable pub quota_rows : Dir → ℕ
quota_rows d = length (db_at d quota_path).quota

abbrev pub bytes_of : List MessageRow → ℕ
bytes_of rows = sum_of (λ r. r.body_size) rows

abbrev pub file_bytes : String × Db → ℕ
file_bytes (p, db) = bytes_of db.messages

-- The bytes of all messages stored in the namespace.
unfoldable pub stored_bytes : Dir → ℕ
stored_bytes d = sum_of file_bytes d.files

first_row-open :
    (rows : List QuotaRow)
    → first_row (rows ++ record { total_bytes = 0; limit_bytes = pos 0 } ∷ []) ≡ first_row rows
unfolding first_row
first_row-open [] = refl
first_row-open (q ∷ rest) = refl

first_row-add :
    (n : ℕ) (rows : List QuotaRow)
    → 0 < length rows
    → first_row (add_bytes n rows)
      ≡ record (first_row rows) { total_bytes = (first_row rows).total_bytes + n }
unfolding first_row add_bytes
first_row-add n [] h = absurd (omega arith)
first_row-add n (q ∷ rest) h = refl

first_row-subtract :
    (n : ℕ) (rows : List QuotaRow)
    → 0 < length rows
    → first_row (subtract_bytes n rows)
      ≡ record (first_row rows) { total_bytes = (first_row rows).total_bytes - n }
unfolding first_row subtract_bytes
first_row-subtract n [] h = absurd (omega arith)
first_row-subtract n (q ∷ rest) h = refl

length-change_quota :
    (g : QuotaRow → QuotaRow) (rows : List QuotaRow) → length (change_quota g rows) ≡ length rows
length-change_quota g [] = refl
length-change_quota g (q ∷ rest) = ap suc (length-change_quota g rest)

sum_of-insert :
    (p : String) (db : Db) (m : Assoc Db)
    → sum_of file_bytes (insert p db m) + bytes_of (db_or_empty (lookup p m)).messages
      ≡ sum_of file_bytes m + bytes_of db.messages
unfolding insert lookup
sum_of-insert p db [] = omega arith
sum_of-insert p db ((q, x) ∷ m) = ground (arith, sum_of-insert p db m)

pub stored_bytes-write_db :
    (p : String) (db : Db) (d : Dir)
    → stored_bytes (write_db p db d) + bytes_of (messages_of d p)
      ≡ stored_bytes d + bytes_of db.messages
unfolding stored_bytes messages_of
stored_bytes-write_db p db d = sum_of-insert p db d.files

module _ (p : String) (db : Db) (d : Dir) where
  pub quota_of-write_db :
      quota_of (write_db p db d) ≡ (if str_eq p quota_path then first_row db.quota else quota_of d)
  unfolding quota_of
  quota_of-write_db = ground (arith, db_at-write_db p quota_path db d)

  -- A rewrite that leaves a file's quota rows alone.
  pub quota_of-write_same : db.quota ≡ (db_at d p).quota → quota_of (write_db p db d) ≡ quota_of d
  unfolding quota_of
  quota_of-write_same e = ground (arith, db_at-write_db p quota_path db d, eq_iff p quota_path)

  pub quota_rows-write_same :
      db.quota ≡ (db_at d p).quota → quota_rows (write_db p db d) ≡ quota_rows d
  unfolding quota_rows
  quota_rows-write_same e = ground (arith, db_at-write_db p quota_path db d, eq_iff p quota_path)

  pub stored_bytes-write_same :
      db.messages ≡ messages_of d p → stored_bytes (write_db p db d) ≡ stored_bytes d
  stored_bytes-write_same e = ground (arith, stored_bytes-write_db p db d)

pub quota_of-open_quota : (f : Faults) (d : Dir) → quota_of (open_quota f d).0 ≡ quota_of d
unfolding open_quota quota_of quota_schema
quota_of-open_quota f d = ground (
  arith,
  first_row-open (db_at d quota_path).quota,
  db_at-write_db quota_path quota_path (quota_schema (db_at d quota_path)) d,
  eq_refl quota_path,
)

pub quota_rows-open_quota :
    (f : Faults) (d : Dir) {a : Unit {0}}
    → (open_quota f d).1 ≡ ok a
    → quota_rows (open_quota f d).0 ≡ suc (quota_rows d)
unfolding open_quota quota_rows quota_schema
quota_rows-open_quota f d e = ground (
  arith,
  length-append (db_at d quota_path).quota (record { total_bytes = 0; limit_bytes = pos 0 } ∷ []),
  db_at-write_db quota_path quota_path (quota_schema (db_at d quota_path)) d,
  eq_refl quota_path,
)

pub stored_bytes-open_quota :
    (f : Faults) (d : Dir) → stored_bytes (open_quota f d).0 ≡ stored_bytes d
unfolding open_quota quota_schema messages_of
stored_bytes-open_quota f d =
    ground (arith, stored_bytes-write_same quota_path (quota_schema (db_at d quota_path)) d)

module _ (f : Faults) (name : String) (d : Dir) where
  pub quota_of-open_or_create : quota_of (open_or_create_queue f name d).0 ≡ quota_of d
  unfolding open_or_create_queue
  quota_of-open_or_create = ground (arith, quota_of-write_same name (db_at d name) d)

  pub quota_rows-open_or_create : quota_rows (open_or_create_queue f name d).0 ≡ quota_rows d
  unfolding open_or_create_queue
  quota_rows-open_or_create = ground (arith, quota_rows-write_same name (db_at d name) d)

  pub stored_bytes-open_or_create : stored_bytes (open_or_create_queue f name d).0 ≡ stored_bytes d
  unfolding open_or_create_queue messages_of
  stored_bytes-open_or_create = ground (arith, stored_bytes-write_same name (db_at d name) d)

  pub quota_of-open_queue : quota_of (open_queue f name d).0 ≡ quota_of d
  unfolding open_queue
  quota_of-open_queue = ground (arith, quota_of-write_same name (db_at d name) d)

  pub stored_bytes-open_queue : stored_bytes (open_queue f name d).0 ≡ stored_bytes d
  unfolding open_queue messages_of
  stored_bytes-open_queue = ground (arith, stored_bytes-write_same name (db_at d name) d)

pub read_quota_row-quota_of :
    (f : Faults) (d : Dir) (q : QuotaRow) → (read_quota_row f d).1 ≡ ok q → q ≡ quota_of d
unfolding read_quota_row get_quota quota_of
read_quota_row-quota_of f d q e = ground arith

pub update_total-add :
    (f : Faults) (n : ℕ) (d : Dir)
    → f update_quota ≡ false
    → 0 < quota_rows d
    → quota_of (update_total f (add_bytes n) d)
      ≡ record (quota_of d) { total_bytes = (quota_of d).total_bytes + n }
unfolding quota_of quota_rows
update_total-add f n d e h = ground (
  arith,
  first_row-add n (db_at d quota_path).quota,
  db_at-write_db quota_path quota_path
      (record (db_at d quota_path) { quota = add_bytes n (db_at d quota_path).quota }) d,
  eq_refl quota_path,
)

pub update_total-subtract :
    (f : Faults) (n : ℕ) (d : Dir)
    → f update_quota ≡ false
    → 0 < quota_rows d
    → quota_of (update_total f (subtract_bytes n) d)
      ≡ record (quota_of d) { total_bytes = (quota_of d).total_bytes - n }
unfolding quota_of quota_rows
update_total-subtract f n d e h = ground (
  arith,
  first_row-subtract n (db_at d quota_path).quota,
  db_at-write_db quota_path quota_path
      (record (db_at d quota_path) { quota = subtract_bytes n (db_at d quota_path).quota }) d,
  eq_refl quota_path,
)

pub update_total-stored :
    (f : Faults) (g : List QuotaRow → List QuotaRow) (d : Dir)
    → stored_bytes (update_total f g d) ≡ stored_bytes d
unfolding messages_of
update_total-stored f g d = ground (
  arith,
  stored_bytes-write_same quota_path
      (record (db_at d quota_path) { quota = g (db_at d quota_path).quota }) d,
)

pub signal_queue-quota :
    (name : String) (d : Dir)
    → (quota_of (signal_queue name d) ≡ quota_of d)
      × (stored_bytes (signal_queue name d) ≡ stored_bytes d)
unfolding signal_queue quota_of stored_bytes
signal_queue-quota name d = ground arith
