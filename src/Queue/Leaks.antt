-- ===== src/Queue/Leaks.antt =====
-- What the namespace keeps for good: bytes of deleted queues on the count, rows of quota.db, and
-- signals that nobody was registered for.
use morsel.Prelude.{
  ℕ, zero, suc, ◌+◌, ◌≡◌, ap, ◌≢◌, true, false, [], none, String, arith, eq_iff, eq_refl, ok,
  lookup, lookup-remove, lookup-insert,
}
use morsel.Queue.Files.{
  Dir, Faults, open_quota_db, delete_queue, quota_path, signal_queue, register_wait, wake,
}
use morsel.Queue.Local.{usage}
use morsel.Queue.Claims.{messages_of}
use morsel.Queue.Quota.{quota_of, quota_rows, quota_rows-open_quota}
use morsel.Queue.Balance.{usage_state, open_quota-ok}

-- A successful DeleteQueue of a queue that does not bear the name of quota.db leaves no message in
-- that queue and the namespace's count of bytes and its limit unchanged.
pub delete_queue_leaks :
    (f : Faults) (name : String) (d d' : Dir)
    → delete_queue f name d ≡ (d', ok tt)
    → name ≢ quota_path
    → (messages_of d' name ≡ []) × (quota_of d' ≡ quota_of d)
unfolding delete_queue messages_of quota_of
delete_queue_leaks f name d d' e ne = ground (
  arith,
  lookup-remove name name d.files,
  lookup-remove name quota_path d.files,
  eq_refl name,
  eq_iff name quota_path,
)

-- The reads of the usage, one after another.
unfoldable pub usages : Faults → ℕ → Dir → Dir
usages f zero d = d
usages f (suc n) d = usages f n (usage f d).0

-- Where quota.db can be opened, reading the usage n times adds n rows to its table.
pub usages-quota_rows :
    (f : Faults) (n : ℕ) (d : Dir)
    → f open_quota_db ≡ false
    → quota_rows (usages f n d) ≡ quota_rows d + n
unfolding usages
usages-quota_rows f zero d w = omega arith
usages-quota_rows f (suc n) d w = omega (
  arith,
  usages-quota_rows f n (usage f d).0 w,
  ap quota_rows (usage_state f d),
  quota_rows-open_quota f d {a = tt} (open_quota-ok f d w),
)

-- A signal for a queue that has no channel is lost: a waiter that registers after it is not woken.
pub signal_lost :
    (name : String) (d : Dir)
    → lookup name d.notifiers ≡ none
    → (wake name (register_wait name (signal_queue name d))).1 ≡ false
unfolding wake register_wait signal_queue
signal_lost name d e = ground (arith, lookup-insert name name false d.notifiers, eq_refl name)

-- A waiter that has registered is woken by a signal that comes before it looks.
pub signal_wakes :
    (name : String) (d : Dir) → (wake name (signal_queue name (register_wait name d))).1 ≡ true
unfolding wake register_wait signal_queue
signal_wakes name d = ground (
  arith,
  lookup-insert name name false d.notifiers,
  lookup-insert name name true (register_wait name d).notifiers,
  eq_refl name,
)
