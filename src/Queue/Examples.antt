-- ===== src/Queue/Examples.antt =====
-- The theorems on internal/queue at a concrete directory, and runs of its operations.
use morsel.Prelude.{
  ℕ, ◌≤◌, ◌≡◌, refl, ◌≢◌, true, false, [], ◌∷◌, none, some, String, pos, ok, err, arith, insert,
  lookup, ◌+◌,
}
use morsel.Queue.Tables.{
  MessageRow, QuotaRow, select_next_message, set_visibility, insert_message, get_quota,
  subtract_bytes, delete_message, get_message_body_size, quota_schema,
}
use morsel.Queue.Files.{
  Dir, Faults, queue_not_found, quota_exceeded, signal_queue, open_queue, open_quota,
  open_or_create_queue,
}
use morsel.Queue.Local.{
  Message, enqueue, dequeue, ack, usage, over_limit, insert_or_fail, note_sender, store_message,
  claim, discard, read_quota_row,
}
use mathlib.Core.List.{Mem}
use morsel.Queue.Delivery.{NoneBefore}
use morsel.Queue.Tables.{is_visible}
use morsel.Queue.Claims.{messages_of}
use morsel.Queue.Keys.{UniqueIds}
use morsel.Queue.Quota.{first_row, quota_of, stored_bytes}
use morsel.Queue.History.{acks, uses, run, step, dequeue_exclusive}
use morsel.Queue.Accounting.{EnqueueOutcome, enqueue_outcome, enqueue_within_limit}
use morsel.Queue.Balance.{Balanced, usage_exact}
use morsel.Queue.Receipt.{Claims, dequeue_returns, dequeue_oldest, dequeue-enqueue, to_message}
use morsel.Queue.Acked.{ack_final}

abbrev no_faults : Faults
no_faults fault = false

abbrev job : MessageRow
job = record {
  id = "msg_01";
  body = 104 ∷ 105 ∷ [];
  body_size = 2;
  enqueued_at = 5;
  visibility_until = none;
}

abbrev task : MessageRow
task = record {
  id = "msg_02";
  body = 1 ∷ [];
  body_size = 1;
  enqueued_at = 7;
  visibility_until = none;
}

abbrev limits_row : QuotaRow
limits_row = record { total_bytes = 3; limit_bytes = pos 10 }

abbrev two_jobs : Dir
two_jobs = record {
  files =
      ("jobs", record { messages = job ∷ task ∷ []; meta = []; quota = [] })
      ∷ ("quota", record { messages = []; meta = []; quota = limits_row ∷ [] })
      ∷ [];
  notifiers = [];
}

abbrev job_message : Message
job_message = record { id = "msg_01"; body = 104 ∷ 105 ∷ []; enqueued_at = 5 }

abbrev task_message : Message
task_message = record { id = "msg_02"; body = 1 ∷ []; enqueued_at = 7 }

abbrev claimed : Dir
claimed = (dequeue no_faults 9000000 9 "jobs" (pos 0) two_jobs).0

first_claim : dequeue no_faults 9000000 9 "jobs" (pos 0) two_jobs ≡ (claimed, ok (some job_message))
unfolding dequeue open_queue claim select_next_message lookup insert set_visibility
first_claim = refl

second_claim :
    (dequeue no_faults 9100000 9 "jobs" (pos 0) (run claimed ((no_faults, uses) ∷ []))).1
    ≡ ok (some task_message)
unfolding dequeue open_queue claim select_next_message lookup insert set_visibility run step usage
    open_quota read_quota_row get_quota quota_schema
second_claim = refl

-- A read of the usage and an acknowledgement with a failed open of quota.db come in between.
dequeue_exclusive_example : task_message.id ≢ job_message.id
unfolding dequeue open_queue claim select_next_message lookup insert set_visibility run step usage
    open_quota read_quota_row get_quota quota_schema
dequeue_exclusive_example =
    dequeue_exclusive no_faults no_faults 9000000 9 9100000 9 "jobs" (pos 0) (pos 0) two_jobs
      claimed (dequeue no_faults 9100000 9 "jobs" (pos 0) (run claimed ((no_faults, uses) ∷ []))).0
      job_message task_message ((no_faults, uses) ∷ []) first_claim ((omega arith, λ e. cc), tt)
      (omega arith) refl

abbrev acked : Dir
acked = (ack no_faults "jobs" "msg_01" two_jobs).0

ack_final_example : task_message.id ≢ "msg_01"
unfolding ack discard dequeue open_queue claim select_next_message lookup insert set_visibility run
    step usage open_quota read_quota_row get_quota quota_schema get_message_body_size delete_message
    subtract_bytes
ack_final_example =
    ack_final no_faults no_faults 9100000 9 "jobs" "msg_01" (pos 0) two_jobs acked
      (dequeue no_faults 9100000 9 "jobs" (pos 0) (run acked ((no_faults, uses) ∷ []))).0
      task_message ((no_faults, uses) ∷ []) refl ((λ e. cc), tt) refl

keys_of : (j : String) → UniqueIds (messages_of two_jobs j)
unfolding messages_of lookup
keys_of j = ground arith

two_jobs-Balanced : Balanced two_jobs
unfolding quota_of stored_bytes first_row lookup
two_jobs-Balanced = record { exact = refl; keys = keys_of }

usage_exact_example :
    ◌≡◌ {A = ℕ} 1 (stored_bytes (run two_jobs ((no_faults, acks "jobs" "msg_01") ∷ [])))
unfolding ack discard open_queue lookup insert run step usage open_quota read_quota_row get_quota
    quota_schema get_message_body_size delete_message subtract_bytes
usage_exact_example =
    usage_exact no_faults two_jobs
      (usage no_faults (run two_jobs ((no_faults, acks "jobs" "msg_01") ∷ []))).0
      ((no_faults, acks "jobs" "msg_01") ∷ []) 1 ((record { opens = refl; updates = refl }, tt), tt)
      two_jobs-Balanced refl

enqueue_outcome_example :
    EnqueueOutcome no_faults 11000000
      (some "msg_03")
      "jobs"
      (1 ∷ 2 ∷ [])
      two_jobs
      (enqueue no_faults 11000000 (some "msg_03") "app" "jobs" (1 ∷ 2 ∷ []) "app" two_jobs)
enqueue_outcome_example =
    enqueue_outcome no_faults 11000000 (some "msg_03") "app" "jobs" (1 ∷ 2 ∷ []) "app" two_jobs

abbrev sent : Dir
sent = (enqueue no_faults 11000000 (some "msg_03") "app" "jobs" (1 ∷ 2 ∷ []) "app" two_jobs).0

sent_ok :
    enqueue no_faults 11000000 (some "msg_03") "app" "jobs" (1 ∷ 2 ∷ []) "app" two_jobs
    ≡ (sent, ok tt)
unfolding enqueue store_message over_limit insert_or_fail note_sender open_quota
    open_or_create_queue read_quota_row get_quota quota_schema insert_message signal_queue lookup
    insert
sent_ok = refl

enqueue_within_limit_example :
    ((quota_of sent).total_bytes ≡ (quota_of two_jobs).total_bytes + 2)
    × ((quota_of sent).total_bytes ≤ 10)
unfolding quota_of first_row lookup
enqueue_within_limit_example =
    enqueue_within_limit no_faults 11000000 (some "msg_03") "app" "jobs" (1 ∷ 2 ∷ []) "app" two_jobs
      sent 10 sent_ok refl (omega arith) (omega arith) refl

dequeue_oldest_example :
    (r : MessageRow) × Mem r (messages_of two_jobs "jobs")
    × (job_message ≡ record { id = r.id; body = r.body; enqueued_at = r.enqueued_at })
    × (is_visible 9 r ≡ true)
    × NoneBefore 9 r.enqueued_at (messages_of two_jobs "jobs")
dequeue_oldest_example =
    dequeue_oldest no_faults 9000000 9 "jobs" (pos 0) two_jobs claimed job_message first_claim

works : Claims no_faults
works = record { opens = refl; begins = refl; selects = refl; updates = refl; commits = refl }

job_delivered :
    (dequeue no_faults 9000000 9 "jobs" (pos 0) two_jobs).1
    ≡ ok (to_message (select_next_message 9 (messages_of two_jobs "jobs")))
unfolding lookup
job_delivered = dequeue_returns no_faults 9000000 9 "jobs" (pos 0) two_jobs works refl

abbrev no_files : Dir
no_files = record { files = []; notifiers = [] }

abbrev first_sent : Dir
first_sent = (enqueue no_faults 11000000 (some "msg_03") "app" "jobs" (1 ∷ 2 ∷ []) "app" no_files).0

dequeue-enqueue_example :
    (dequeue no_faults 12000000 12 "jobs" (pos 0) first_sent).1
    ≡ ok (some (record { id = "msg_03"; body = 1 ∷ 2 ∷ []; enqueued_at = 11 }))
unfolding enqueue store_message over_limit insert_or_fail note_sender open_quota
    open_or_create_queue read_quota_row get_quota quota_schema insert_message signal_queue lookup
    insert messages_of
dequeue-enqueue_example =
    dequeue-enqueue no_faults no_faults 11000000 12000000 12 "msg_03" "app" "jobs" "app"
      (1 ∷ 2 ∷ []) (pos 0) no_files first_sent refl tt works

-- A namespace whose limit is reached refuses a message, and one without a limit does not.
over_quota :
    (enqueue no_faults 1
      (some "m")
      "app"
      "jobs"
      (1 ∷ 2 ∷ 3 ∷ 4 ∷ 5 ∷ 6 ∷ 7 ∷ 8 ∷ [])
      "app"
      two_jobs).1
    ≡ err quota_exceeded
unfolding enqueue store_message over_limit insert_or_fail note_sender open_quota
    open_or_create_queue read_quota_row get_quota quota_schema insert_message signal_queue lookup
    insert
over_quota = refl

missing_queue : (ack no_faults "none" "m" two_jobs).1 ≡ err queue_not_found
unfolding ack open_queue lookup
missing_queue = refl
