-- ===== src/Queue/Service.antt =====
-- The HTTP handlers of the queue service, svc_queue.go of cmd/morsel-ctrl-plane.
-- Kubernetes' TokenReview is a parameter, and so are the text functions of Go's library.
use morsel.Prelude.{
  ℕ, Bool, not, ◌&&◌, List, [], ◌∷◌, Option, none, some, String, Assoc, lookup, insert, str_eq,
  if◌then◌else◌, ℤ, pos, Result, ok, err,
}
use morsel.Queue.Files.{
  Faults, Error, queue_not_found, quota_exceeded, failed, Dir, M, create_queue, delete_queue,
  register_wait, wake,
}
use morsel.Queue.Local.{Message, enqueue, dequeue, ack, depth, set_quota, usage}
use morsel.Queue.Listing.{Info, list_queues}

pub record Review : Type 0 where
  pub authenticated : Bool
  pub username : String

pub record Request : Type 0 where
  pub authorization : String
  pub name : String
  pub id : String

-- The status with the body that the handler writes.
pub data Reply : Type 0 where
  status : ℕ → Reply
  failure : ℕ → String → Reply
  over_quota : ℕ → Reply
  message : Message → Reply
  pending : ℕ → Reply
  queues : List Info → Reply

-- The directories of the namespaces below the data directory.
abbrev pub Server : Type 0
Server = Assoc Dir

abbrev pub empty_dir : Dir
empty_dir = record { files = []; notifiers = [] }

abbrev pub dir_or_empty : Option Dir → Dir
dir_or_empty none = empty_dir
dir_or_empty (some d) = d

-- The directory in which a request works: its files are there if the name of the queue, which the
-- path gives unescaped and filepath.Join cleans, has no slash.
abbrev pub dir_of : Server → String → Dir
dir_of s ns = dir_or_empty (lookup ns s)

-- Run an operation of the namespace's queue and turn its result into a reply.
abbrev pub on_queue :
    {A : Type 0} → Server → String → M A → (Result Error A → Reply) → Server × Reply
on_queue s ns m reply = let (d, r) = m (dir_of s ns) in (insert ns d s, reply r)

abbrev pub internal_error : Reply
internal_error = failure 500 "internal_error"

abbrev pub not_found : Reply
not_found = failure 404 "queue_not_found"

abbrev pub unauthorized : Reply
unauthorized = failure 401 "unauthorized"

abbrev pub or_internal : {A : Type 0} → (A → Reply) → Result Error A → Reply
or_internal f (ok a) = f a
or_internal f (err x) = internal_error

abbrev pub or_not_found : {A : Type 0} → (A → Reply) → Result Error A → Reply
or_not_found f (ok a) = f a
or_not_found f (err queue_not_found) = not_found
or_not_found f (err x) = internal_error

-- `system:serviceaccount:<namespace>:<name>`.
abbrev pub namespace_of : List String → Option String
namespace_of (a ∷ b ∷ ns ∷ c ∷ []) =
    if str_eq a "system" && str_eq b "serviceaccount" then some ns else none
namespace_of _ = none

module _ (trim_bearer : String → String) (token_review : String → Option Review)
    (split_colons : String → List String) where
  abbrev reviewed : Option Review → Option String
  reviewed none = none
  reviewed (some r) = if r.authenticated then namespace_of (split_colons r.username) else none

  unfoldable pub identify : Request → Option String
  identify r =
      let tok = trim_bearer r.authorization in
      if str_eq tok "" then none else reviewed (token_review tok)

  -- Every handler for apps begins with the caller's namespace.
  abbrev pub for_caller : Request → Server → (String → Server × Reply) → Server × Reply
  for_caller r s go = elim (identify r) [ none ↦ (s, unauthorized) | some ns ↦ go ns ]

  unfoldable pub handle_create : Faults → Request → Server → Server × Reply
  handle_create f r s =
      for_caller r s λ ns. on_queue s ns (create_queue f r.name) (or_internal (λ _. status 200))

  unfoldable pub handle_delete : Faults → Request → Server → Server × Reply
  handle_delete f r s =
      for_caller r s λ ns. on_queue s ns (delete_queue f r.name) (or_not_found (λ _. status 204))

  unfoldable pub handle_list :
      Faults → (String → Faults) → ℕ → ℤ → Request → Server → Server × Reply
  handle_list g f now idle_after r s =
      for_caller r s λ ns. on_queue s ns (list_queues g f now idle_after) (or_internal queues)

  -- A refusal over the quota reports the usage, zero if it cannot be read.
  abbrev pub used_bytes : Result Error ℕ → ℕ
  used_bytes (ok n) = n
  used_bytes (err x) = 0

  abbrev pub enqueue_reply :
      Faults → Server → String → Dir → Result Error (Unit {0}) → Server × Reply
  enqueue_reply g s ns d (ok _) = (insert ns d s, status 202)
  enqueue_reply g s ns d (err quota_exceeded) =
      let (d', used) = usage g d in (insert ns d' s, over_quota (used_bytes used))
  enqueue_reply g s ns d (err queue_not_found) = (insert ns d s, not_found)
  enqueue_reply g s ns d (err (failed x)) = (insert ns d s, internal_error)

  -- The caller is both the owner of the queue and the sender of the message.
  unfoldable pub handle_enqueue :
      Faults → Faults → ℕ → Option String → List ℕ → Request → Server → Server × Reply
  handle_enqueue f g now i body r s = for_caller r s λ sender_ns.
      let (d, result) = enqueue f now i sender_ns r.name body sender_ns (dir_of s sender_ns) in
      enqueue_reply g s sender_ns d result

  abbrev pub found_reply : Option Message → Reply
  found_reply none = status 204
  found_reply (some m) = message m

  -- `missed` is what the others do between the first look and the wait, `meanwhile` what they do
  -- during the wait, which ends by a signal or by the timeout.
  abbrev pub long_poll :
      Faults
      → ℕ
      → ℕ
      → (Server → Server)
      → (Server → Server)
      → String
      → String
      → Server × Result Error (Option Message)
      → Server × Reply
  long_poll g now db_now missed meanwhile ns name (s, err x) = (s, internal_error)
  long_poll g now db_now missed meanwhile ns name (s, ok (some m)) = (s, message m)
  long_poll g now db_now missed meanwhile ns name (s, ok none) =
      let s1 = missed s in
      let s2 = meanwhile (insert ns (register_wait name (dir_of s1 ns)) s1) in
      let s3 = insert ns (wake name (dir_of s2 ns)).0 s2 in
      on_queue s3 ns (dequeue g now db_now name (pos 0)) (or_internal found_reply)

  unfoldable pub handle_dequeue :
      Faults
      → ℕ
      → ℕ
      → Faults
      → ℕ
      → ℕ
      → (Server → Server)
      → (Server → Server)
      → Request
      → Server
      → Server × Reply
  handle_dequeue f now db_now g later db_later missed meanwhile r s = for_caller r s λ ns.
      let (d, result) = dequeue f now db_now r.name (pos 0) (dir_of s ns) in
      long_poll g later db_later missed meanwhile ns r.name (insert ns d s, result)

  unfoldable pub handle_ack : Faults → Request → Server → Server × Reply
  handle_ack f r s =
      for_caller r s λ ns. on_queue s ns (ack f r.name r.id) (or_not_found (λ _. status 204))

  unfoldable pub handle_depth : Faults → Request → Server → Server × Reply
  handle_depth f r s = for_caller r s λ ns. on_queue s ns (depth f r.name) (or_not_found pending)

  -- The control plane's calls carry the internal token, and name the app in the path.
  unfoldable pub check_internal_token : String → Request → Bool
  check_internal_token internal r =
      let tok = trim_bearer r.authorization in not (str_eq tok "") && str_eq tok internal

  -- `none` is a body that does not decode.
  abbrev pub set_decoded : Faults → String → Server → Option ℤ → Server × Reply
  set_decoded f ns s none = (s, failure 400 "bad_request")
  set_decoded f ns s (some limit) =
      on_queue s ns (set_quota f limit) (or_internal (λ _. status 200))

  -- `app_ns` is the namespace and the app of the path with `--` between them.
  unfoldable pub handle_set_quota :
      Faults → String → String → Option ℤ → Request → Server → Server × Reply
  handle_set_quota f internal app_ns body r s =
      if check_internal_token internal r then set_decoded f app_ns s body else (s, unauthorized)

  unfoldable pub handle_idle_status :
      Faults → (String → Faults) → String → String → ℕ → ℤ → Request → Server → Server × Reply
  handle_idle_status g f internal app_ns now idle_after r s =
      if check_internal_token internal r
      then on_queue s app_ns (list_queues g f now idle_after) (or_internal queues)
      else (s, unauthorized)
