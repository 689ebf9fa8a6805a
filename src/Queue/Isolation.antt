-- ===== src/Queue/Isolation.antt =====
-- The handlers of svc_queue.go and the caller's namespace.
use morsel.Prelude.{
  false, ℕ, ◌≡◌, refl, ap, ◌∙◌, ◌≢◌, List, Option, none, some, String, arith, eq_iff, lookup,
  insert, lookup-insert, Option-cases, inl, inr, ℤ, Result, ok, err, pos,
}
use morsel.Queue.Files.{
  Faults, Dir, Error, failed, queue_not_found, quota_exceeded, register_wait, wake, create_queue,
  delete_queue,
}
use morsel.Queue.Local.{Message, enqueue, usage, dequeue, ack, depth}
use morsel.Queue.Listing.{list_queues}
use morsel.Queue.Service.{
  Review, Request, Reply, Server, dir_of, identify, unauthorized, handle_create, handle_delete,
  handle_list, handle_enqueue, handle_dequeue, handle_ack, handle_depth, enqueue_reply, long_poll,
}
use morsel.Names.Slugs.{has_slash}

-- A request of an app, with the faults, times and random id that it meets. Nothing else happens
-- while a dequeue waits.
pub data AppCall : Type 0 where
  creates deletes acks depths : Faults → AppCall
  lists : Faults → (String → Faults) → ℕ → ℤ → AppCall
  sends : Faults → Faults → ℕ → Option String → List ℕ → AppCall
  receives : Faults → ℕ → ℕ → Faults → ℕ → ℕ → AppCall

module _ (trim_bearer : String → String) (token_review : String → Option Review)
    (split_colons : String → List String) where
  unfoldable pub answer : AppCall → Request → Server → Server × Reply
  unfolding handle_create handle_delete handle_ack handle_depth handle_list handle_enqueue
      handle_dequeue
  answer (creates f) = handle_create trim_bearer token_review split_colons f
  answer (deletes f) = handle_delete trim_bearer token_review split_colons f
  answer (acks f) = handle_ack trim_bearer token_review split_colons f
  answer (depths f) = handle_depth trim_bearer token_review split_colons f
  answer (lists g f now idle_after) =
      handle_list trim_bearer token_review split_colons g f now idle_after
  answer (sends f g now i body) =
      handle_enqueue trim_bearer token_review split_colons f g now i body
  answer (receives f now db_now g later db_later) =
      handle_dequeue trim_bearer token_review split_colons f now db_now g later db_later (λ s. s)
        (λ s. s)

  -- Without a token that the review accepts, every request is refused and nothing changes.
  pub answer-unauthorized :
      (c : AppCall) (r : Request) (s : Server)
      → identify trim_bearer token_review split_colons r ≡ none
      → answer c r s ≡ (s, unauthorized)
  unfolding answer
  answer-unauthorized (creates f) r s e = ground (arith, e)
  answer-unauthorized (deletes f) r s e = ground (arith, e)
  answer-unauthorized (acks f) r s e = ground (arith, e)
  answer-unauthorized (depths f) r s e = ground (arith, e)
  answer-unauthorized (lists g f now idle_after) r s e = ground (arith, e)
  answer-unauthorized (sends f g now i body) r s e = ground (arith, e)
  answer-unauthorized (receives f now db_now g later db_later) r s e = ground (arith, e)

  insert-other :
      (ns other : String) (d : Dir) (s : Server)
      → ns ≢ other
      → lookup other (insert ns d s) ≡ lookup other s
  insert-other ns other d s ne = ground (arith, lookup-insert ns other d s, eq_iff ns other)

  enqueue_reply-other :
      (g : Faults) (s : Server) (ns other : String) (d : Dir) (r : Result Error (Unit {0}))
      → ns ≢ other
      → lookup other (enqueue_reply trim_bearer token_review split_colons g s ns d r).0
        ≡ lookup other s
  enqueue_reply-other g s ns other d (ok a) ne = insert-other ns other d s ne
  enqueue_reply-other g s ns other d (err quota_exceeded) ne =
      insert-other ns other (usage g d).0 s ne
  enqueue_reply-other g s ns other d (err queue_not_found) ne = insert-other ns other d s ne
  enqueue_reply-other g s ns other d (err (failed x)) ne = insert-other ns other d s ne

  long_poll-other :
      (g : Faults) (later db_later : ℕ) (ns other name : String) (s : Server)
      (r : Result Error (Option Message))
      → ns ≢ other
      → lookup other
          (long_poll trim_bearer token_review split_colons g later db_later
            (λ x. x)
            (λ x. x)
            ns
            name
            (s, r)).0
        ≡ lookup other s
  long_poll-other g later db_later ns other name s (err x) ne = refl
  long_poll-other g later db_later ns other name s (ok (some m)) ne = refl
  long_poll-other g later db_later ns other name s (ok none) ne =
      let s2 = insert ns (register_wait name (dir_of s ns)) s in
      let s3 = insert ns (wake name (dir_of s2 ns)).0 s2 in
      insert-other ns other (dequeue g later db_later name (pos 0) (dir_of s3 ns)).0 s3 ne
      ∙ insert-other ns other (wake name (dir_of s2 ns)).0 s2 ne
      ∙ insert-other ns other (register_wait name (dir_of s ns)) s ne

  answer-other :
      (c : AppCall) (r : Request) (s : Server) (ns other : String)
      → identify trim_bearer token_review split_colons r ≡ some ns
      → ns ≢ other
      → lookup other (answer c r s).0 ≡ lookup other s
  unfolding answer
  answer-other (creates f) r s ns other e ne =
      ground (arith, e, insert-other ns other (create_queue f r.name (dir_of s ns)).0 s ne)
  answer-other (deletes f) r s ns other e ne =
      ground (arith, e, insert-other ns other (delete_queue f r.name (dir_of s ns)).0 s ne)
  answer-other (acks f) r s ns other e ne =
      ground (arith, e, insert-other ns other (ack f r.name r.id (dir_of s ns)).0 s ne)
  answer-other (depths f) r s ns other e ne =
      ground (arith, e, insert-other ns other (depth f r.name (dir_of s ns)).0 s ne)
  answer-other (lists g f now idle_after) r s ns other e ne =
      ground (arith, e, insert-other ns other (list_queues g f now idle_after (dir_of s ns)).0 s ne)
  answer-other (sends f g now i body) r s ns other e ne = ground (
    arith,
    e,
    enqueue_reply-other g s ns other (enqueue f now i ns r.name body ns (dir_of s ns)).0
        (enqueue f now i ns r.name body ns (dir_of s ns)).1 ne,
  )
  answer-other (receives f now db_now g later db_later) r s ns other e ne =
      let (d, result) = dequeue f now db_now r.name (pos 0) (dir_of s ns) in
      ground (
        arith,
        e,
        long_poll-other g later db_later ns other r.name (insert ns d s) result ne,
        insert-other ns other d s ne,
      )

  -- A request of an app to the queue service whose queue name has no slash, so that its files are
  -- in the namespace's directory, changes no directory of a namespace other than the one that the
  -- token review names for it, on every branch; with a token that names none it changes nothing.
  -- Nothing else happens while a dequeue waits.
  pub answer-isolated :
      (c : AppCall) (r : Request) (s : Server) (other : String)
      → has_slash r.name ≡ false
      → identify trim_bearer token_review split_colons r ≢ some other
      → lookup other (answer c r s).0 ≡ lookup other s
  answer-isolated c r s other plain ne =
      elim (Option-cases (identify trim_bearer token_review split_colons r)) [
        | inl e ↦ ap (λ (p : Server × Reply). lookup other p.0) (answer-unauthorized c r s e)
        | inr (ns, e) ↦ answer-other c r s ns other e (λ same. ne (e ∙ ap some same))
      ]
