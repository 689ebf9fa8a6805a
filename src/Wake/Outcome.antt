-- ===== src/Wake/Outcome.antt =====
-- What a request to the wake endpoint does, on every branch.
use morsel.Prelude.{
  ℕ, ◌≡◌, refl, true, false, not, Option, none, some, String, str_eq, if_split, eq_iff, arith,
}
use morsel.Apps.Models.{App, BudgetFlags, Faults}
use morsel.Apps.Hibernation.{namespace_or_empty}
use morsel.Apps.Tables.{list_all_apps, update_last_active_at}
use morsel.Wake.Handler.{
  Server, WakeRequest, WakeReply, wake_ack, error_reply, retry_after, Outside, start_wake,
  wake_matched, wake_host, find_host, internal_wake_handler, is_budget_blocked, or_else,
}

-- The activity of the app is noted, where the table takes it.
unfoldable pub touch : Faults → ℕ → App → Server → Server
unfolding update_last_active_at
touch f now a s = record s { world = (update_last_active_at f now a.id s.world).0 }

-- The request bears a good token, and asks for this app.
pub record Asks (o : Outside) (r : WakeRequest) (s : Server) (a : App) : Type 0 where
  pub posted : r.method ≡ "POST"
  pub verified : o.verify_wake_token (o.trim_bearer r.authorization) ≡ true
  pub found :
      find_host o.base_domain
        (or_else (o.split_host_port r.host) r.host)
        (list_all_apps s.world.apps)
      ≡ some a

pub data Outcome (f : Faults) (now period_end : ℕ) (cfg : BudgetFlags) (o : Outside)
    (r : WakeRequest) (s : Server) : Server → WakeReply → Type 0 where
  refused : (n : ℕ) (code : String) → Outcome f now period_end cfg o r s s (error_reply n code)
  held :
      (a : App)
      → Asks o r s a
      → is_budget_blocked f now cfg a.repo_slug a.name (touch f now a s).world ≡ true
      → Outcome f now period_end cfg o r s (touch f now a s) (retry_after period_end)
  accepted :
      (a : App)
      → Asks o r s a
      → is_budget_blocked f now cfg a.repo_slug a.name (touch f now a s).world ≡ false
      → Outcome f now period_end cfg o r s
          (start_wake a (namespace_or_empty a.namespace) (touch f now a s))
          (wake_ack a.name)

module _ (f : Faults) (now period_end : ℕ) (cfg : BudgetFlags) (o : Outside) (r : WakeRequest)
    (s : Server) where
  abbrev Ends : Server × WakeReply → Type 0
  Ends p = Outcome f now period_end cfg o r s p.0 p.1

  wake_matched-Ends : (a : App) → Asks o r s a → Ends (wake_matched f now period_end cfg o a s)
  unfolding wake_matched touch
  wake_matched-Ends a asked = if_split Ends _ _ _ (held a asked) (accepted a asked)

  wake_host-Ends :
      r.method ≡ "POST"
      → o.verify_wake_token (o.trim_bearer r.authorization) ≡ true
      → Ends (wake_host f now period_end cfg o (or_else (o.split_host_port r.host) r.host) s)
  unfolding wake_host
  wake_host-Ends posted verified =
      if_split Ends _ _ _ (λ _. refused 500 "internal_error") (λ _. go _ refl)
    where
      go :
          (found : Option App)
          → find_host o.base_domain
              (or_else (o.split_host_port r.host) r.host)
              (list_all_apps s.world.apps)
            ≡ found
          → Ends (elim found [
            | none ↦ (s, error_reply 404 "not_found")
            | some a ↦ wake_matched f now period_end cfg o a s
          ])
      go none e = refused 404 "not_found"
      go (some a) e =
          wake_matched-Ends a (record { posted = posted; verified = verified; found = e })

  pub handler-Outcome :
      Outcome f now period_end cfg o r s
        (internal_wake_handler f now period_end cfg o r s).0
        (internal_wake_handler f now period_end cfg o r s).1
  unfolding internal_wake_handler
  handler-Outcome =
      let token = o.trim_bearer r.authorization in
      if_split Ends (not (str_eq r.method "POST")) _ _ (λ _. refused 405 "method_not_allowed")
        (λ posted.
          if_split Ends (str_eq token "") _ _ (λ _. refused 401 "unauthorized")
            (λ _.
              if_split Ends (not (o.verify_wake_token token)) _ _ (λ _. refused 401 "unauthorized")
                (λ verified.
                  if_split Ends (str_eq r.host "") _ _ (λ _. refused 400 "invalid_request")
                    (λ _.
                      wake_host-Ends (ground (arith, posted, eq_iff r.method "POST"))
                        (ground (arith, verified))))))
