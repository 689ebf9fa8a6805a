-- ===== src/Wake/Handler.antt =====
-- internalWakeHandler and isBudgetBlocked of internal/api/mux.go, of cmd/morsel-ctrl-plane. A wake
-- runs in the background after its request; the map of the handler holds the namespaces of those that run.
use morsel.Prelude.{
  ℕ, Bool, false, not, ◌&&◌, ◌||◌, List, [], ◌∷◌, ◌++◌, Option, none, some, String, str_eq,
  if◌then◌else◌, find, any, select,
}
use morsel.Apps.Models.{App, BudgetFlags, World, Faults, list_apps, read_config, check_exempt}
use morsel.Apps.Tables.{list_all_apps, update_last_active_at, is_app_exempt}
use morsel.Apps.Lifecycle.{attempt, proxy_wake_app}
use morsel.Apps.Hibernation.{namespace_or_empty}
use morsel.Names.Slugs.{app_hostname, repo_name}

pub record WakeRequest : Type 0 where
  pub method : String
  pub authorization : String
  pub host : String

-- The status and code of a refusal, the end of the billing period, or the name of the app.
pub data WakeReply : Type 0 where
  error_reply : ℕ → String → WakeReply
  retry_after : ℕ → WakeReply
  wake_ack : String → WakeReply

-- What the handler calls outside: strings.TrimPrefix, the review of the token, net.SplitHostPort, and the platform.
pub record Outside : Type 0 where
  pub trim_bearer : String → String
  pub verify_wake_token : String → Bool
  pub split_host_port : String → Option String
  pub base_domain : String

pub record WakeTask : Type 0 where
  pub app_id : ℕ
  pub app_type : String
  pub namespace : String

pub record Server : Type 0 where
  pub world : World
  pub waking_now : List String
  pub tasks : List WakeTask

unfoldable pub is_budget_blocked : Faults → ℕ → BudgetFlags → String → String → World → Bool
unfolding is_app_exempt
is_budget_blocked f now cfg slug name w =
    if f read_config || not (cfg.budget_soft_limit_active || cfg.budget_hard_limit_active)
    then false
    else not (not (f check_exempt) && is_app_exempt now slug name w.exemptions)

abbrev pub serves_host : String → String → App → Bool
serves_host domain host a = elim a.namespace [
  | none ↦ false
  | some ns ↦ str_eq (app_hostname a.name (repo_name a.repo_slug) domain) host
]

unfoldable pub find_host : String → String → List App → Option App
unfolding app_hostname repo_name
find_host domain host apps = find (serves_host domain host) apps

abbrev pub or_else : Option String → String → String
or_else none s = s
or_else (some t) s = t

-- LoadOrStore: a namespace that is in the map has its wake running.
unfoldable pub start_wake : App → String → Server → Server
start_wake a ns s = if any (str_eq ns) s.waking_now then s else record s {
  waking_now = ns ∷ s.waking_now;
  tasks = s.tasks ++ record { app_id = a.id; app_type = a.app_type; namespace = ns } ∷ [];
}

-- The goroutine's end: the wake has run, with or without an error, and its namespace leaves the map.
unfoldable pub end_wake : Faults → ℕ → List WakeTask → WakeTask → List WakeTask → Server → Server
unfolding proxy_wake_app
end_wake f now front t back s = record {
  world = (proxy_wake_app f now t.app_id t.app_type t.namespace s.world).0;
  waking_now = select (λ ns. not (str_eq t.namespace ns)) s.waking_now;
  tasks = front ++ back;
}

module _ (f : Faults) (now period_end : ℕ) (cfg : BudgetFlags) (o : Outside) where
  unfoldable pub wake_matched : App → Server → Server × WakeReply
  unfolding update_last_active_at is_budget_blocked start_wake
  wake_matched a s =
      let s1 = record s { world = attempt (update_last_active_at f now a.id) s.world } in
      if is_budget_blocked f now cfg a.repo_slug a.name s1.world
      then (s1, retry_after period_end)
      else (start_wake a (namespace_or_empty a.namespace) s1, wake_ack a.name)

  unfoldable pub wake_host : String → Server → Server × WakeReply
  unfolding find_host list_all_apps wake_matched
  wake_host host s =
      if f list_apps
      then (s, error_reply 500 "internal_error")
      else elim (find_host o.base_domain host (list_all_apps s.world.apps)) [
        | none ↦ (s, error_reply 404 "not_found")
        | some a ↦ wake_matched a s
      ]

  unfoldable pub internal_wake_handler : WakeRequest → Server → Server × WakeReply
  unfolding wake_host
  internal_wake_handler r s =
      let token = o.trim_bearer r.authorization in
      if not (str_eq r.method "POST")
      then (s, error_reply 405 "method_not_allowed")
      else if str_eq token ""
      then (s, error_reply 401 "unauthorized")
      else if not (o.verify_wake_token token)
      then (s, error_reply 401 "unauthorized")
      else if str_eq r.host ""
      then (s, error_reply 400 "invalid_request")
      else wake_host (or_else (o.split_host_port r.host) r.host) s
