-- ===== src/Apps/Requests.antt =====
-- The requests on an app: DeleteApp, HibernateApp, WakeApp, GetOperation and the check of the budget
-- of internal/api/handler/apps.go, of cmd/morsel-ctrl-plane. A goroutine runs after its request.
use morsel.Prelude.{
  ℕ, Bool, true, false, not, ◌||◌, Option, none, some, String, str_eq, if◌then◌else◌, ok, err, pure,
  raise, ◌>>◌, ◌>>=◌,
}
use morsel.Auth.Claims.{Claims, operator}
use morsel.Auth.Access.{check_repo_access, repo_slug}
use morsel.Apps.Models.{
  BudgetFlags, App, Operation, World, Fault, Faults, M, read_app, app_not_found, unauthorized,
  over_budget, read_config, add_exemption, check_exempt,
}
use morsel.Apps.Tables.{is_app_exempt, add_period_exemption}
use morsel.Apps.Lifecycle.{hibernate_app, wake_app, delete_app}
use morsel.Apps.Hibernation.{namespace_or_empty}
use morsel.Apps.Rows.{get_app, get_operation, mark_app_deletion_pending, create_operation}
use morsel.Apps.Deploy.{draw}

abbrev pub authorize : Option Claims → String → String → M (Unit {0})
authorize claims org repo w = elim (check_repo_access claims org repo) [
  | err refusal ↦ (w, err unauthorized)
  | ok _ ↦ (w, ok tt)
]

abbrev pub find_app : Faults → String → String → M App
find_app f slug name w =
    if f read_app
    then (w, err read_app)
    else elim (get_app slug name w.apps) [ none ↦ (w, err app_not_found) | some a ↦ (w, ok a) ]

abbrev pub new_operation : Faults → Option String → String → String → String → M String
new_operation f op slug name kind =
    draw op >>= λ id. create_operation f id slug name kind >> pure id

abbrev pub is_operator : Option Claims → Bool
is_operator none = false
is_operator (some c) = str_eq c.role operator

-- Whether the caller is held back. An operator that is not exempts the app for the rest of the period.
unfoldable pub check_budget_and_maybe_exempt :
    Faults → ℕ → ℕ → BudgetFlags → Option Claims → String → String → M Bool
unfolding is_app_exempt add_period_exemption
check_budget_and_maybe_exempt f now period_end cfg claims slug name w =
    if f read_config
    then (w, err read_config)
    else if not (cfg.budget_soft_limit_active || cfg.budget_hard_limit_active)
    then (w, ok false)
    else if f check_exempt
    then (w, err check_exempt)
    else if is_app_exempt now slug name w.exemptions
    then (w, ok false)
    else if is_operator claims
    then (if f add_exemption then (w, err add_exemption) else (
      record w {
        store = record w.store {
          exemptions = add_period_exemption slug name period_end w.exemptions;
        };
      },
      ok false,
    ))
    else (w, ok true)

-- The operation is read by its id alone.
unfoldable pub get_operation_request :
    Faults → Option Claims → String → String → String → M Operation
unfolding get_operation check_repo_access
get_operation_request f claims org repo id = authorize claims org repo >> λ w.
    elim (get_operation id w.operations) [ none ↦ (w, err app_not_found) | some o ↦ (w, ok o) ]

module _ (f : Faults) (error : Fault → String) (now : ℕ) where
  abbrev pub then_run : (String → World → World) → M String → M String
  then_run run m w = elim (m w).1 [ err e ↦ ((m w).0, err e) | ok op ↦ (run op (m w).0, ok op) ]

  unfoldable pub delete_request :
      (String → M (Unit {0}))
      → Option Claims
      → String
      → String
      → String
      → String
      → Option String
      → M String
  unfolding check_repo_access repo_slug get_app mark_app_deletion_pending create_operation
      delete_app
  delete_request delete claims org repo name ns op =
      let slug = repo_slug org repo in
      authorize claims org repo >> find_app f slug name >>= λ a.
      mark_app_deletion_pending f now a.id
      >> then_run (λ id. delete_app f error now delete id a.id ns)
          (new_operation f op slug name "delete")

  unfoldable pub hibernate_request :
      Option Claims → String → String → String → Option String → M String
  unfolding check_repo_access repo_slug get_app create_operation hibernate_app
  hibernate_request claims org repo name op =
      let slug = repo_slug org repo in
      authorize claims org repo >> find_app f slug name >>= λ a.
      then_run
        (λ id. hibernate_app f error now id a.id a.app_type name (namespace_or_empty a.namespace))
        (new_operation f op slug name "hibernate")

  abbrev pub unless_blocked : Bool → M (Unit {0})
  unless_blocked b = if b then raise over_budget else pure tt

  unfoldable pub wake_request :
      ℕ → BudgetFlags → Option Claims → String → String → String → Option String → M String
  unfolding check_repo_access repo_slug get_app check_budget_and_maybe_exempt create_operation
      wake_app
  wake_request period_end cfg claims org repo name op =
      let slug = repo_slug org repo in
      authorize claims org repo >> find_app f slug name >>= λ a.
      check_budget_and_maybe_exempt f now period_end cfg claims slug name
      >>= unless_blocked
      >> then_run
          (λ id. wake_app f error now id a.id a.app_type name (namespace_or_empty a.namespace))
          (new_operation f op slug name "wake")
