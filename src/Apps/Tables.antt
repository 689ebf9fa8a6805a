-- ===== src/Apps/Tables.antt =====
-- The statements on apps, operations, scale events and exemptions: internal/db/queries/*.sql.go
-- and the methods of internal/store/store.go that call them, of cmd/morsel-ctrl-plane.
use morsel.Prelude.{
  ℕ, Bool, true, false, not, ◌&&◌, ◌||◌, List, [], ◌∷◌, ◌++◌, Option, none, some, String, str_eq,
  if◌then◌else◌, ◌==◌, ltb, leb, select, find, any, ok, err,
}
use morsel.Apps.Models.{
  App, ScaleEvent, Operation, Exemption, Store, Fault, Faults, M, start_op, fail_op, succeed_op,
  record_event, set_hibernated, set_awake, update_status, touch_active,
}

abbrev pub optional : String → Option String
optional s = if str_eq s "" then none else some s

-- A write that the database refuses leaves the tables as they were.
abbrev pub exec : Faults → Fault → (Store → Store) → M (Unit {0})
exec f point change w =
    if f point then (w, err point) else (record w { store = change w.store }, ok tt)

abbrev pub update_app : ℕ → (App → App) → List App → List App
update_app id change [] = []
update_app id change (a ∷ rest) = (if a.id == id then change a else a) ∷ update_app id change rest

abbrev pub change_app : ℕ → (App → App) → Store → Store
change_app id change s = record s { apps = update_app id change s.apps }

unfoldable pub update_app_status : Faults → ℕ → ℕ → String → M (Unit {0})
update_app_status f now id status =
    exec f update_status (change_app id (λ a. record a { status = status; updated_at = now }))

unfoldable pub set_app_hibernated : Faults → ℕ → ℕ → String → M (Unit {0})
set_app_hibernated f now id reason = exec f set_hibernated (
    change_app id (λ a. record a {
      hibernated = true;
      hibernated_at = some now;
      hibernation_reason = optional reason;
      status = "hibernated";
      updated_at = now;
    }))

unfoldable pub set_app_awake : Faults → ℕ → ℕ → M (Unit {0})
set_app_awake f now id = exec f set_awake (
    change_app id (λ a. record a {
      hibernated = false;
      hibernated_at = none;
      hibernation_reason = none;
      status = "running";
      updated_at = now;
    }))

unfoldable pub update_last_active_at : Faults → ℕ → ℕ → M (Unit {0})
update_last_active_at f now id =
    exec f touch_active
      (change_app id (λ a. record a { last_active_at = some now; updated_at = now }))

abbrev pub is_namespace : String → Option String → Bool
is_namespace ns none = false
is_namespace ns (some n) = str_eq n ns

-- The first app of that namespace that is not being deleted.
unfoldable pub get_app_by_namespace : String → List App → Option App
get_app_by_namespace ns apps =
    find (λ a. is_namespace ns a.namespace && not a.deletion_pending) apps

-- All apps that are not being deleted; the order by repo and name is left out.
unfoldable pub list_all_apps : List App → List App
list_all_apps apps = select (λ a. not a.deletion_pending) apps

abbrev pub set_op : String → String → Option String → List Operation → List Operation
set_op id status error [] = []
set_op id status error (o ∷ rest) =
    (if str_eq o.id id then record o { status = status; error = error } else o)
    ∷ set_op id status error rest

abbrev pub change_op : String → String → Option String → Store → Store
change_op id status error s = record s { operations = set_op id status error s.operations }

unfoldable pub start_operation : Faults → String → M (Unit {0})
start_operation f id = exec f start_op (change_op id "running" none)

unfoldable pub succeed_operation : Faults → String → M (Unit {0})
succeed_operation f id = exec f succeed_op (change_op id "succeeded" none)

unfoldable pub fail_operation : Faults → String → String → M (Unit {0})
fail_operation f id message = exec f fail_op (change_op id "failed" (some message))

unfoldable pub record_scale_event : Faults → ℕ → String → String → String → M (Unit {0})
record_scale_event f now ns app event = exec f record_event (λ s. record s {
  scale_events =
      s.scale_events ++ record { namespace = ns; app = app; event = event; occurred_at = now } ∷ [];
})

-- The events of one app since a time, in the order of their times, which is that of the table.
unfoldable pub list_scale_events_since : String → String → ℕ → List ScaleEvent → List ScaleEvent
list_scale_events_since ns app since events =
    select (λ e. str_eq e.namespace ns && str_eq e.app app && leb since e.occurred_at) events

abbrev pub is_current : ℕ → Option ℕ → Bool
is_current now none = true
is_current now (some t) = ltb now t

unfoldable pub exempts : ℕ → String → String → Exemption → Bool
exempts now slug app e =
    str_eq e.repo_slug slug
    && (str_eq e.kind "repo" || (str_eq e.kind "app" && str_eq e.app_name app))
    && is_current now e.expires_at

unfoldable pub is_app_exempt : ℕ → String → String → List Exemption → Bool
unfolding exempts
is_app_exempt now slug app table = any (exempts now slug app) table

abbrev pub has_expired : ℕ → Option ℕ → Bool
has_expired now none = false
has_expired now (some t) = leb t now

unfoldable pub expire_period_exemptions : ℕ → List Exemption → List Exemption
expire_period_exemptions now table =
    select (λ e. not (str_eq e.exemption_type "period" && has_expired now e.expires_at)) table

abbrev pub same_key : Exemption → Exemption → Bool
same_key a b =
    str_eq a.kind b.kind
    && str_eq a.repo_slug b.repo_slug
    && str_eq a.app_name b.app_name
    && str_eq a.exemption_type b.exemption_type

-- On the table's key an exemption replaces the expiry of the one that is there.
unfoldable pub upsert_exemption : Exemption → List Exemption → List Exemption
upsert_exemption e [] = e ∷ []
upsert_exemption e (x ∷ rest) =
    let more = upsert_exemption e rest in
    if same_key x e then record x { expires_at = e.expires_at } ∷ rest else x ∷ more

unfoldable pub add_app_exemption : String → String → List Exemption → List Exemption
unfolding upsert_exemption
add_app_exemption slug app = upsert_exemption (record {
  kind = "app";
  repo_slug = slug;
  app_name = app;
  exemption_type = "explicit";
  expires_at = none;
})

unfoldable pub add_repo_exemption : String → List Exemption → List Exemption
unfolding upsert_exemption
add_repo_exemption slug = upsert_exemption (record {
  kind = "repo";
  repo_slug = slug;
  app_name = "";
  exemption_type = "explicit";
  expires_at = none;
})

unfoldable pub add_period_exemption : String → String → ℕ → List Exemption → List Exemption
unfolding upsert_exemption
add_period_exemption slug app period_end = upsert_exemption (record {
  kind = "app";
  repo_slug = slug;
  app_name = app;
  exemption_type = "period";
  expires_at = some period_end;
})

unfoldable pub remove_app_exemption : String → String → List Exemption → List Exemption
remove_app_exemption slug app table =
    select
      (λ e. not (
        str_eq e.kind "app"
        && str_eq e.repo_slug slug
        && str_eq e.app_name app
        && str_eq e.exemption_type "explicit"))
      table

unfoldable pub remove_repo_exemption : String → List Exemption → List Exemption
remove_repo_exemption slug table =
    select
      (λ e.
        not (str_eq e.kind "repo" && str_eq e.repo_slug slug && str_eq e.exemption_type "explicit"))
      table
