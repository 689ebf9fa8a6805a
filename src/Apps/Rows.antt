-- ===== src/Apps/Rows.antt =====
-- The statements on apps and operations that the requests on an app use: UpsertApp, GetApp,
-- UpdateAppImages and MarkAppDeletionPending of internal/db/queries/apps.sql.go, CreateOperation and
-- GetOperation of operations.sql.go, of cmd/morsel-ctrl-plane.
use morsel.Prelude.{
  ℕ, Bool, true, false, ◌&&◌, List, [], ◌∷◌, ◌++◌, Option, none, some, String, str_eq,
  if◌then◌else◌, find, any, ok, err,
}
use morsel.Apps.Models.{
  App, Operation, Faults, M, upsert_row, create_op, update_images, mark_pending, operation_exists,
}
use morsel.Apps.Tables.{optional, exec, change_app}

abbrev pub has_key : String → String → App → Bool
has_key slug name a = str_eq a.repo_slug slug && str_eq a.name name

unfoldable pub get_app : String → String → List App → Option App
get_app slug name apps = find (has_key slug name) apps

-- What the request says of the app.
pub record AppSpec : Type 0 where
  pub app_type : String
  pub namespace : String
  pub image : String
  pub idle_after : String

-- The row that a request makes of one that is there. The image that was current becomes the one to
-- go back to.
unfoldable pub revise : ℕ → AppSpec → App → App
revise now spec a = record a {
  app_type = spec.app_type;
  namespace = optional spec.namespace;
  image_last_healthy = a.image_current;
  image_current = optional spec.image;
  idle_after = optional spec.idle_after;
  status = "pending";
  deletion_pending = false;
  deleted_at = none;
  updated_at = now;
}

abbrev pub revise_app : String → String → (App → App) → List App → List App
revise_app slug name change [] = []
revise_app slug name change (a ∷ rest) =
    (if has_key slug name a then change a else a) ∷ revise_app slug name change rest

unfoldable pub new_app : ℕ → ℕ → String → String → AppSpec → App
new_app id now slug name spec = record {
  id = id;
  repo_slug = slug;
  name = name;
  app_type = spec.app_type;
  status = "pending";
  namespace = optional spec.namespace;
  image_current = optional spec.image;
  image_last_healthy = none;
  deletion_pending = false;
  deleted_at = none;
  updated_at = now;
  hibernated = false;
  hibernated_at = none;
  hibernation_reason = none;
  last_active_at = none;
  idle_after = optional spec.idle_after;
}

-- The database draws the id of a new row.
unfoldable pub upsert_app : Faults → ℕ → ℕ → String → String → AppSpec → M App
unfolding get_app revise new_app
upsert_app f id now slug name spec w =
    if f upsert_row then (w, err upsert_row) else elim (get_app slug name w.apps) [
      | some a ↦ (
        record w {
          store = record w.store { apps = revise_app slug name (revise now spec) w.apps };
        },
        ok (revise now spec a),
      )
      | none ↦
          let a = new_app id now slug name spec in
          (record w { store = record w.store { apps = w.apps ++ a ∷ [] } }, ok a)
    ]

unfoldable pub update_app_images : Faults → ℕ → ℕ → String → String → M (Unit {0})
update_app_images f now id current healthy = exec f update_images (
    change_app id (λ a. record a {
      image_current = optional current;
      image_last_healthy = optional healthy;
      updated_at = now;
    }))

unfoldable pub mark_app_deletion_pending : Faults → ℕ → ℕ → M (Unit {0})
mark_app_deletion_pending f now id = exec f mark_pending (
    change_app id
      (λ a. record a { deletion_pending = true; deleted_at = some now; updated_at = now }))

abbrev pub has_op : String → Operation → Bool
has_op id o = str_eq o.id id

unfoldable pub get_operation : String → List Operation → Option Operation
get_operation id ops = find (has_op id) ops

unfoldable pub create_operation : Faults → String → String → String → String → M (Unit {0})
create_operation f id slug name kind w =
    if f create_op
    then (w, err create_op)
    else if any (has_op id) w.operations
    then (w, err operation_exists)
    else (
      record w {
        store = record w.store {
          operations =
              w.operations
              ++ record {
                id = id;
                repo_slug = slug;
                app_name = name;
                kind = kind;
                status = "pending";
                error = none;
              }
                ∷ [];
        };
      },
      ok tt,
    )
