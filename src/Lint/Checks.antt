-- ===== src/Lint/Checks.antt =====
-- The checks of one file: lintFile, semanticDiags and leafErrors of cmd/morsel/internal/lint/lint.go.
use morsel.Prelude.{
  Bool, true, false, not, List, [], ◌∷◌, ◌++◌, map, Option, none, some, String, str_eq,
  if◌then◌else◌, ok, err,
}
use morsel.Lint.Files.{
  error, warning, Message, text, invalid_json, Diagnostic, File, MorselFile, Persistence,
  HealthCheck, ValidationError, validation_error, Causes, no_cause, cause, Validation, valid,
  invalid, failed, Json,
}

unfoldable mutual
  -- The messages of the errors that nothing caused.
  pub leaf_errors : ValidationError → List String
  leaf_errors (validation_error message no_cause) = message ∷ []
  leaf_errors (validation_error message (cause e rest)) = leaf_errors e ++ leaf_errors_of rest

  pub leaf_errors_of : Causes → List String
  leaf_errors_of no_cause = []
  leaf_errors_of (cause e rest) = leaf_errors e ++ leaf_errors_of rest

abbrev pub is_set {ℓ} : {A : Type ℓ} → Option A → Bool
is_set none = false
is_set (some a) = true

abbrev pub is_given : String → Bool
is_given s = not (str_eq s "")

abbrev pub has_health_path : Option HealthCheck → Bool
has_health_path none = false
has_health_path (some h) = is_given h.path

abbrev pub is_permanent : Option (Option Bool) → Bool
is_permanent (some (some b)) = b
is_permanent _ = false

abbrev pub error_at : String → Message → Diagnostic
error_at path m = record { file = path; message = m; severity = error }

-- The warnings whose conditions hold.
unfoldable pub warnings : String → List (Bool × String) → List Diagnostic
warnings path [] = []
warnings path ((holds, m) ∷ rest) =
    let more = warnings path rest in
    if holds then record { file = path; message = text m; severity = warning } ∷ more else more

unfoldable pub worker_warnings : MorselFile → List (Bool × String)
worker_warnings mf =
    (is_set mf.port, "port is not applicable to type \"worker\" and will be ignored")
    ∷ (is_set mf.private, "private is not applicable to type \"worker\" and will be ignored")
    ∷ (
      has_health_path mf.health_check,
      "health_check.path is not applicable to type \"worker\" and will be ignored",
    )
    ∷ (
      is_given mf.idle_after,
      "idle_after is not applicable to type \"worker\" and will be ignored",
    )
    ∷ (is_given mf.schedule, "schedule is not applicable to type \"worker\" and will be ignored")
    ∷ (is_given mf.timeout, "timeout is not applicable to type \"worker\" and will be ignored")
    ∷ (is_set mf.retries, "retries is not applicable to type \"worker\" and will be ignored")
    ∷ []

unfoldable pub cronjob_warnings : MorselFile → List (Bool × String)
cronjob_warnings mf =
    (is_set mf.port, "port is not applicable to type \"cronjob\" and will be ignored")
    ∷ (is_set mf.private, "private is not applicable to type \"cronjob\" and will be ignored")
    ∷ (
      has_health_path mf.health_check,
      "health_check.path is not applicable to type \"cronjob\" and will be ignored",
    )
    ∷ (
      is_given mf.idle_after,
      "idle_after is not applicable to type \"cronjob\" and will be ignored",
    )
    ∷ []

unfoldable pub http_warnings : MorselFile → List (Bool × String)
http_warnings mf =
    (is_given mf.schedule, "schedule is not applicable to type \"http\" and will be ignored")
    ∷ (is_given mf.timeout, "timeout is not applicable to type \"http\" and will be ignored")
    ∷ (is_set mf.retries, "retries is not applicable to type \"http\" and will be ignored")
    ∷ []

unfoldable pub persistence_warnings : Option Persistence → List (Bool × String)
persistence_warnings none = []
persistence_warnings (some p) =
    (
      is_permanent p.database,
      "persistence.database.permanent is true — removing this field will schedule deletion after a 30-day grace period",
    )
    ∷ (
      is_permanent p.storage,
      "persistence.storage.permanent is true — removing this field will schedule deletion after a 30-day grace period",
    )
    ∷ (
      is_permanent p.queues,
      "persistence.queues.permanent is true — removing this field will schedule deletion after a 30-day grace period",
    )
    ∷ []

unfoldable pub type_warnings : MorselFile → List (Bool × String)
unfolding worker_warnings cronjob_warnings http_warnings
type_warnings mf =
    if str_eq mf.file_type "worker"
    then worker_warnings mf
    else if str_eq mf.file_type "cronjob"
    then cronjob_warnings mf
    else if str_eq mf.file_type "http"
    then http_warnings mf
    else []

unfoldable pub semantic_diags : String → MorselFile → List Diagnostic
unfolding warnings type_warnings persistence_warnings
semantic_diags path mf = warnings path (type_warnings mf ++ persistence_warnings mf.persistence)

unfoldable pub schema_diags : String → Validation → List Diagnostic
unfolding leaf_errors
schema_diags path valid = []
schema_diags path (invalid e) = map (λ m. error_at path (text m)) (leaf_errors e)
schema_diags path (failed m) = error_at path (text m) ∷ []

module _ {Value : Type 0} (json : Json Value) where
  -- What is found in the file, and the file if it can be read.
  unfoldable pub lint_file : File → List Diagnostic × Option MorselFile
  unfolding schema_diags semantic_diags
  lint_file file = elim (json.unmarshal file.content) [
    | err e ↦ (error_at file.path (invalid_json e) ∷ [], none)
    | ok raw ↦
        let diags = schema_diags file.path (json.validate raw) in
        elim (json.unmarshal_file file.content) [
          | err e ↦ (diags, none)
          | ok mf ↦ (diags ++ semantic_diags file.path mf, some mf)
        ]
  ]
