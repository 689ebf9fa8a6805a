-- ===== src/Auth/Claims.antt =====
-- The claims of the tokens that the control plane issues: cmd/morsel-ctrl-plane/internal/tokens/claims.go. Times are in
-- nanoseconds, whole seconds in the claims; the signing of a token is a parameter of what uses it.
use morsel.Prelude.{ℕ, ◌+◌, ◌*◌, ◌/◌, Bool, ◌||◌, String, str_append, str_eq, ℤ, pos}

pub record Claims : Type 0 where
  pub subject : String
  pub issued_at : ℕ
  pub expires_at : ℕ
  pub repo : String
  pub role : String
  pub github_id : ℤ

abbrev pub minute : ℕ
minute = 60000000000

-- The time in whole seconds, to which jwt.NewNumericDate of the JWT library truncates by its documentation.
abbrev pub numeric_date : ℕ → ℕ
numeric_date t = t / 1000000000 * 1000000000

abbrev pub developer : String
developer = "developer"

abbrev pub operator : String
operator = "operator"

abbrev pub admin : String
admin = "admin"

abbrev pub bootstrap_id : String
bootstrap_id = "bootstrap_id"

abbrev pub operator_token_ttl : ℕ
operator_token_ttl = 15 * minute

abbrev pub is_operator_role : String → Bool
is_operator_role r = str_eq r operator || str_eq r admin

abbrev pub role_claims : ℕ → String → String → Claims
role_claims now role subject = record {
  subject = subject;
  issued_at = numeric_date now;
  expires_at = numeric_date (now + operator_token_ttl);
  repo = "";
  role = role;
  github_id = pos 0;
}

unfoldable pub create_operator_claims : ℕ → String → Claims
create_operator_claims now subject = role_claims now operator subject

unfoldable pub create_admin_api_claims : ℕ → String → Claims
create_admin_api_claims now subject = role_claims now admin subject

unfoldable pub create_bootstrap_id_claims : ℕ → String → ℤ → Claims
create_bootstrap_id_claims now login id = record {
  subject = login;
  issued_at = numeric_date now;
  expires_at = numeric_date (now + 5 * minute);
  repo = "";
  role = bootstrap_id;
  github_id = id;
}

unfoldable pub create_deploy_claims : ℕ → String → Claims
create_deploy_claims now slug = record {
  subject = str_append "repo:" slug;
  issued_at = numeric_date now;
  expires_at = numeric_date (now + 10 * minute);
  repo = slug;
  role = developer;
  github_id = pos 0;
}
