-- ===== src/Auth/Access.antt =====
-- The checks of the claims of a request: checkRepoAccess, requireOperator and requireAdmin of
-- internal/api/handler/handler.go, and HandleBearerAuth of security.go.
use morsel.Prelude.{
  not, ◌&&◌, Option, none, some, String, str_append, str_eq, if◌then◌else◌, Result, ok, err,
}
use morsel.Auth.Claims.{Claims, developer, admin, is_operator_role}

pub data Refusal : Type 0 where
  invalid_token repo_mismatch insufficient_role : Refusal

unfoldable pub repo_slug : String → String → String
repo_slug org repo = str_append org (str_append "/" repo)

-- The claims that the rest of a request sees.
unfoldable pub bearer_auth : (String → Option Claims) → String → Result Refusal Claims
bearer_auth verify token =
    if str_eq token ""
    then err invalid_token
    else elim (verify token) [ none ↦ err invalid_token | some claims ↦ ok claims ]

unfoldable pub check_repo_access : Option Claims → String → String → Result Refusal (Unit {0})
unfolding repo_slug
check_repo_access none org repo = err invalid_token
check_repo_access (some c) org repo =
    if str_eq c.role developer && not (str_eq c.repo (repo_slug org repo))
    then err repo_mismatch
    else ok tt

unfoldable pub require_operator : Option Claims → Result Refusal (Unit {0})
require_operator none = err insufficient_role
require_operator (some c) = if is_operator_role c.role then ok tt else err insufficient_role

unfoldable pub require_admin : Option Claims → Result Refusal (Unit {0})
require_admin none = err insufficient_role
require_admin (some c) = if str_eq c.role admin then ok tt else err insufficient_role
