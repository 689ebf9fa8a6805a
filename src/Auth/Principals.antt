-- ===== src/Auth/Principals.antt =====
-- The requests of admins on principals: AddOperatorPrincipal, RemoveOperatorPrincipal and
-- HandlePrincipalPatch of internal/api/handler/operator.go.
use morsel.Prelude.{
  ℕ, Bool, true, Option, none, some, String, str_eq, if◌then◌else◌, Result, ok, err, ℤ,
}
use morsel.Auth.Claims.{Claims, admin}
use morsel.Auth.Tables.{
  Principal, Store, Faults, Error, find_principal, list_rows, get_principal_by_login, set_operator,
  set_admin, delete_principal,
}
use morsel.Auth.Access.{require_admin}
use morsel.Auth.Refresh.{Reply, denied, listed, internal_error}

-- The status of the refusal, if the token is not that of an admin.
unfoldable pub require_admin_http : (String → Option Claims) → String → Result ℕ (Unit {0})
require_admin_http verify token = if str_eq token "" then err 401 else elim (verify token) [
  | none ↦ err 403
  | some claims ↦ if str_eq claims.role admin then ok tt else err 403
]

abbrev pub with_list : Faults → Store → Store × Reply
with_list f s = if f list_rows then (s, internal_error) else (s, listed s.principals)

abbrev pub listed_after : Faults → Store × Result Error (Unit {0}) → Store × Reply
listed_after f (s, err e) = (s, internal_error)
listed_after f (s, ok _) = with_list f s

-- What is done with the principal of that login.
abbrev pub for_login : Faults → String → (Principal → Store → Store × Reply) → Store → Store × Reply
for_login f login go s =
    if f find_principal
    then (s, internal_error)
    else elim (get_principal_by_login login s.principals) [
      | none ↦ (s, denied 404 "not_found")
      | some p ↦ go p s
    ]

unfoldable pub add_operator :
    (String → String) → Faults → Option Claims → String → Store → Store × Reply
unfolding require_admin get_principal_by_login set_operator
add_operator trim f claims login s = elim (require_admin claims) [
  | err refusal ↦ (s, denied 403 "insufficient_role")
  | ok _ ↦
      if str_eq (trim login) ""
      then (s, denied 400 "invalid_request")
      else for_login f (trim login) (λ p s. listed_after f (set_operator f p.github_id true s)) s
]

unfoldable pub remove_principal : Faults → Option Claims → String → Store → Store × Reply
unfolding require_admin get_principal_by_login delete_principal
remove_principal f claims login s = elim (require_admin claims) [
  | err refusal ↦ (s, denied 403 "insufficient_role")
  | ok _ ↦ for_login f login (λ p s. listed_after f (delete_principal f p.github_id s)) s
]

-- A flag that the request does not name stays.
abbrev pub set_flag :
    (Bool → Store → Store × Result Error (Unit {0}))
    → Option Bool
    → Store
    → Store × Result Error (Unit {0})
set_flag set none s = (s, ok tt)
set_flag set (some flag) s = set flag s

abbrev pub then_admin : Faults → ℤ → Option Bool → Store × Result Error (Unit {0}) → Store × Reply
then_admin f id flag (s, err e) = (s, internal_error)
then_admin f id flag (s, ok _) = listed_after f (set_flag (set_admin f id) flag s)

-- The two flags of a request's body, if it can be read.
unfoldable pub patch_principal :
    (String → Option Claims)
    → Faults
    → String
    → String
    → Option (Option Bool × Option Bool)
    → Store
    → Store × Reply
unfolding require_admin_http get_principal_by_login set_operator set_admin
patch_principal verify f token login body s = elim (require_admin_http verify token) [
  | err status ↦
      (s, denied status (if str_eq token "" then "invalid_token" else "insufficient_role"))
  | ok _ ↦ elim body [
    | none ↦ (s, denied 400 "invalid_request")
    | some flags ↦
        for_login f login
          (λ p s.
            then_admin f p.github_id flags.1 (set_flag (set_operator f p.github_id) flags.0 s))
          s
  ]
]
