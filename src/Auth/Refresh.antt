-- ===== src/Auth/Refresh.antt =====
-- The exchange of refresh tokens: TokenRefresh and TokenDeploy of internal/api/handler/token.go.
use morsel.Prelude.{
  ℕ, ◌+◌, ◌*◌, not, List, Option, none, some, String, str_eq, if◌then◌else◌, ltb, Result, ok, err,
}
use morsel.Auth.Claims.{
  Claims, minute, admin, operator, is_operator_role, create_operator_claims,
  create_admin_api_claims, create_deploy_claims,
}
use morsel.Auth.Tables.{
  Principal, RefreshToken, Store, Faults, Error, find_token, find_principal, signing,
  get_refresh_token_by_hash, get_principal_by_login, rotate_refresh_token,
}

pub data Reply : Type 0 where
  denied : ℕ → String → Reply
  access : String → Reply
  pair : String → String → Reply
  identity : String → Reply
  listed : List Principal → Reply

abbrev pub internal_error : Reply
internal_error = denied 500 "internal_error"

abbrev pub operator_refresh_ttl : ℕ
operator_refresh_ttl = 90 * (24 * (60 * minute))

-- The role by the principal's flags now.
abbrev pub role_of : Principal → Option String
role_of p = if p.is_admin then some admin else if p.is_operator then some operator else none

abbrev pub claims_for : ℕ → String → String → Claims
claims_for now role subject =
    if str_eq role admin
    then create_admin_api_claims now subject
    else create_operator_claims now subject

unfoldable pub validate_refresh_token : ℕ → Option RefreshToken → Result Reply RefreshToken
validate_refresh_token now none = err (denied 401 "invalid_token")
validate_refresh_token now (some t) = elim t.revoked_at [
  | some at ↦ err (denied 401 "token_revoked")
  | none ↦
      if ltb t.expires_at now
      then err (denied 401 "token_expired")
      else if not (is_operator_role t.role)
      then err (denied 401 "invalid_token")
      else ok t
]

-- What the handlers take from elsewhere: the signing of claims, the hash of a token's bytes and
-- their text form. A random draw is an argument of a run.
module _ (issue : Claims → Option String) (hash : List ℕ → String) (encode : List ℕ → String)
    (decode : String → Option (List ℕ)) where
  abbrev pub issue_token : Faults → Claims → Option String
  issue_token f claims = if f signing then none else issue claims

  abbrev rotated : String → List ℕ → Store × Result Error (Unit {0}) → Store × Reply
  rotated token raw (s, err e) = (s, internal_error)
  rotated token raw (s, ok _) = (s, pair token (encode raw))

  abbrev pub renew : Faults → ℕ → Option (List ℕ) → String → RefreshToken → Store → Store × Reply
  renew f now fresh role t s = elim (issue_token f (claims_for now role t.subject)) [
    | none ↦ (s, internal_error)
    | some token ↦ elim fresh [
      | none ↦ (s, internal_error)
      | some raw ↦
          rotated token raw (rotate_refresh_token f t.id (hash raw) (now + operator_refresh_ttl) s)
    ]
  ]

  abbrev pub refresh_for :
      Faults → ℕ → Option (List ℕ) → RefreshToken → Option Principal → Store → Store × Reply
  refresh_for f now fresh t none s = (s, denied 401 "invalid_token")
  refresh_for f now fresh t (some p) s = elim (role_of p) [
    | none ↦ (s, denied 401 "insufficient_role")
    | some role ↦ renew f now fresh role t s
  ]

  abbrev pub refresh_valid :
      Faults → ℕ → Option (List ℕ) → Result Reply RefreshToken → Store → Store × Reply
  refresh_valid f now fresh (err reply) s = (s, reply)
  refresh_valid f now fresh (ok t) s =
      if f find_principal
      then (s, internal_error)
      else refresh_for f now fresh t (get_principal_by_login t.subject s.principals) s

  unfoldable pub token_refresh : Faults → ℕ → Option (List ℕ) → String → Store → Store × Reply
  unfolding get_refresh_token_by_hash validate_refresh_token rotate_refresh_token
      get_principal_by_login create_operator_claims create_admin_api_claims
  token_refresh f now fresh token s =
      if str_eq token "" then (s, denied 400 "invalid_request") else elim (decode token) [
        | none ↦ (s, denied 401 "invalid_token")
        | some raw ↦
            if f find_token
            then (s, internal_error)
            else refresh_valid f now fresh
                (validate_refresh_token now (get_refresh_token_by_hash (hash raw) s.refresh_tokens))
                s
      ]

  -- The platform turns the token of a build into the slug of its repo.
  unfoldable pub token_deploy : (String → Option String) → Faults → ℕ → String → Reply
  unfolding create_deploy_claims
  token_deploy verify f now token =
      if str_eq token "" then denied 400 "invalid_request" else elim (verify token) [
        | none ↦ denied 401 "invalid_token"
        | some slug ↦ elim (issue_token f (create_deploy_claims now slug)) [
          | none ↦ internal_error
          | some text ↦ access text
        ]
      ]
