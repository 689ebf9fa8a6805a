-- ===== src/Auth/Login.antt =====
-- The login with a GitHub token and the set-up of the first admin: HandleGitHubAuth of
-- internal/api/handler/github_auth.go and HandleBootstrap of bootstrap.go.
use morsel.Prelude.{
  ℕ, ◌+◌, Bool, true, not, ◌||◌, List, Option, none, some, String, str_eq, if◌then◌else◌, ℤ, pos,
  negsuc, Result, ok, err,
}
use morsel.Auth.Claims.{Claims, admin, bootstrap_id, create_bootstrap_id_claims}
use morsel.Auth.Tables.{
  Principal, Store, Faults, Error, same_id, read_secret, delete_secret, upsert_principal, set_admin,
  set_operator, insert_refresh_token,
}
use morsel.Auth.Refresh.{
  Reply, denied, pair, identity, internal_error, operator_refresh_ttl, role_of, claims_for,
  issue_token,
}

-- A random id and the bytes of a new refresh token, each if the random source works.
pub record Draw : Type 0 where
  pub id : Option String
  pub raw : Option (List ℕ)

pub record GithubUser : Type 0 where
  pub id : ℤ
  pub login : String

-- The secret is read, with an error if it is not there or cannot be read.
abbrev pub get_bootstrap_token : Faults → Store → Option String
get_bootstrap_token f s = if f read_secret then none else s.bootstrap_token

module _ (issue : Claims → Option String) (hash : List ℕ → String) (encode : List ℕ → String)
    (decode : String → Option (List ℕ)) where
  abbrev pub sign : Faults → Claims → Option String
  sign f claims = issue_token issue hash encode decode f claims

  abbrev pub stored : String → List ℕ → Store × Result Error (Unit {0}) → Store × Reply
  stored token raw (s, err e) = (s, internal_error)
  stored token raw (s, ok _) = (s, pair token (encode raw))

  -- The end of a login: an access token, and a refresh token that is stored by its hash.
  abbrev pub issue_pair : Faults → ℕ → Draw → String → String → Store → Store × Reply
  issue_pair f now draw role subject s = elim (sign f (claims_for now role subject)) [
    | none ↦ (s, internal_error)
    | some token ↦ elim draw.raw [
      | none ↦ (s, internal_error)
      | some raw ↦ elim draw.id [
        | none ↦ (s, internal_error)
        | some id ↦
            stored token raw
              (insert_refresh_token f id (hash raw) subject role (now + operator_refresh_ttl) s)
      ]
    ]
  ]

  abbrev pub logged_in : Faults → ℕ → Draw → Store × Result Error Principal → Store × Reply
  logged_in f now draw (s, err e) = (s, internal_error)
  logged_in f now draw (s, ok p) = elim (role_of p) [
    | none ↦ (s, denied 403 "insufficient_role")
    | some role ↦ issue_pair f now draw role p.github_login s
  ]

  -- While the bootstrap token is there, a login gives no more than a proof of identity.
  unfoldable pub github_auth :
      (String → Option GithubUser) → Faults → ℕ → Draw → Option String → Store → Store × Reply
  unfolding upsert_principal insert_refresh_token create_bootstrap_id_claims
  github_auth fetch f now draw none s = (s, denied 400 "invalid_request")
  github_auth fetch f now draw (some token) s = elim (fetch token) [
    | none ↦ (s, denied 401 "invalid_token")
    | some user ↦ elim (get_bootstrap_token f s) [
      | some secret ↦ elim (sign f (create_bootstrap_id_claims now user.login user.id)) [
        | none ↦ (s, internal_error)
        | some text ↦ (s, identity text)
      ]
      | none ↦ logged_in f now draw (upsert_principal f user.id user.login s)
    ]
  ]

  -- Who is to be the first admin: the identity that a token proves, or a synthetic one where GitHub
  -- is not configured and no token is given.
  unfoldable pub first_admin : (String → Option Claims) → Bool → String → Result Reply GithubUser
  first_admin verify github token =
      if str_eq token ""
      then (if github
          then err (denied 401 "missing_id_token")
          else ok (record { id = negsuc 0; login = "local-admin" }))
      else elim (verify token) [
        | none ↦ err (denied 401 "invalid_id_token")
        | some claims ↦
            if not (str_eq claims.role bootstrap_id)
            then err (denied 401 "invalid_id_token")
            else if str_eq claims.subject "" || same_id claims.github_id (pos 0)
            then err (denied 401 "invalid_id_token")
            else ok (record { id = claims.github_id; login = claims.subject })
      ]

  -- A failed deletion of the secret is logged and no more.
  abbrev pub consume_bootstrap_token : Faults → Store → Store
  consume_bootstrap_token f s = if f delete_secret then s else record s { bootstrap_token = none }

  abbrev pub bootstrap_granted :
      Faults → ℕ → Draw → GithubUser → Store × Result Error (Unit {0}) → Store × Reply
  bootstrap_granted f now draw user (s, err e) = (s, internal_error)
  bootstrap_granted f now draw user (s, ok _) =
      issue_pair f now draw admin user.login (consume_bootstrap_token f s)

  abbrev pub bootstrap_admin :
      Faults → ℕ → Draw → GithubUser → Store × Result Error (Unit {0}) → Store × Reply
  bootstrap_admin f now draw user (s, err e) = (s, internal_error)
  bootstrap_admin f now draw user (s, ok _) =
      bootstrap_granted f now draw user (set_operator f user.id true s)

  abbrev pub bootstrap_principal :
      Faults → ℕ → Draw → GithubUser → Store × Result Error Principal → Store × Reply
  bootstrap_principal f now draw user (s, err e) = (s, internal_error)
  bootstrap_principal f now draw user (s, ok p) =
      bootstrap_admin f now draw user (set_admin f user.id true s)

  abbrev pub bootstrap_as : Faults → ℕ → Draw → Result Reply GithubUser → Store → Store × Reply
  bootstrap_as f now draw (err reply) s = (s, reply)
  bootstrap_as f now draw (ok user) s =
      bootstrap_principal f now draw user (upsert_principal f user.id user.login s)

  -- The secret that cannot be read counts as one that is not there.
  unfoldable pub bootstrap :
      (String → Option Claims) → Bool → Faults → ℕ → Draw → String → String → Store → Store × Reply
  unfolding first_admin upsert_principal set_admin set_operator insert_refresh_token
  bootstrap verify github f now draw secret token s = elim (get_bootstrap_token f s) [
    | none ↦ (s, denied 401 "invalid_bootstrap_token")
    | some expected ↦
        if str_eq secret "" || not (str_eq secret expected)
        then (s, denied 401 "invalid_bootstrap_token")
        else bootstrap_as f now draw (first_admin verify github token) s
  ]
