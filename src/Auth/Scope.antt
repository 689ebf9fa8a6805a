-- ===== src/Auth/Scope.antt =====
-- What the tokens that are issued open: HandleTokenDeploy of internal/api/handler/token.go and
-- HandleGitHubAuth of github_auth.go, with the checks of Access.antt.
use morsel.Prelude.{
  ℕ, ◌+◌, ◌*◌, ◌<◌, ◌≢◌, ℤ, ◌≡◌, ◌↔◌, false, List, Option, some, String, str_eq, arith, eq_iff,
  Result, ok, err, Option-cases, inl, inr,
}
use morsel.Auth.Claims.{
  Claims, numeric_date, minute, create_deploy_claims, create_bootstrap_id_claims,
}
use morsel.Auth.Tables.{Principal, Error, Store, Faults, upsert_principal}
use morsel.Auth.Access.{
  repo_slug, bearer_auth, check_repo_access, require_operator, require_admin, insufficient_role,
}
use morsel.Auth.Refresh.{access, identity, token_deploy}
use morsel.Auth.Login.{Draw, GithubUser, github_auth, get_bootstrap_token, logged_in}

-- What a token opens: the claims of a request that bears it, and the checks that they pass.
pub record Opens (verify : String → Option Claims) (text : String) (Repo : String → String → Type 0)
    : Type 0 where
  pub claims : Claims
  pub borne : bearer_auth verify text ≡ ok claims
  pub repos :
      (org repo : String) → (check_repo_access (some claims) org repo ≡ ok tt) ↔ Repo org repo
  pub no_operator : require_operator (some claims) ≡ err insufficient_role
  pub no_admin : require_admin (some claims) ≡ err insufficient_role

-- The times are whole seconds.
abbrev pub Whole : Claims → Type 0
Whole c = (numeric_date c.issued_at ≡ c.issued_at) × (numeric_date c.expires_at ≡ c.expires_at)

numeric_date-twice : (t : ℕ) → numeric_date (numeric_date t) ≡ numeric_date t
numeric_date-twice t = omega arith

deploy-Whole : (now : ℕ) (slug : String) → Whole (create_deploy_claims now slug)
unfolding create_deploy_claims
deploy-Whole now slug = (numeric_date-twice now, numeric_date-twice (now + 10 * minute))

identity-Whole :
    (now : ℕ) (login : String) (id : ℤ) → Whole (create_bootstrap_id_claims now login id)
unfolding create_bootstrap_id_claims
identity-Whole now login id = (numeric_date-twice now, numeric_date-twice (now + 5 * minute))

developer-opens :
    (verify : String → Option Claims) (text slug : String) (now : ℕ)
    → str_eq text "" ≡ false
    → verify text ≡ some (create_deploy_claims now slug)
    → Opens verify text (λ org repo. slug ≡ repo_slug org repo)
unfolding bearer_auth check_repo_access require_operator require_admin create_deploy_claims
developer-opens verify text slug now given back = record {
  claims = create_deploy_claims now slug;
  borne = ground arith;
  repos = λ org repo. (
    λ e. ground (arith, e, eq_iff slug (repo_slug org repo)),
    λ e. ground (arith, e, eq_iff slug (repo_slug org repo)),
  );
  no_operator = ground arith;
  no_admin = ground arith;
}

identity-opens :
    (verify : String → Option Claims) (text login : String) (id : ℤ) (now : ℕ)
    → str_eq text "" ≡ false
    → verify text ≡ some (create_bootstrap_id_claims now login id)
    → Opens verify text (λ org repo. Unit)
unfolding bearer_auth check_repo_access require_operator require_admin create_bootstrap_id_claims
identity-opens verify text login id now given back = record {
  claims = create_bootstrap_id_claims now login id;
  borne = ground arith;
  repos = λ org repo. (λ e. tt, λ e. ground arith);
  no_operator = ground arith;
  no_admin = ground arith;
}

module _ (issue : Claims → Option String) (hash : List ℕ → String) (encode : List ℕ → String)
    (decode : String → Option (List ℕ)) (verify : String → Option Claims) where
  -- At that time, a text that is signed for claims with whole seconds that have not expired is
  -- verified to them.
  abbrev pub TripsBack : ℕ → String → Type 0
  TripsBack at text =
      (c : Claims)
      → Whole c
      → at < c.expires_at
      → issue c ≡ some text
      → (str_eq text "" ≡ false) × (verify text ≡ some c)

  -- If TokenDeploy returns a token, and a text that is signed for unexpired claims with whole
  -- seconds is verified to them, the platform has named a slug for the token of the build, and
  -- until ten minutes after, to the second, a request that bears the token passes checkRepoAccess
  -- for exactly the repos of that slug and neither requireOperator nor requireAdmin.
  pub deploy_token_scope :
      (platform : String → Option String) (f : Faults) (now at : ℕ) (token text : String)
      → at < numeric_date (now + 10 * minute)
      → TripsBack at text
      → token_deploy issue hash encode decode platform f now token ≡ access text
      → (slug : String) × (platform token ≡ some slug)
        × Opens verify text (λ org repo. slug ≡ repo_slug org repo)
  unfolding token_deploy
  deploy_token_scope platform f now at token text live trip e =
      elim (Option-cases (platform token)) [
        | inl n ↦ ground arith
        | inr (slug, n) ↦
            let signed : issue (create_deploy_claims now slug) ≡ some text = ground (arith, e, n) in
            let (given, back) =
              trip (create_deploy_claims now slug) (deploy-Whole now slug) live signed in
            (slug, n, developer-opens verify text slug now given back)
      ]

  logged_in-identity :
      (f : Faults) (now : ℕ) (draw : Draw) (s v : Store) (r : Result Error Principal)
      (text : String)
      → logged_in issue hash encode decode f now draw (s, r) ≢ (v, identity text)
  logged_in-identity f now draw s v (err x) text e = ground arith
  logged_in-identity f now draw s v (ok p) text e = elim (Option-cases draw.raw) [
    | inl n ↦ ground arith
    | inr (raw, n) ↦ elim (Option-cases draw.id) [
      | inl m ↦ ground arith
      | inr (id, m) ↦ ground arith
    ]
  ]

  -- If a login returns a proof of identity, and a text that is signed for unexpired claims with
  -- whole seconds is verified to them, a request that bears it until five minutes after, to the
  -- second, passes neither requireOperator nor requireAdmin, but passes checkRepoAccess for every
  -- repo.
  pub identity_token_scope :
      (fetch : String → Option GithubUser) (f : Faults) (now at : ℕ) (draw : Draw)
      (token text : String) (s v : Store)
      → at < numeric_date (now + 5 * minute)
      → TripsBack at text
      → github_auth issue hash encode decode fetch f now draw (some token) s ≡ (v, identity text)
      → Opens verify text (λ org repo. Unit)
  unfolding github_auth
  identity_token_scope fetch f now at draw token text s v live trip e =
      elim (Option-cases (fetch token)) [
        | inl n ↦ ground arith
        | inr (user, n) ↦ elim (Option-cases (get_bootstrap_token f s)) [
          | inl m ↦
              let (s1, r) = upsert_principal f user.id user.login s in
              absurd (logged_in-identity f now draw s1 v r text (ground (arith, e, n, m)))
          | inr (secret, m) ↦
              let signed : issue (create_bootstrap_id_claims now user.login user.id) ≡ some text =
                ground (arith, e, n, m) in
              let (given, back) =
                trip (create_bootstrap_id_claims now user.login user.id)
                  (identity-Whole now user.login user.id) live signed in
              identity-opens verify text user.login user.id now given back
        ]
      ]
