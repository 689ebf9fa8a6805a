-- ===== src/Auth/Stages.antt =====
-- A property of the store that each statement keeps is kept by each request, and so by each run of
-- requests: the handlers of Refresh.antt, Login.antt and Principals.antt change the store by their
-- statements alone.
use morsel.Prelude.{
  ℕ, ◌+◌, subst, Bool, true, List, [], ◌∷◌, Option, none, some, String, str_eq, ℤ, arith, All, ok,
  err, Result, Option-cases, Bool-cases, Result-cases, inl, inr,
}
use morsel.Auth.Claims.{Claims, admin, operator}
use morsel.Auth.Tables.{
  Principal, get_principal_by_login, find_principal, RefreshToken, Store, Faults, Error, find_token,
  get_refresh_token_by_hash, rotate_refresh_token, insert_refresh_token, upsert_principal,
  set_admin, set_operator, delete_principal,
}
use morsel.Auth.Refresh.{
  Reply, operator_refresh_ttl, token_refresh, validate_refresh_token, refresh_valid, refresh_for,
  renew,
}
use morsel.Auth.Login.{
  Draw, GithubUser, issue_pair, logged_in, get_bootstrap_token, consume_bootstrap_token,
  bootstrap_granted, bootstrap_as, first_admin, github_auth, bootstrap,
}
use morsel.Auth.Principals.{
  add_operator, remove_principal, patch_principal, then_admin, listed_after,
}
use morsel.Auth.Requests.{
  Request, refreshes, logins, bootstraps, adds, removes, patches, Outside, serve, run, drawn,
}

-- The bytes that a request draws, if it draws any, have such a hash.
abbrev pub Draws : (List ℕ → String) → (String → Type 0) → Option (List ℕ) → Type 0
Draws hash Fresh none = Unit
Draws hash Fresh (some raw) = Fresh (hash raw)

-- Each statement keeps the property, if a new hash is as asked for.
pub record Keeps (P : Store → Type 0) (Fresh : String → Type 0) : Type 0 where
  pub rotates :
      (f : Faults) (id new : String) (t : ℕ) (s : Store)
      → Fresh new
      → P s
      → P (rotate_refresh_token f id new t s).0
  pub inserts :
      (f : Faults) (id new subject role : String) (t : ℕ) (s : Store)
      → Fresh new
      → P s
      → P (insert_refresh_token f id new subject role t s).0
  pub upserts :
      (f : Faults) (id : ℤ) (login : String) (s : Store) → P s → P (upsert_principal f id login s).0
  pub operators : (f : Faults) (id : ℤ) (b : Bool) (s : Store) → P s → P (set_operator f id b s).0
  pub admins : (f : Faults) (id : ℤ) (b : Bool) (s : Store) → P s → P (set_admin f id b s).0
  pub deletes : (f : Faults) (id : ℤ) (s : Store) → P s → P (delete_principal f id s).0
  pub consumes :
      (o : Outside) (f : Faults) (s : Store)
      → P s
      → P (consume_bootstrap_token o.issue o.hash o.encode o.decode f s)

module _ (o : Outside) (P : Store → Type 0) (Fresh : String → Type 0) (k : Keeps P Fresh) where
  renew-kept :
      (f : Faults) (now : ℕ) (fresh : Option (List ℕ)) (role : String) (t : RefreshToken)
      (s : Store)
      → Draws o.hash Fresh fresh
      → P s
      → P (renew o.issue o.hash o.encode o.decode f now fresh role t s).0
  renew-kept f now none role t s d a = ground (arith, a)
  renew-kept f now (some raw) role t s d a =
      ground (arith, a, k.rotates f t.id (o.hash raw) (now + operator_refresh_ttl) s d a)

  refresh_for-kept :
      (f : Faults) (now : ℕ) (fresh : Option (List ℕ)) (t : RefreshToken) (p : Option Principal)
      (s : Store)
      → Draws o.hash Fresh fresh
      → P s
      → P (refresh_for o.issue o.hash o.encode o.decode f now fresh t p s).0
  refresh_for-kept f now fresh t none s d a = a
  refresh_for-kept f now fresh t (some p) s d a = elim (Bool-cases p.is_admin) [
    | inl e ↦ rw (e, refresh_for) (renew-kept f now fresh admin t s d a)
    | inr e ↦ elim (Bool-cases p.is_operator) [
      | inl e2 ↦ rw (e, e2, refresh_for) (renew-kept f now fresh operator t s d a)
      | inr e2 ↦ rw (e, e2, refresh_for) a
    ]
  ]

  refresh_valid-kept :
      (f : Faults) (now : ℕ) (fresh : Option (List ℕ)) (r : Result Reply RefreshToken) (s : Store)
      → Draws o.hash Fresh fresh
      → P s
      → P (refresh_valid o.issue o.hash o.encode o.decode f now fresh r s).0
  refresh_valid-kept f now fresh (err reply) s d a = a
  refresh_valid-kept f now fresh (ok t) s d a = elim (Bool-cases (f find_principal)) [
    | inl e ↦ rw e a
    | inr e ↦
        rw e (refresh_for-kept f now fresh t (get_principal_by_login t.subject s.principals) s d a)
  ]

  token_refresh-kept :
      (f : Faults) (now : ℕ) (fresh : Option (List ℕ)) (token : String) (s : Store)
      → Draws o.hash Fresh fresh
      → P s
      → P (token_refresh o.issue o.hash o.encode o.decode f now fresh token s).0
  unfolding token_refresh
  token_refresh-kept f now fresh token s d a = elim (Bool-cases (str_eq token "")) [
    | inl e ↦ rw e a
    | inr e ↦ elim (Option-cases (o.decode token)) [
      | inl n ↦ rw (e, n) a
      | inr (raw, n) ↦ elim (Bool-cases (f find_token)) [
        | inl x ↦ rw (e, n, x) a
        | inr x ↦
            rw (e, n, x)
              (refresh_valid-kept f now fresh
                (validate_refresh_token now
                  (get_refresh_token_by_hash (o.hash raw) s.refresh_tokens))
                s d a)
      ]
    ]
  ]

  issue_pair-kept :
      (f : Faults) (now : ℕ) (draw : Draw) (role subject : String) (s : Store)
      → Draws o.hash Fresh draw.raw
      → P s
      → P (issue_pair o.issue o.hash o.encode o.decode f now draw role subject s).0
  issue_pair-kept f now draw role subject s d a = elim (Option-cases draw.raw) [
    | inl e ↦ ground (arith, a)
    | inr (raw, e) ↦ elim (Option-cases draw.id) [
      | inl n ↦ ground (arith, a)
      | inr (id, n) ↦
          let new : Fresh (o.hash raw) = subst (Draws o.hash Fresh) e d in
          ground (
            arith,
            a,
            k.inserts f id (o.hash raw) subject role (now + operator_refresh_ttl) s new a,
          )
    ]
  ]

  logged_in-kept :
      (f : Faults) (now : ℕ) (draw : Draw) (s : Store) (r : Result Error Principal)
      → Draws o.hash Fresh draw.raw
      → P s
      → P (logged_in o.issue o.hash o.encode o.decode f now draw (s, r)).0
  logged_in-kept f now draw s (err e) d a = a
  logged_in-kept f now draw s (ok p) d a = elim (Bool-cases p.is_admin) [
    | inl e ↦ rw (e, logged_in) (issue_pair-kept f now draw admin p.github_login s d a)
    | inr e ↦ elim (Bool-cases p.is_operator) [
      | inl e2 ↦ rw (e, e2, logged_in) (issue_pair-kept f now draw operator p.github_login s d a)
      | inr e2 ↦ rw (e, e2, logged_in) a
    ]
  ]

  github_auth-kept :
      (f : Faults) (now : ℕ) (draw : Draw) (token : Option String) (s : Store)
      → Draws o.hash Fresh draw.raw
      → P s
      → P (github_auth o.issue o.hash o.encode o.decode o.fetch f now draw token s).0
  unfolding github_auth
  github_auth-kept f now draw none s d a = a
  github_auth-kept f now draw (some token) s d a = elim (Option-cases (o.fetch token)) [
    | inl e ↦ rw (github_auth, e) a
    | inr (user, e) ↦ elim (Option-cases (get_bootstrap_token f s)) [
      | inl n ↦
          let (s1, r) = upsert_principal f user.id user.login s in
          rw (github_auth, e, n)
            (logged_in-kept f now draw s1 r d (k.upserts f user.id user.login s a))
      | inr (secret, n) ↦ rw (github_auth, e, n) (ground (arith, a))
    ]
  ]

  bootstrap_granted-kept :
      (f : Faults) (now : ℕ) (draw : Draw) (user : GithubUser) (s : Store)
      (r : Result Error (Unit {0}))
      → Draws o.hash Fresh draw.raw
      → P s
      → P (bootstrap_granted o.issue o.hash o.encode o.decode f now draw user (s, r)).0
  bootstrap_granted-kept f now draw user s (err e) d a = a
  bootstrap_granted-kept f now draw user s (ok u) d a =
      issue_pair-kept f now draw admin user.login
        (consume_bootstrap_token o.issue o.hash o.encode o.decode f s) d (k.consumes o f s a)

  bootstrap_as-kept :
      (f : Faults) (now : ℕ) (draw : Draw) (who : Result Reply GithubUser) (s : Store)
      → Draws o.hash Fresh draw.raw
      → P s
      → P (bootstrap_as o.issue o.hash o.encode o.decode f now draw who s).0
  bootstrap_as-kept f now draw (err reply) s d a = a
  bootstrap_as-kept f now draw (ok user) s d a =
      let (s1, r1) = upsert_principal f user.id user.login s in
      let a1 = k.upserts f user.id user.login s a in
      let (s2, r2) = set_admin f user.id true s1 in
      let a2 = k.admins f user.id true s1 a1 in
      let (s3, r3) = set_operator f user.id true s2 in
      let a3 = k.operators f user.id true s2 a2 in
      elim (Result-cases r1) [
        | inr (x, e1) ↦ ground (arith, a1)
        | inl (p, e1) ↦ elim (Result-cases r2) [
          | inr (x, e2) ↦ ground (arith, a2)
          | inl (u, e2) ↦ ground (arith, bootstrap_granted-kept f now draw user s3 r3 d a3)
        ]
      ]

  bootstrap-kept :
      (f : Faults) (now : ℕ) (draw : Draw) (secret token : String) (s : Store)
      → Draws o.hash Fresh draw.raw
      → P s
      → P (bootstrap o.issue o.hash o.encode o.decode o.verify o.github f now draw secret token s).0
  unfolding bootstrap
  bootstrap-kept f now draw secret token s d a = ground (
    arith,
    a,
    bootstrap_as-kept f now draw
        (first_admin o.issue o.hash o.encode o.decode o.verify o.github token) s d a,
  )

  listed_after-kept :
      (f : Faults) (s : Store) (r : Result Error (Unit {0})) → P s → P (listed_after f (s, r)).0
  listed_after-kept f s r a = ground (arith, a)

  then_admin-kept :
      (f : Faults) (id : ℤ) (flag : Option Bool) (s : Store) (r : Result Error (Unit {0}))
      → P s
      → P (then_admin f id flag (s, r)).0
  then_admin-kept f id none s r a = ground (arith, a)
  then_admin-kept f id (some b) s r a = ground (arith, a, k.admins f id b s a)

  add_operator-kept :
      (f : Faults) (claims : Option Claims) (login : String) (s : Store)
      → P s
      → P (add_operator o.trim f claims login s).0
  unfolding add_operator
  add_operator-kept f claims login s a =
      elim (Option-cases (get_principal_by_login (o.trim login) s.principals)) [
        | inl e ↦ ground (arith, a)
        | inr (p, e) ↦ ground (arith, a, k.operators f p.github_id true s a)
      ]

  remove_principal-kept :
      (f : Faults) (claims : Option Claims) (login : String) (s : Store)
      → P s
      → P (remove_principal f claims login s).0
  unfolding remove_principal
  remove_principal-kept f claims login s a =
      elim (Option-cases (get_principal_by_login login s.principals)) [
        | inl e ↦ ground (arith, a)
        | inr (p, e) ↦ ground (arith, a, k.deletes f p.github_id s a)
      ]

  patch_principal-kept :
      (f : Faults) (token login : String) (body : Option (Option Bool × Option Bool)) (s : Store)
      → P s
      → P (patch_principal o.verify f token login body s).0
  unfolding patch_principal
  patch_principal-kept f token login none s a = ground (arith, a)
  patch_principal-kept f token login (some (none, flag)) s a =
      elim (Option-cases (get_principal_by_login login s.principals)) [
        | inl e ↦ ground (arith, a)
        | inr (p, e) ↦ ground (arith, a, then_admin-kept f p.github_id flag s (ok tt) a)
      ]
  patch_principal-kept f token login (some (some b, flag)) s a =
      elim (Option-cases (get_principal_by_login login s.principals)) [
        | inl e ↦ ground (arith, a)
        | inr (p, e) ↦
            let (s1, r1) = set_operator f p.github_id b s in
            ground
              (arith, a, then_admin-kept f p.github_id flag s1 r1 (k.operators f p.github_id b s a))
      ]

  pub serve-kept :
      (r : Request) (s : Store) → Draws o.hash Fresh (drawn r) → P s → P (serve o r s).0
  unfolding serve
  serve-kept (refreshes f now fresh token) s d a = token_refresh-kept f now fresh token s d a
  serve-kept (logins f now draw token) s d a = github_auth-kept f now draw token s d a
  serve-kept (bootstraps f now draw secret token) s d a =
      bootstrap-kept f now draw secret token s d a
  serve-kept (adds f claims login) s d a = add_operator-kept f claims login s a
  serve-kept (removes f claims login) s d a = remove_principal-kept f claims login s a
  serve-kept (patches f token login body) s d a = patch_principal-kept f token login body s a

  pub run-kept :
      (rs : List Request) (s : Store)
      → All (λ r. Draws o.hash Fresh (drawn r)) rs
      → P s
      → P (run o rs s)
  unfolding run
  run-kept [] s d a = a
  run-kept (r ∷ rs) s (d, ds) a = run-kept rs (serve o r s).0 ds (serve-kept r s d a)
