-- ===== src/Auth/Setup.antt =====
-- The set-up of the first admin: HandleBootstrap of internal/api/handler/bootstrap.go.
use morsel.Prelude.{
  ℕ, ◌+◌, ◌++◌, ◌≡◌, refl, ap, ◌∙◌, ◌≢◌, true, false, List, [], ◌∷◌, none, some, String, str_eq, ℤ,
  arith, eq_iff, find, ok, err, Option-cases, Result-cases, inl, inr,
}
use morsel.Auth.Claims.{admin}
use morsel.Auth.Tables.{
  Principal, Store, Faults, delete_secret, has_principal, upsert_principal, set_operator, set_admin,
  insert_refresh_token,
}
use morsel.Auth.Refresh.{Reply, denied, pair, operator_refresh_ttl}
use morsel.Auth.Login.{
  Draw, GithubUser, bootstrap, first_admin, bootstrap_as, bootstrap_granted, issue_pair,
  consume_bootstrap_token, get_bootstrap_token,
}
use morsel.Auth.Requests.{Request, Outside, run}
use morsel.Auth.Stages.{run-kept}
use morsel.Auth.WellFormed.{drawn-any}
use morsel.Auth.Flags.{find-holds, change-found, set_operator-found, set_admin-found}
use morsel.Auth.Secret.{Consumed, Consumed-Keeps, insert_refresh_token-secret}

append-found :
    (id : ℤ) (p : Principal) (rows : List Principal)
    → find (has_principal id) rows ≡ none
    → find (has_principal id) (rows ++ p ∷ []) ≡ find (has_principal id) (p ∷ [])
append-found id p [] e = refl
append-found id p (x ∷ rows) e = ground (arith, append-found id p rows)

upsert_principal-found :
    (f : Faults) (id : ℤ) (login : String) (s : Store) (p : Principal)
    → (upsert_principal f id login s).1 ≡ ok p
    → (find (has_principal id) (upsert_principal f id login s).0.principals ≡ some p)
      × (p.github_login ≡ login)
unfolding upsert_principal
upsert_principal-found f id login s p e =
    elim (Option-cases (find (has_principal id) s.principals)) [
      | inl n ↦
          let new : Principal = record {
            github_id = id;
            github_login = login;
            is_operator = false;
            is_admin = false;
          } in
          (ground (arith, n, e, append-found id new s.principals), ground (arith, n, e))
      | inr (q, n) ↦
          let g : Principal → Principal = λ x. record x { github_login = login } in
          (
            ground (
              arith,
              n,
              e,
              change-found (has_principal id) id g q s.principals (λ x. refl) n
                  (find-holds (has_principal id) q s.principals n),
            ),
            ground (arith, n, e),
          )
    ]

insert_refresh_token-principals :
    (f : Faults) (id new subject role : String) (t : ℕ) (s : Store)
    → (insert_refresh_token f id new subject role t s).0.principals ≡ s.principals
unfolding insert_refresh_token
insert_refresh_token-principals f id new subject role t s = ground arith

module _ (o : Outside) where
  -- The token of a login that works: its store and that of its statement.
  issue_pair-secret :
      (f : Faults) (now : ℕ) (draw : Draw) (role subject : String) (s : Store)
      → (issue_pair o.issue o.hash o.encode o.decode f now draw role subject s).0.bootstrap_token
        ≡ s.bootstrap_token
  issue_pair-secret f now draw role subject s = elim (Option-cases draw.raw) [
    | inl e ↦ ground arith
    | inr (raw, e) ↦ elim (Option-cases draw.id) [
      | inl n ↦ ground arith
      | inr (id, n) ↦ ground (
        arith,
        insert_refresh_token-secret f id (o.hash raw) subject role (now + operator_refresh_ttl) s,
      )
    ]
  ]

  issue_pair-principals :
      (f : Faults) (now : ℕ) (draw : Draw) (role subject : String) (s : Store)
      → (issue_pair o.issue o.hash o.encode o.decode f now draw role subject s).0.principals
        ≡ s.principals
  issue_pair-principals f now draw role subject s = elim (Option-cases draw.raw) [
    | inl e ↦ ground arith
    | inr (raw, e) ↦ elim (Option-cases draw.id) [
      | inl n ↦ ground arith
      | inr (id, n) ↦ ground (
        arith,
        insert_refresh_token-principals f id (o.hash raw) subject role (now + operator_refresh_ttl)
            s,
      )
    ]
  ]

  -- What a set-up that is granted has done.
  pub record Founded (f : Faults) (secret token : String) (s v : Store) : Type 0 where
    pub proved : s.bootstrap_token ≡ some secret
    pub given : str_eq secret "" ≡ false
    pub user : GithubUser
    pub identified : first_admin o.issue o.hash o.encode o.decode o.verify o.github token ≡ ok user
    pub first : Principal
    pub made : find (has_principal user.id) v.principals ≡ some first
    pub named : first.github_login ≡ user.login
    pub is_admin : first.is_admin ≡ true
    pub is_operator : first.is_operator ≡ true
    pub spent : f delete_secret ≡ false → v.bootstrap_token ≡ none

  granted-store :
      (f : Faults) (now : ℕ) (draw : Draw) (user : GithubUser) (s v : Store) (a b : String)
      → bootstrap_granted o.issue o.hash o.encode o.decode f now draw user (s, ok tt)
        ≡ (v, pair a b)
      → (v.principals ≡ s.principals) × (f delete_secret ≡ false → v.bootstrap_token ≡ none)
  granted-store f now draw user s v a b g =
      let c = consume_bootstrap_token o.issue o.hash o.encode o.decode f s in
      (
        ground (arith, g, issue_pair-principals f now draw admin user.login c),
        λ d. ground (arith, g, d, issue_pair-secret f now draw admin user.login c),
      )

  bootstrap_as-Founded :
      (f : Faults) (now : ℕ) (draw : Draw) (user : GithubUser) (s v : Store) (a b : String)
      → bootstrap_as o.issue o.hash o.encode o.decode f now draw (ok user) s ≡ (v, pair a b)
      → (p : Principal) × (find (has_principal user.id) v.principals ≡ some p)
        × (p.github_login ≡ user.login)
        × (p.is_admin ≡ true)
        × (p.is_operator ≡ true)
        × (f delete_secret ≡ false → v.bootstrap_token ≡ none)
  bootstrap_as-Founded f now draw user s v a b g =
      let (s1, r1) = upsert_principal f user.id user.login s in
      let (s2, r2) = set_admin f user.id true s1 in
      let (s3, r3) = set_operator f user.id true s2 in
      elim (Result-cases r1) [
        | inr (x, e1) ↦ ground arith
        | inl (p, e1) ↦ elim (Result-cases r2) [
          | inr (x, e2) ↦ ground arith
          | inl (u, e2) ↦ elim (Result-cases r3) [
            | inr (x, e3) ↦ ground arith
            | inl (w, e3) ↦
                let (at, named) = upsert_principal-found f user.id user.login s p e1 in
                let here = find-holds (has_principal user.id) p s1.principals at in
                let at2 =
                  set_admin-found f (has_principal user.id) user.id true p s1 (λ x. refl) at here
                    e2 in
                let at3 =
                  set_operator-found f (has_principal user.id) user.id true
                    (record p { is_admin = true }) s2 (λ x. refl) at2 here e3 in
                let (same, spent) =
                  granted-store f now draw user s3 v a b (ground (arith, g, e1, e2, e3)) in
                (
                  record p { is_admin = true; is_operator = true },
                  ap (find (has_principal user.id)) same ∙ at3,
                  named,
                  refl,
                  refl,
                  spent,
                )
          ]
        ]
      ]

  first_admin-denied :
      (token : String) (reply : Reply) (a b : String)
      → first_admin o.issue o.hash o.encode o.decode o.verify o.github token ≡ err reply
      → reply ≢ pair a b
  unfolding first_admin
  first_admin-denied token reply a b e same = ground arith

  -- If HandleBootstrap returns tokens, the secret that was sent is not empty and is the stored one,
  -- the identity is the one that first_admin accepts, the table then has a principal of that id and
  -- login that is both an admin and an operator, and the stored secret is gone if its deletion
  -- works.
  pub bootstrap-Founded :
      (f : Faults) (now : ℕ) (draw : Draw) (secret token : String) (s v : Store) (a b : String)
      → bootstrap o.issue o.hash o.encode o.decode o.verify o.github f now draw secret token s
        ≡ (v, pair a b)
      → Founded f secret token s v
  unfolding bootstrap
  bootstrap-Founded f now draw secret token s v a b g =
      elim (Option-cases (get_bootstrap_token f s)) [
        | inl n ↦ ground arith
        | inr (expected, n) ↦
            elim (Result-cases
              (first_admin o.issue o.hash o.encode o.decode o.verify o.github token)) [
                | inr (reply, e) ↦ absurd (first_admin-denied token reply a b e (ground arith))
                | inl (user, e) ↦
                    let (p, made, named, ad, op, spent) =
                      bootstrap_as-Founded f now draw user s v a b (ground (arith, g, n, e)) in
                    record {
                      proved = ground (arith, eq_iff secret expected);
                      given = ground arith;
                      user = user;
                      identified = e;
                      first = p;
                      made = made;
                      named = named;
                      is_admin = ad;
                      is_operator = op;
                      spent = spent;
                    }
              ]
      ]

  -- Once a set-up has returned tokens and the deletion of the secret has worked, every later set-up
  -- changes nothing and is refused with 401, with any secret and after any run of requests.
  pub bootstrap_once :
      (f f' : Faults) (now now' : ℕ) (draw draw' : Draw) (secret secret' token token' : String)
      (s v : Store) (a b : String) (rs : List Request)
      → bootstrap o.issue o.hash o.encode o.decode o.verify o.github f now draw secret token s
        ≡ (v, pair a b)
      → f delete_secret ≡ false
      → bootstrap o.issue o.hash o.encode o.decode o.verify o.github f' now' draw' secret' token'
          (run o rs v)
        ≡ (run o rs v, denied 401 "invalid_bootstrap_token")
  unfolding bootstrap Consumed
  bootstrap_once f f' now now' draw draw' secret secret' token token' s v a b rs g d =
      let founded = bootstrap-Founded f now draw secret token s v a b g in
      let gone =
        run-kept o Consumed (λ new. Unit) Consumed-Keeps rs v (drawn-any o.hash rs)
          (founded.spent d) in
      ground (arith, gone)
