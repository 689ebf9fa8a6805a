-- ===== src/Auth/Roles.antt =====
-- The role of an exchange is that of the principal's flags: HandlePrincipalPatch and TokenRefresh of
-- internal/api/handler.
use morsel.Prelude.{
  ℕ, ◌≡◌, refl, sym, ap, ◌∙◌, ◌≢◌, Bool, true, false, List, Option, some, String, ℤ, arith,
  Option-cases, Result-cases, inl, inr,
}
use morsel.Auth.Claims.{Claims}
use morsel.Auth.Tables.{
  Principal, RefreshToken, Store, Faults, get_principal_by_login, get_refresh_token_by_hash,
  set_operator, set_admin, same_id, has_login,
}
use morsel.Auth.Refresh.{pair, listed, token_refresh}
use morsel.Auth.Principals.{patch_principal}
use morsel.Auth.Flags.{set_operator-found, set_admin-found}
use morsel.Auth.Grants.{token_refresh-Granted}

same_id_refl : (a : ℤ) → same_id a a ≡ true
same_id_refl a = ground arith

-- The patch that is granted has found a principal, which has the flags then.
pub record Patched (login : String) (op ad : Bool) (s v : Store) : Type 0 where
  pub whose : Principal
  pub known : get_principal_by_login login s.principals ≡ some whose
  pub changed :
      get_principal_by_login login v.principals
      ≡ some (record whose { is_operator = op; is_admin = ad })

pub patch_principal-Patched :
    (verify : String → Option Claims) (f : Faults) (token login : String) (op ad : Bool)
    (s v : Store) (rows : List Principal)
    → patch_principal verify f token login (some (some op, some ad)) s ≡ (v, listed rows)
    → Patched login op ad s v
unfolding patch_principal get_principal_by_login
patch_principal-Patched verify f token login op ad s v rows e =
    elim (Option-cases (get_principal_by_login login s.principals)) [
      | inl n ↦ ground arith
      | inr (p, n) ↦
          let (s1, r1) = set_operator f p.github_id op s in
          let (s2, r2) = set_admin f p.github_id ad s1 in
          elim (Result-cases r1) [
            | inr (x, e1) ↦ ground arith
            | inl (u, e1) ↦ elim (Result-cases r2) [
              | inr (x, e2) ↦ ground arith
              | inl (w, e2) ↦
                  let found =
                    set_operator-found f (has_login login) p.github_id op p s (λ x. refl) n
                      (same_id_refl p.github_id) e1 in
                  record {
                    whose = p;
                    known = n;
                    changed = ground (
                      arith,
                      set_admin-found f (has_login login) p.github_id ad
                          (record p { is_operator = op }) s1 (λ x. refl) found
                          (same_id_refl p.github_id) e2,
                    );
                  }
            ]
          ]
    ]

-- After a patch that takes both flags of a principal and is answered with the list, no exchange of
-- a refresh token whose row bears that login gives a pair of tokens.
pub demoted_no_refresh :
    (verify : String → Option Claims) (f : Faults) (token login : String) (s v : Store)
    (rows : List Principal) (issue : Claims → Option String) (hash : List ℕ → String)
    (encode : List ℕ → String) (decode : String → Option (List ℕ)) (f' : Faults) (now : ℕ)
    (fresh : Option (List ℕ)) (refresh : String) (raw : List ℕ) (t : RefreshToken) (w : Store)
    (a b : String)
    → patch_principal verify f token login (some (some false, some false)) s ≡ (v, listed rows)
    → decode refresh ≡ some raw
    → get_refresh_token_by_hash (hash raw) v.refresh_tokens ≡ some t
    → t.subject ≡ login
    → token_refresh issue hash encode decode f' now fresh refresh v ≢ (w, pair a b)
demoted_no_refresh verify f token login s v rows issue hash encode decode f' now fresh refresh raw t
      w a b patched d at whose granted =
    let p = patch_principal-Patched verify f token login false false s v rows patched in
    let g = token_refresh-Granted issue hash encode decode f' now fresh refresh v w a b granted in
    let same : g.bytes ≡ raw = ground (arith, g.decoded, d) in
    let row : g.row ≡ t = ground (arith, ap hash same, g.stored, at) in
    let subject : g.row.subject ≡ login = ap (λ (x : RefreshToken). x.subject) row ∙ whose in
    let found : some g.whose ≡ some (record p.whose { is_operator = false; is_admin = false }) =
      sym g.known ∙ ap (λ x. get_principal_by_login x v.principals) subject ∙ p.changed in
    ground (arith, found, g.role_now)
