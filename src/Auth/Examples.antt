-- ===== src/Auth/Examples.antt =====
-- The theorems on tokens and roles at concrete stores and requests.
use morsel.Prelude.{
  ℕ, ◌<◌, ◌≡◌, ◌≢◌, refl, Bool, true, false, ◌&&◌, List, [], ◌∷◌, Option, none, some, String,
  str_eq, str_append, if◌then◌else◌, pos, arith, eq_iff, ◌==◌, ap, sym,
}
use morsel.Auth.Claims.{Claims, admin, create_admin_api_claims}
use morsel.Auth.Tables.{Principal, RefreshToken, Store, Faults, same_id, get_refresh_token_by_hash}
use morsel.Auth.Refresh.{denied, pair, listed, access, identity, token_refresh, token_deploy}
use morsel.Auth.Login.{Draw, GithubUser, github_auth, bootstrap}
use morsel.Auth.Principals.{patch_principal}
use morsel.Auth.Requests.{Request, removes, patches, Outside, run}
use morsel.Auth.Access.{repo_slug}
use morsel.Auth.Race.{refresh_race}
use morsel.Auth.Claims.{create_operator_claims}
use morsel.Auth.Refresh.{renew, issue_token, claims_for}
use morsel.Auth.Replay.{refresh_single_use}
use morsel.Auth.WellFormed.{WellFormed}
use morsel.Auth.Unique.{Tokens, Persons, same_id-eq}
use morsel.Auth.Roles.{demoted_no_refresh}
use morsel.Auth.Setup.{Founded, bootstrap-Founded, bootstrap_once}
use morsel.Auth.Scope.{Opens, Whole, deploy_token_scope, identity_token_scope}

abbrev hash : List ℕ → String
hash [] = "h"
hash (n ∷ rest) = if n == 1 then "h1" else if n == 2 then "h2" else "h3"

abbrev encode : List ℕ → String
encode [] = "t"
encode (n ∷ rest) = if n == 1 then "t1" else if n == 2 then "t2" else "t3"

abbrev decode : String → Option (List ℕ)
decode text =
    if str_eq text "t1" then some (1 ∷ []) else if str_eq text "t2" then some (2 ∷ []) else none

abbrev issue : Claims → Option String
issue c = some (str_append c.role (str_append "/" c.subject))

abbrev root_claims : Claims
root_claims = record {
  subject = "root";
  issued_at = 0;
  expires_at = 900000000000;
  repo = "";
  role = admin;
  github_id = pos 0;
}

abbrev ann_claims : Claims
ann_claims = record {
  subject = "ann";
  issued_at = 0;
  expires_at = 300000000000;
  repo = "";
  role = "bootstrap_id";
  github_id = pos 7;
}

abbrev deploy_claims : Claims
deploy_claims = record {
  subject = "repo:acme/shop";
  issued_at = 0;
  expires_at = 600000000000;
  repo = "acme/shop";
  role = "developer";
  github_id = pos 0;
}

abbrev verify : String → Option Claims
verify text =
    if str_eq text "admin/root"
    then some root_claims
    else if str_eq text "bootstrap_id/ann"
    then some ann_claims
    else if str_eq text "developer/repo:acme/shop"
    then some deploy_claims
    else none

abbrev fetch : String → Option GithubUser
fetch token = if str_eq token "gh-ann" then some (record { id = pos 7; login = "ann" }) else none

abbrev outside : Outside
outside = record {
  issue = issue;
  verify = verify;
  hash = hash;
  encode = encode;
  decode = decode;
  fetch = fetch;
  github = true;
  trim = λ s. s;
}

abbrev works : Faults
works p = false

abbrev root : Principal
root = record { github_id = pos 1; github_login = "root"; is_operator = true; is_admin = true }

abbrev ann : Principal
ann = record { github_id = pos 7; github_login = "ann"; is_operator = true; is_admin = false }

abbrev ann_token : RefreshToken
ann_token = record {
  id = "r1";
  token_hash = "h1";
  subject = "ann";
  role = "operator";
  expires_at = 50;
  revoked_at = none;
}

abbrev running : Store
running = record {
  principals = root ∷ ann ∷ [];
  refresh_tokens = ann_token ∷ [];
  bootstrap_token = none;
}

abbrev renewed : Store
renewed = record running {
  refresh_tokens = record ann_token { token_hash = "h2"; expires_at = 7776000000000010 } ∷ [];
}

abbrev demoted : Store
demoted = record running { principals = root ∷ record ann { is_operator = false } ∷ [] }

abbrev fresh_install : Store
fresh_install = record { principals = []; refresh_tokens = []; bootstrap_token = some "boot" }

abbrev installed : Store
installed = record {
  principals = record ann { is_admin = true } ∷ [];
  refresh_tokens = record ann_token { role = "admin"; expires_at = 7776000000000000 } ∷ [];
  bootstrap_token = none;
}

abbrev draw : Draw
draw = record { id = some "r1"; raw = some (1 ∷ []) }

-- The patch that takes both flags of ann, and then a login that is not known.
abbrev others : List Request
others =
    patches works "admin/root" "ann" (some (some false, some false))
    ∷ removes works (some root_claims) "bob"
    ∷ []

running-WellFormed : WellFormed running
unfolding WellFormed Tokens Persons
running-WellFormed = ((refl, tt), (refl, (refl, tt)))

exchange :
    token_refresh issue hash encode decode works 10 (some (2 ∷ [])) "t1" running
    ≡ (renewed, pair "operator/ann" "t2")
unfolding token_refresh
exchange = refl

refresh_single_use_example :
    token_refresh issue hash encode decode works 20 none "t1" (run outside others renewed)
    ≡ (run outside others renewed, denied 401 "invalid_token")
refresh_single_use_example =
    refresh_single_use outside works works 10 20 (1 ∷ []) (2 ∷ []) none "t1" "operator/ann" "t2"
      running renewed others exchange refl running-WellFormed (ground (arith, eq_iff "h2" "h1"))
      (tt, (tt, tt))

found : get_refresh_token_by_hash "h1" running.refresh_tokens ≡ some ann_token
unfolding get_refresh_token_by_hash
found = refl

signed :
    issue_token issue hash encode decode works (claims_for 11 "operator" "ann")
    ≡ some "operator/ann"
unfolding create_operator_claims
signed = refl

-- The second exchange has read the row of ann before the first wrote it.
refresh_race_example :
    (renew issue hash encode decode works 11 (some (3 ∷ [])) "operator" ann_token renewed).1
    ≡ pair "operator/ann" "t3"
refresh_race_example =
    refresh_race issue hash encode decode works works 10 11 (2 ∷ []) (3 ∷ []) (1 ∷ []) "t1"
      "operator/ann" "t2" "operator/ann" "operator" ann_token running renewed exchange refl found
      signed refl refl

patched :
    patch_principal verify works "admin/root" "ann" (some (some false, some false)) running
    ≡ (demoted, listed demoted.principals)
unfolding patch_principal
patched = refl

demoted_no_refresh_example :
    token_refresh issue hash encode decode works 10 (some (2 ∷ [])) "t1" demoted
    ≢ (renewed, pair "operator/ann" "t2")
unfolding get_refresh_token_by_hash
demoted_no_refresh_example =
    demoted_no_refresh verify works "admin/root" "ann" running demoted demoted.principals issue hash
      encode decode works 10 (some (2 ∷ [])) "t1" (1 ∷ []) ann_token renewed "operator/ann" "t2"
      patched refl refl refl

set_up :
    bootstrap issue hash encode decode verify true works 0 draw "boot" "bootstrap_id/ann"
      fresh_install
    ≡ (installed, pair "admin/ann" "t1")
unfolding bootstrap create_admin_api_claims
set_up = refl

bootstrap-Founded_example : Founded outside works "boot" "bootstrap_id/ann" fresh_install installed
bootstrap-Founded_example =
    bootstrap-Founded outside works 0 draw "boot" "bootstrap_id/ann" fresh_install installed
      "admin/ann" "t1" set_up

bootstrap_once_example :
    bootstrap issue hash encode decode verify true works 5 draw "boot" "bootstrap_id/ann"
      (run outside others installed)
    ≡ (run outside others installed, denied 401 "invalid_bootstrap_token")
bootstrap_once_example =
    bootstrap_once outside works works 0 5 draw draw "boot" "boot" "bootstrap_id/ann"
      "bootstrap_id/ann" fresh_install installed "admin/ann" "t1" others set_up refl

-- A signing that has a text for one claim only.
abbrev signs : Claims → Claims → Bool
signs a c =
    str_eq c.subject a.subject
    && str_eq c.repo a.repo
    && str_eq c.role a.role
    && (c.issued_at == a.issued_at)
    && (c.expires_at == a.expires_at)
    && same_id c.github_id a.github_id

abbrev sign : Claims → String → Claims → Option String
sign a text c = if signs a c then some text else none

same_claims : (a c : Claims) → signs a c ≡ true → c ≡ a
same_claims a c e = ground (
  arith,
  e,
  eq_iff c.subject a.subject,
  eq_iff c.repo a.repo,
  eq_iff c.role a.role,
  same_id-eq c.github_id a.github_id,
)

chosen :
    (b : Bool) (text : String)
    → ◌≡◌ {A = Option String} (if b then some text else none) (some text)
    → b ≡ true
chosen true text e = refl
chosen false text e = ground arith

signed-same : (a c : Claims) (text : String) → sign a text c ≡ some text → c ≡ a
signed-same a c text e = same_claims a c (chosen (signs a c) text e)

sign-verify_deploy :
    (c : Claims)
    → Whole c
    → 1 < c.expires_at
    → sign deploy_claims "developer/repo:acme/shop" c ≡ some "developer/repo:acme/shop"
    → (str_eq "developer/repo:acme/shop" "" ≡ false) × (verify "developer/repo:acme/shop" ≡ some c)
sign-verify_deploy c whole live e =
    (refl, ap some (sym (signed-same deploy_claims c "developer/repo:acme/shop" e)))

sign-verify_identity :
    (c : Claims)
    → Whole c
    → 1 < c.expires_at
    → sign ann_claims "bootstrap_id/ann" c ≡ some "bootstrap_id/ann"
    → (str_eq "bootstrap_id/ann" "" ≡ false) × (verify "bootstrap_id/ann" ≡ some c)
sign-verify_identity c whole live e =
    (refl, ap some (sym (signed-same ann_claims c "bootstrap_id/ann" e)))

abbrev platform : String → Option String
platform token = if str_eq token "oidc" then some "acme/shop" else none

deployed :
    token_deploy
      (sign deploy_claims "developer/repo:acme/shop")
      hash
      encode
      decode
      platform
      works
      0
      "oidc"
    ≡ access "developer/repo:acme/shop"
unfolding token_deploy
deployed = refl

deploy_token_scope_example :
    (slug : String) × (platform "oidc" ≡ some slug)
    × Opens verify "developer/repo:acme/shop" (λ org repo. slug ≡ repo_slug org repo)
deploy_token_scope_example =
    deploy_token_scope (sign deploy_claims "developer/repo:acme/shop") hash encode decode verify
      platform works 0 1 "oidc" "developer/repo:acme/shop" (omega arith) sign-verify_deploy deployed

identified :
    github_auth
      (sign ann_claims "bootstrap_id/ann")
      hash
      encode
      decode
      fetch
      works
      0
      draw
      (some "gh-ann")
      fresh_install
    ≡ (fresh_install, identity "bootstrap_id/ann")
unfolding github_auth
identified = refl

identity_token_scope_example : Opens verify "bootstrap_id/ann" (λ org repo. Unit)
identity_token_scope_example =
    identity_token_scope (sign ann_claims "bootstrap_id/ann") hash encode decode verify fetch works
      0 1 draw "gh-ann" "bootstrap_id/ann" fresh_install fresh_install (omega arith)
      sign-verify_identity identified
