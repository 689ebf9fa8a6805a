-- ===== src/Auth/Requests.antt =====
-- The requests that change the tables of principals and tokens, one after another.
use morsel.Prelude.{ℕ, Bool, List, [], ◌∷◌, Option, none, String}
use morsel.Auth.Claims.{Claims}
use morsel.Auth.Tables.{Store, Faults}
use morsel.Auth.Refresh.{Reply, token_refresh}
use morsel.Auth.Login.{Draw, GithubUser, github_auth, bootstrap}
use morsel.Auth.Principals.{add_operator, remove_principal, patch_principal}

pub data Request : Type 0 where
  refreshes : Faults → ℕ → Option (List ℕ) → String → Request
  logins : Faults → ℕ → Draw → Option String → Request
  bootstraps : Faults → ℕ → Draw → String → String → Request
  adds removes : Faults → Option Claims → String → Request
  patches : Faults → String → String → Option (Option Bool × Option Bool) → Request

-- What comes from outside: the signing and its check, the hash of a token and its text form, GitHub,
-- whether that is configured, and the trimming of a text.
pub record Outside : Type 0 where
  pub issue : Claims → Option String
  pub verify : String → Option Claims
  pub hash : List ℕ → String
  pub encode : List ℕ → String
  pub decode : String → Option (List ℕ)
  pub fetch : String → Option GithubUser
  pub github : Bool
  pub trim : String → String

module _ (o : Outside) where
  unfoldable pub serve : Request → Store → Store × Reply
  unfolding token_refresh github_auth bootstrap add_operator remove_principal patch_principal
  serve (refreshes f now fresh token) =
      token_refresh o.issue o.hash o.encode o.decode f now fresh token
  serve (logins f now draw token) =
      github_auth o.issue o.hash o.encode o.decode o.fetch f now draw token
  serve (bootstraps f now draw secret token) =
      bootstrap o.issue o.hash o.encode o.decode o.verify o.github f now draw secret token
  serve (adds f claims login) = add_operator o.trim f claims login
  serve (removes f claims login) = remove_principal f claims login
  serve (patches f token login body) = patch_principal o.verify f token login body

  unfoldable pub run : List Request → Store → Store
  unfolding serve
  run [] s = s
  run (r ∷ rest) s = run rest (serve r s).0

-- The bytes that a request has drawn for a new refresh token.
abbrev pub drawn : Request → Option (List ℕ)
drawn (refreshes f now fresh token) = fresh
drawn (logins f now draw token) = draw.raw
drawn (bootstraps f now draw secret token) = draw.raw
drawn _ = none
