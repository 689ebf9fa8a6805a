-- ===== src/Keys/Tokens.antt =====
-- The deploy tokens of the local platform: CreateDeployToken and VerifyDeployToken of
-- internal/platform/local/secrets.go, of cmd/morsel-ctrl-plane.
use morsel.Prelude.{
  List, [], ◌∷◌, Option, none, some, String, str_eq, if◌then◌else◌, ok, err, ◌>>=◌,
}
use morsel.Keys.Arrays.{
  Key, Faults, M, KeyJson, deploy_signing_key_name, get_key_array, ensure_key, not_provisioned,
  not_signed, invalid_token,
}

-- The library of the tokens: a token with the repository as its claim, and the claim of a token
-- that is valid by the key.
pub record Jwt : Type 0 where
  pub sign : Key → String → Option String
  pub parse : Key → String → Option String

module _ (json : KeyJson) (jwt : Jwt) where
  abbrev pub sign_with : List Key → String → M String
  sign_with [] repository v = (v, err not_provisioned)
  sign_with (key ∷ rest) repository v = elim (jwt.sign key repository) [
    | none ↦ (v, err not_signed)
    | some token ↦ (v, ok token)
  ]

  unfoldable pub create_deploy_token : Faults → String → M String
  unfolding ensure_key
  create_deploy_token f repository =
      ensure_key json f deploy_signing_key_name >>= λ keys. sign_with keys repository

  -- The claim by the first key that accepts the token and finds one.
  unfoldable pub try_keys : List Key → String → Option String
  try_keys [] token = none
  try_keys (key ∷ rest) token =
      let later = try_keys rest token in
      elim (jwt.parse key token) [
        | none ↦ later
        | some repo ↦ if str_eq repo "" then later else some repo
      ]

  abbrev pub verify_with : List Key → String → M String
  verify_with [] token v = (v, err not_provisioned)
  verify_with (key ∷ rest) token v = elim (try_keys (key ∷ rest) token) [
    | none ↦ (v, err invalid_token)
    | some repo ↦ (v, ok repo)
  ]

  unfoldable pub verify_deploy_token : Faults → String → M String
  unfolding get_key_array try_keys
  verify_deploy_token f token =
      get_key_array json f deploy_signing_key_name >>= λ keys. verify_with keys token
