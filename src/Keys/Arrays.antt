-- ===== src/Keys/Arrays.antt =====
-- The arrays of keys that localSecrets keeps in a SecretStore: internal/platform/local/secrets.go of
-- cmd/morsel-ctrl-plane.
use morsel.Prelude.{
  ℕ, zero, suc, Bool, List, [], ◌∷◌, ◌++◌, Option, none, some, String, if◌then◌else◌, length, ltb,
  Assoc, lookup, insert, remove, Result, ok, err, Action, ◌>>=◌, ◌>>◌, pure,
}

abbrev pub Key : Type 0
Key = List ℕ

-- The secrets by their names, and what the next reads of crypto/rand give.
pub record Vault : Type 0 where
  pub secrets : Assoc (List ℕ)
  pub draws : List (Option Key)

-- What may fail: a read, a write of an array of so many keys, a deletion, the text of an array,
-- crypto/rand. Then the refusals of a token.
pub data Fault : Type 0 where
  get_secret delete_secret not_an_array not_marshalled no_random : Fault
  not_provisioned not_signed invalid_token : Fault
  set_secret : ℕ → Fault

abbrev pub Faults : Type 0
Faults = Fault → Bool

abbrev pub M : Type 0 → Type 0
M A = Action Vault Fault A

-- json.Unmarshal into an array of keys and json.Marshal of one.
pub record KeyJson : Type 0 where
  pub unmarshal_keys : List ℕ → Option (List Key)
  pub marshal_keys : List Key → Option (List ℕ)

abbrev pub signing_key_name : String
signing_key_name = "morsel-signing-keys"

abbrev pub deploy_signing_key_name : String
deploy_signing_key_name = "local-deploy-signing-keys"

unfoldable pub generate_key : M Key
generate_key v = elim v.draws [
  | [] ↦ (v, err no_random)
  | none ∷ rest ↦ (record v { draws = rest }, err no_random)
  | some key ∷ rest ↦ (record v { draws = rest }, ok key)
]

abbrev pub rest_of : List Key → List Key
rest_of [] = []
rest_of (oldest ∷ rest) = rest

module _ (json : KeyJson) where
  abbrev pub parse_keys : Option (List ℕ) → Result Fault (List Key)
  parse_keys none = ok []
  parse_keys (some raw) = elim (json.unmarshal_keys raw) [
    | none ↦ err not_an_array
    | some keys ↦ ok keys
  ]

  -- A secret that is not there has no keys.
  unfoldable pub get_key_array : Faults → String → M (List Key)
  get_key_array f name v =
      if f get_secret then (v, err get_secret) else (v, parse_keys (lookup name v.secrets))

  unfoldable pub set_key_array : Faults → String → List Key → M (Unit {0})
  set_key_array f name keys v = elim (json.marshal_keys keys) [
    | none ↦ (v, err not_marshalled)
    | some raw ↦
        if f (set_secret (length keys))
        then (v, err (set_secret (length keys)))
        else (record v { secrets = insert name raw v.secrets }, ok tt)
  ]

  unfoldable pub append_new_key : Faults → String → List Key → M (List Key)
  unfolding generate_key set_key_array
  append_new_key f name base = generate_key >>= λ key.
      let updated = base ++ key ∷ [] in set_key_array f name updated >> pure updated

  -- The loop of EnsureSigningKey, which goes on while there are fewer than two keys.
  unfoldable pub append_missing : ℕ → Faults → String → List Key → M (List Key)
  unfolding append_new_key
  append_missing zero f name keys = pure keys
  append_missing (suc n) f name keys =
      let more = λ (new : List Key). append_missing n f name new in
      if ltb (length keys) 2 then append_new_key f name keys >>= more else pure keys

  unfoldable pub ensure_key : Faults → String → M (List Key)
  unfolding get_key_array append_missing
  ensure_key f name = get_key_array f name >>= append_missing 2 f name

  -- The oldest key, that at index 0, is dropped.
  unfoldable pub rotate_key : Faults → String → M (List Key)
  unfolding get_key_array append_new_key
  rotate_key f name = get_key_array f name >>= λ keys. append_new_key f name (rest_of keys)

  unfoldable pub migrate : Faults → M (Unit {0})
  unfolding ensure_key
  migrate f = ensure_key f signing_key_name >> ensure_key f deploy_signing_key_name >> pure tt

unfoldable pub delete_key : Faults → String → M (Unit {0})
delete_key f name v =
    if f delete_secret
    then (v, err delete_secret)
    else (record v { secrets = remove name v.secrets }, ok tt)
