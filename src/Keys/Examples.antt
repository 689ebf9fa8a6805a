-- ===== src/Keys/Examples.antt =====
-- Keys of two bytes, the tokens signed with them, and the theorems applied.
use morsel.Prelude.{
  ◌++◌, All, ℕ, zero, suc, ◌≤◌, ◌≡◌, ◌≢◌, refl, sym, ap, ◌∙◌, Bool, true, false, ◌&&◌, List, [],
  ◌∷◌, none, some, String, str_eq, if◌then◌else◌, length, arith, ◌==◌, lookup, insert, eq_iff, ok,
}
use morsel.Keys.Arrays.{
  Key, Vault, Faults, KeyJson, deploy_signing_key_name, ensure_key, rotate_key,
}
use morsel.Keys.Tokens.{Jwt, create_deploy_token, verify_deploy_token}
use morsel.Keys.Provision.{Stored, ReadsBack, Grown}
use morsel.Keys.Works.{ensure_key-provisions}
use morsel.Keys.Rotation.{deploy_token_verifies, rotation_invalidates}

-- A byte is written one higher, and a key ends with a zero.
abbrev write_key : Key → List ℕ → List ℕ
write_key [] rest = 0 ∷ rest
write_key (b ∷ key) rest = suc b ∷ write_key key rest

abbrev write : List Key → List ℕ
write [] = []
write (key ∷ keys) = write_key key (write keys)

abbrev push : ℕ → List Key → List Key
push b [] = (b ∷ []) ∷ []
push b (key ∷ keys) = (b ∷ key) ∷ keys

abbrev read : List ℕ → List Key
read [] = []
read (zero ∷ raw) = [] ∷ read raw
read (suc b ∷ raw) = push b (read raw)

read-write_key : (key : Key) (rest : List ℕ) → read (write_key key rest) ≡ key ∷ read rest
read-write_key [] rest = refl
read-write_key (b ∷ key) rest = ap (push b) (read-write_key key rest)

read-write : (keys : List Key) → read (write keys) ≡ keys
read-write [] = refl
read-write (key ∷ keys) =
    read-write_key key (write keys) ∙ ap (λ (l : List Key). key ∷ l) (read-write keys)

abbrev json : KeyJson
json = record { unmarshal_keys = λ raw. some (read raw); marshal_keys = λ keys. some (write keys) }

json-ReadsBack : ReadsBack json
json-ReadsBack keys raw e =
    let same : write keys ≡ raw = ground (arith, e) in
    ap (λ (r : List ℕ). some (read r)) (sym same) ∙ ap (λ (k : List Key). some k) (read-write keys)

-- One token, of the key with the byte one.
abbrev is_one : Key → Bool
is_one [] = false
is_one (b ∷ []) = b == 1
is_one (b ∷ c ∷ key) = false

only_one : (key : Key) → is_one key ≡ true → key ≡ 1 ∷ []
only_one [] h = ground (arith, h)
only_one (b ∷ []) h = ap (λ n. n ∷ []) (ground (arith, h))
only_one (b ∷ c ∷ key) h = ground (arith, h)

abbrev jwt : Jwt
jwt = record {
  sign = λ key repo. if is_one key && str_eq repo "acme/shop" then some "token" else none;
  parse = λ key text. if is_one key && str_eq text "token" then some "acme/shop" else none;
}

jwt_trip :
    (key : Key) (repo text : String)
    → jwt.sign key repo ≡ some text
    → jwt.parse key text ≡ some repo
jwt_trip key repo text e = ground (arith, e, eq_iff repo "acme/shop", eq_iff text "token")

abbrev no_faults : Faults
no_faults x = false

abbrev vault : Vault
vault = record { secrets = []; draws = some (1 ∷ []) ∷ some (2 ∷ []) ∷ some (3 ∷ []) ∷ [] }

none_kept : Stored json deploy_signing_key_name [] vault
unfolding lookup
none_kept = refl

ensure_key-provisions_example :
    (u : Vault) × ((all : List Key) × (ensure_key json no_faults deploy_signing_key_name vault
        ≡ (u, ok all))
      × Grown json deploy_signing_key_name [] all u
      × (2 ≤ length all))
ensure_key-provisions_example =
    ensure_key-provisions json no_faults deploy_signing_key_name [] vault json-ReadsBack refl
      (λ k. refl) (λ ks. (write ks, refl)) tt none_kept

abbrev issued : Vault
issued = (create_deploy_token json jwt no_faults "acme/shop" vault).0

token_issued : create_deploy_token json jwt no_faults "acme/shop" vault ≡ (issued, ok "token")
unfolding create_deploy_token lookup insert
token_issued = refl

named : ◌≢◌ {A = String} "acme/shop" ""
named = ground (arith, eq_iff "acme/shop" "")

deploy_token_verifies_example :
    (verify_deploy_token json jwt no_faults "token" issued).1 ≡ ok "acme/shop"
deploy_token_verifies_example =
    deploy_token_verifies json jwt no_faults no_faults "acme/shop" "token" [] vault issued
      json-ReadsBack jwt_trip named none_kept token_issued refl

abbrev rotated : Vault
rotated = (rotate_key json no_faults deploy_signing_key_name issued).0

keys_rotated :
    rotate_key json no_faults deploy_signing_key_name issued
    ≡ (rotated, ok ((2 ∷ []) ∷ (3 ∷ []) ∷ []))
unfolding rotate_key create_deploy_token lookup insert
keys_rotated = refl

rest_keys :
    (key : Key) (rest : List Key)
    → Stored json deploy_signing_key_name (key ∷ rest) issued
    → rest ≡ (2 ∷ []) ∷ []
unfolding create_deploy_token lookup insert
rest_keys key rest e = ground (arith, e)

last_key :
    (new : Key) (base : List Key)
    → ◌≡◌ {A = List Key} ((2 ∷ []) ∷ (3 ∷ []) ∷ []) (base ++ new ∷ [])
    → new ≡ 3 ∷ []
last_key new [] e = ground (arith, e)
last_key new (x ∷ []) e = ground (arith, e)
last_key new (x ∷ y ∷ []) e = ground (arith, e)
last_key new (x ∷ y ∷ z ∷ base) e = ground (arith, e)

other_keys :
    (key new : Key) (rest base : List Key)
    → Stored json deploy_signing_key_name (key ∷ rest) issued
    → ◌≡◌ {A = List Key} ((2 ∷ []) ∷ (3 ∷ []) ∷ []) (base ++ new ∷ [])
    → All (λ k. jwt.parse k "token" ≡ none) (new ∷ rest)
other_keys key new rest base e whole =
    rw (last_key new base whole, rest_keys key rest e) (refl, (refl, tt))

rotation_invalidates_example :
    (verify_deploy_token json jwt no_faults "token" rotated).1 ≢ ok "acme/shop"
rotation_invalidates_example =
    rotation_invalidates json jwt no_faults no_faults no_faults "acme/shop" "token" "acme/shop" []
      ((2 ∷ []) ∷ (3 ∷ []) ∷ []) vault issued rotated json-ReadsBack none_kept token_issued
      keys_rotated (λ key new rest base signed e whole. other_keys key new rest base e whole)
