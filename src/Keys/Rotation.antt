-- ===== src/Keys/Rotation.antt =====
-- Deploy tokens before and after a rotation of the keys.
use morsel.Prelude.{
  ◌≡◌, ◌≢◌, refl, sym, ap, subst, false, List, [], ◌∷◌, ◌++◌, All, All-append, none, some, String,
  str_ne, arith, Bool-cases, ok, Result-cases, Option-cases, inl, inr,
}
use morsel.Keys.Arrays.{
  Key, Vault, get_secret, Faults, KeyJson, deploy_signing_key_name, ensure_key, get_key_array,
  rotate_key,
}
use morsel.Keys.Tokens.{
  Jwt, create_deploy_token, verify_deploy_token, verify_with, sign_with, try_keys,
}
use morsel.Keys.Provision.{Stored, ReadsBack, ensure_key-Grown, rotate_key-Stored}

module _ (json : KeyJson) (jwt : Jwt) where
  -- The key that a token is signed with, the first of the array that is stored then.
  abbrev pub SignedBy : Key → String → String → Vault → Type 0
  SignedBy key repository token u =
      (rest : List Key) × Stored json deploy_signing_key_name (key ∷ rest) u
      × (jwt.sign key repository ≡ some token)

  create_deploy_token-SignedBy :
      (f : Faults) (repository token : String) (keys : List Key) (v u : Vault)
      → ReadsBack json
      → Stored json deploy_signing_key_name keys v
      → create_deploy_token json jwt f repository v ≡ (u, ok token)
      → (key : Key) × SignedBy key repository token u
  unfolding create_deploy_token
  create_deploy_token-SignedBy f repository token keys v u back s e =
      elim (Result-cases (ensure_key json f deploy_signing_key_name v).1) [
        | inr (x, r) ↦ ground (arith, e, r)
        | inl (all, r) ↦
            let w = (ensure_key json f deploy_signing_key_name v).0 in
            let step : ensure_key json f deploy_signing_key_name v ≡ (w, ok all) =
              ap (λ x. (w, x)) r in
            let ((stored, more), enough) =
              ensure_key-Grown json f deploy_signing_key_name keys all v w back s step in
            let signed : sign_with json jwt all repository w ≡ (u, ok token) =
              ground (arith, e, r) in
            go all w stored signed
      ]
    where
      go :
          (all : List Key) (w : Vault)
          → Stored json deploy_signing_key_name all w
          → sign_with json jwt all repository w ≡ (u, ok token)
          → (key : Key) × SignedBy key repository token u
      go [] w stored signed = ground (arith, signed)
      go (key ∷ rest) w stored signed = elim (Option-cases (jwt.sign key repository)) [
        | inl n ↦ ground (arith, signed, n)
        | inr (t, n) ↦
            let same : w ≡ u = ground (arith, signed, n) in
            (
              key,
              (
                rest,
                subst (Stored json deploy_signing_key_name (key ∷ rest)) same stored,
                ground (arith, signed, n),
              ),
            )
      ]

  -- If a token that is signed with a key has its repository as the claim by that key, a deploy
  -- token that CreateDeployToken has returned for a repository of a name is verified to that
  -- repository, where the keys can be read.
  pub deploy_token_verifies :
      (f g : Faults) (repository token : String) (keys : List Key) (v u : Vault)
      → ReadsBack json
      → ((key : Key) (repo text : String)
          → jwt.sign key repo ≡ some text
          → jwt.parse key text ≡ some repo)
      → repository ≢ ""
      → Stored json deploy_signing_key_name keys v
      → create_deploy_token json jwt f repository v ≡ (u, ok token)
      → g get_secret ≡ false
      → (verify_deploy_token json jwt g token u).1 ≡ ok repository
  unfolding verify_deploy_token try_keys get_key_array
  deploy_token_verifies f g repository token keys v u back trip named s e works =
      let (key, (rest, stored, signed)) =
        create_deploy_token-SignedBy f repository token keys v u back s e in
      ground (arith, works, stored, trip key repository token signed, str_ne repository "" named)

  try_keys-none :
      (keys : List Key) (token : String)
      → All (λ k. jwt.parse k token ≡ none) keys
      → try_keys json jwt keys token ≡ none
  unfolding try_keys
  try_keys-none [] token h = refl
  try_keys-none (k ∷ keys) token (here, there) =
      ground (arith, here, try_keys-none keys token there)

  verify_with-refused :
      (keys : List Key) (token slug : String) (v : Vault)
      → try_keys json jwt keys token ≡ none
      → (verify_with json jwt keys token v).1 ≢ ok slug
  verify_with-refused [] token slug v h e = ground (arith, e)
  verify_with-refused (k ∷ keys) token slug v h e = ground (arith, h, e)

  -- A deploy token that CreateDeployToken has returned is refused for every repository after the
  -- next rotation of the deploy keys, if neither the other keys of the array at the time of the
  -- rotation nor the new key that this adds accept it.
  pub rotation_invalidates :
      (f g h : Faults) (repository token slug : String) (keys all : List Key) (v u w : Vault)
      → ReadsBack json
      → Stored json deploy_signing_key_name keys v
      → create_deploy_token json jwt f repository v ≡ (u, ok token)
      → rotate_key json g deploy_signing_key_name u ≡ (w, ok all)
      → ((key new : Key) (rest base : List Key)
          → SignedBy key repository token u
          → Stored json deploy_signing_key_name (key ∷ rest) u
          → all ≡ base ++ new ∷ []
          → All (λ k. jwt.parse k token ≡ none) (new ∷ rest))
      → (verify_deploy_token json jwt h token w).1 ≢ ok slug
  unfolding verify_deploy_token get_key_array
  rotation_invalidates f g h repository token slug keys all v u w back s e r dead accepted =
      let (key, (rest, stored, signed)) =
        create_deploy_token-SignedBy f repository token keys v u back s e in
      let (kept, (new, whole)) =
        rotate_key-Stored json g deploy_signing_key_name (key ∷ rest) all u w back stored r in
      let refused : try_keys json jwt all token ≡ none = try_keys-none all token (
        subst (All (λ k. jwt.parse k token ≡ none)) (sym whole) (
          All-append (λ k. jwt.parse k token ≡ none) rest (new ∷ [])
            (dead key new rest rest (rest, stored, signed) stored whole).1
            ((dead key new rest rest (rest, stored, signed) stored whole).0, tt))) in
      elim (Bool-cases (h get_secret)) [
        | inl b ↦ ground (arith, b, accepted)
        | inr b ↦ verify_with-refused all token slug w refused (ground (arith, b, kept, accepted))
      ]
