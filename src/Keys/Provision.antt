-- ===== src/Keys/Provision.antt =====
-- What is stored once a key array has been provisioned or rotated.
use morsel.Prelude.{
  ℕ, zero, suc, ◌+◌, ◌≤◌, ◌≡◌, refl, ap, ◌∙◌, List, [], ◌∷◌, ◌++◌, Option, none, some, String,
  length, ltb, length-append, arith, Option-cases, lookup, insert, lookup-insert, eq_refl, ok,
  Result-cases, Bool-cases, inl, inr,
}
use morsel.Keys.Arrays.{
  Key, Vault, set_secret, Faults, KeyJson, parse_keys, rest_of, get_key_array, set_key_array,
  generate_key, append_new_key, append_missing, ensure_key, rotate_key,
}

append_nil : (keys : List Key) → keys ≡ keys ++ []
append_nil [] = refl
append_nil (k ∷ keys) = ap (λ (l : List Key). k ∷ l) (append_nil keys)

append_one :
    (keys : List Key) (key : Key) (more : List Key)
    → (keys ++ key ∷ []) ++ more ≡ keys ++ key ∷ more
append_one [] key more = refl
append_one (k ∷ keys) key more = ap (λ (l : List Key). k ∷ l) (append_one keys key more)

module _ (json : KeyJson) where
  -- The keys that a name has in the store.
  abbrev pub Stored : String → List Key → Vault → Type 0
  Stored name keys v = parse_keys json (lookup name v.secrets) ≡ ok keys

  -- What is marshalled is read back.
  abbrev pub ReadsBack : Type 0
  ReadsBack =
      (keys : List Key) (raw : List ℕ)
      → json.marshal_keys keys ≡ some raw
      → json.unmarshal_keys raw ≡ some keys

  -- The array has grown by one key.
  pub append_new_key-Stored :
      (f : Faults) (name : String) (base keys : List Key) (v u : Vault)
      → ReadsBack
      → append_new_key json f name base v ≡ (u, ok keys)
      → Stored name keys u × ((key : Key) × (keys ≡ base ++ key ∷ []))
  unfolding append_new_key generate_key set_key_array
  append_new_key-Stored f name base keys v u back e = go v.draws refl
    where
      go :
          (draws : List (Option Key))
          → v.draws ≡ draws
          → Stored name keys u × ((key : Key) × (keys ≡ base ++ key ∷ []))
      go [] d = ground (arith, d, e)
      go (none ∷ rest) d = ground (arith, d, e)
      go (some key ∷ rest) d = elim (Option-cases (json.marshal_keys (base ++ key ∷ []))) [
        | inl n ↦ ground (arith, d, n, e)
        | inr (raw, m) ↦ elim (Bool-cases (f (set_secret (length (base ++ key ∷ []))))) [
          | inl b ↦ ground (arith, d, m, b, e)
          | inr b ↦
              let same : keys ≡ base ++ key ∷ [] = ground (arith, d, m, b, e) in
              let written : u.secrets ≡ insert name raw v.secrets = ground (arith, d, m, b, e) in
              (
                ground (
                  arith,
                  written,
                  lookup-insert name name raw v.secrets,
                  eq_refl name,
                  back (base ++ key ∷ []) raw m,
                  same,
                ),
                (key, same),
              )
        ]
      ]

  -- The array that is there, with keys at its end.
  abbrev pub Grown : String → List Key → List Key → Vault → Type 0
  Grown name keys all u = Stored name all u × ((more : List Key) × (all ≡ keys ++ more))

  append_missing-Grown :
      (n : ℕ) (f : Faults) (name : String) (keys all : List Key) (v u : Vault)
      → ReadsBack
      → Stored name keys v
      → 2 ≤ length keys + n
      → append_missing json n f name keys v ≡ (u, ok all)
      → Grown name keys all u × (2 ≤ length all)
  unfolding append_missing
  append_missing-Grown zero f name keys all v u back s bound e =
      ((ground (arith, s, e), ([], ground (arith, e, append_nil keys))), ground (arith, e, bound))
  append_missing-Grown (suc n) f name keys all v u back s bound e =
      elim (Bool-cases (ltb (length keys) 2)) [
        | inr b ↦ (
          (ground (arith, s, e, b), ([], ground (arith, e, b, append_nil keys))),
          ground (arith, e, b),
        )
        | inl b ↦ elim (Result-cases (append_new_key json f name keys v).1) [
          | inr (x, r) ↦ ground (arith, e, b, r)
          | inl (next, r) ↦
              let w = (append_new_key json f name keys v).0 in
              let step : append_new_key json f name keys v ≡ (w, ok next) = ap (λ x. (w, x)) r in
              let (stored, (key, longer)) = append_new_key-Stored f name keys next v w back step in
              let onward : append_missing json n f name next w ≡ (u, ok all) =
                ground (arith, e, b, r) in
              let size : 2 ≤ length next + n = ground (
                arith,
                bound,
                ap (λ (l : List Key). length l) longer,
                length-append keys (key ∷ []),
              ) in
              let ((kept, (more, whole)), enough) =
                append_missing-Grown n f name next all w u back stored size onward in
              (
                (
                  kept,
                  (
                    key ∷ more,
                    whole ∙ ap (λ (l : List Key). l ++ more) longer ∙ append_one keys key more,
                  ),
                ),
                enough,
              )
        ]
      ]

  get_key_array-Stored :
      (f : Faults) (name : String) (keys : List Key) (v u : Vault)
      → get_key_array json f name v ≡ (u, ok keys)
      → (u ≡ v) × Stored name keys v
  unfolding get_key_array
  get_key_array-Stored f name keys v u e = (ground (arith, e), ground (arith, e))

  -- An array that EnsureSigningKey returns is stored, has at least two keys and those before in front.
  pub ensure_key-Grown :
      (f : Faults) (name : String) (keys all : List Key) (v u : Vault)
      → ReadsBack
      → Stored name keys v
      → ensure_key json f name v ≡ (u, ok all)
      → Grown name keys all u × (2 ≤ length all)
  unfolding ensure_key get_key_array
  ensure_key-Grown f name keys all v u back s e =
      append_missing-Grown 2 f name keys all v u back s (omega arith) (ground (arith, e, s))

  -- An array that a rotation returns is stored, and has lost its first key and gained one at its end.
  pub rotate_key-Stored :
      (f : Faults) (name : String) (keys all : List Key) (v u : Vault)
      → ReadsBack
      → Stored name keys v
      → rotate_key json f name v ≡ (u, ok all)
      → Stored name all u × ((key : Key) × (all ≡ rest_of keys ++ key ∷ []))
  unfolding rotate_key get_key_array
  rotate_key-Stored f name keys all v u back s e =
      append_new_key-Stored f name (rest_of keys) all v u back (ground (arith, e, s))
