-- ===== src/Keys/Works.antt =====
-- EnsureSigningKey provisions the keys, where what it calls works.
use morsel.Prelude.{
  ℕ, zero, suc, ◌≤◌, ◌≡◌, refl, false, List, [], ◌∷◌, ◌++◌, Option, none, some, String, length, ltb,
  arith, Assoc, insert, ok, Bool-cases, inl, inr,
}
use morsel.Keys.Arrays.{
  Key, Vault, get_secret, set_secret, Faults, KeyJson, get_key_array, set_key_array, generate_key,
  append_new_key, append_missing, ensure_key,
}
use morsel.Keys.Provision.{Stored, ReadsBack, Grown, ensure_key-Grown}

module _ (json : KeyJson) where
  -- So many draws have worked.
  abbrev pub Drawn : ℕ → List (Option Key) → Type 0
  Drawn zero draws = Unit
  Drawn (suc n) [] = ⊥
  Drawn (suc n) (none ∷ rest) = ⊥
  Drawn (suc n) (some key ∷ rest) = Drawn n rest

  append_new_key-works :
      (f : Faults) (name : String) (base : List Key) (n : ℕ) (v : Vault)
      → ((k : ℕ) → f (set_secret k) ≡ false)
      → ((keys : List Key) → (raw : List ℕ) × (json.marshal_keys keys ≡ some raw))
      → Drawn (suc n) v.draws
      → (u : Vault) × ((all : List Key) × (append_new_key json f name base v ≡ (u, ok all))
          × Drawn n u.draws)
  unfolding append_new_key generate_key set_key_array
  append_new_key-works f name base n v works writes drawn = go v.draws v.secrets drawn
    where
      go :
          (draws : List (Option Key)) (secrets : Assoc (List ℕ))
          → Drawn (suc n) draws
          → (u : Vault) × ((all : List Key) × (append_new_key json f name base
                  (record { secrets = secrets; draws = draws })
                ≡ (u, ok all))
              × Drawn n u.draws)
      go [] secrets d = absurd d
      go (none ∷ rest) secrets d = absurd d
      go (some key ∷ rest) secrets d =
          let all = base ++ key ∷ [] in
          let (raw, m) = writes all in
          let w : Vault = record { secrets = insert name raw secrets; draws = rest } in
          (w, (all, ground (arith, m, works (length all)), d))

  append_missing-works :
      (n : ℕ) (f : Faults) (name : String) (keys : List Key) (v : Vault)
      → ((k : ℕ) → f (set_secret k) ≡ false)
      → ((ks : List Key) → (raw : List ℕ) × (json.marshal_keys ks ≡ some raw))
      → Drawn n v.draws
      → (u : Vault) × ((all : List Key) × (append_missing json n f name keys v ≡ (u, ok all)))
  unfolding append_missing
  append_missing-works zero f name keys v works writes drawn = (v, (keys, refl))
  append_missing-works (suc n) f name keys v works writes drawn =
      elim (Bool-cases (ltb (length keys) 2)) [
        | inr b ↦ (v, (keys, ground (arith, b)))
        | inl b ↦
            let (w, (next, step, drawn_rest)) =
              append_new_key-works f name keys n v works writes drawn in
            let (u, (all, e)) = append_missing-works n f name next w works writes drawn_rest in
            (u, (all, ground (arith, b, step, e)))
      ]

  -- Where the reads and writes of secrets, crypto/rand and the marshalling work and what is
  -- marshalled is read back, EnsureSigningKey returns an array of at least two keys, which is then
  -- the stored one and has the keys that were stored before at its front; its loop needs no more
  -- than two turns.
  pub ensure_key-provisions :
      (f : Faults) (name : String) (keys : List Key) (v : Vault)
      → ReadsBack json
      → f get_secret ≡ false
      → ((k : ℕ) → f (set_secret k) ≡ false)
      → ((ks : List Key) → (raw : List ℕ) × (json.marshal_keys ks ≡ some raw))
      → Drawn 2 v.draws
      → Stored json name keys v
      → (u : Vault) × ((all : List Key) × (ensure_key json f name v ≡ (u, ok all))
          × Grown json name keys all u
          × (2 ≤ length all))
  unfolding ensure_key get_key_array
  ensure_key-provisions f name keys v back reads works writes drawn s =
      let (u, (all, e)) = append_missing-works 2 f name keys v works writes drawn in
      let done : ensure_key json f name v ≡ (u, ok all) = ground (arith, reads, s, e) in
      let (grown, enough) = ensure_key-Grown json f name keys all v u back s done in
      (u, (all, done, grown, enough))
