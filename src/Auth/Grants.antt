-- ===== src/Auth/Grants.antt =====
-- What a granted exchange of a refresh token rests on.
use morsel.Prelude.{
  ℕ, ◌+◌, ◌≡◌, refl, true, false, List, Option, none, some, String, str_eq, ltb, arith, ok,
  Option-cases, Bool-cases, inl, inr, Result-cases,
}
use morsel.Auth.Claims.{Claims, is_operator_role}
use morsel.Auth.Tables.{
  Principal, RefreshToken, Store, Faults, rotate, rotate_refresh_token, get_principal_by_login,
  get_refresh_token_by_hash,
}
use morsel.Auth.Refresh.{
  pair, operator_refresh_ttl, role_of, claims_for, token_refresh, renew, refresh_for,
  validate_refresh_token,
}

rotate_refresh_token-rotated :
    (f : Faults) (id h : String) (t : ℕ) (s : Store)
    → (rotate_refresh_token f id h t s).1 ≡ ok tt
    → (rotate_refresh_token f id h t s).0
      ≡ record s { refresh_tokens = rotate id h t s.refresh_tokens }
unfolding rotate_refresh_token
rotate_refresh_token-rotated f id h t s e = ground arith

valid-token :
    (now : ℕ) (o : Option RefreshToken) (t : RefreshToken)
    → validate_refresh_token now o ≡ ok t
    → (o ≡ some t)
      × (t.revoked_at ≡ none)
      × (ltb t.expires_at now ≡ false)
      × (is_operator_role t.role ≡ true)
unfolding validate_refresh_token
valid-token now none t e = ground arith
valid-token now (some x) t e = ground arith

module _ (issue : Claims → Option String) (hash : List ℕ → String) (encode : List ℕ → String)
    (decode : String → Option (List ℕ)) where
  -- The claims that are signed, the new token and the row that it stands in.
  pub record Renewed (now : ℕ) (fresh : Option (List ℕ)) (role : String) (t : RefreshToken)
      (s v : Store) (a b : String) : Type 0 where
    pub raw : List ℕ
    pub drawn : fresh ≡ some raw
    pub sent : b ≡ encode raw
    pub signed : issue (claims_for now role t.subject) ≡ some a
    pub store : v ≡ record s {
      refresh_tokens = rotate t.id (hash raw) (now + operator_refresh_ttl) s.refresh_tokens;
    }

  pub renew-Renewed :
      (f : Faults) (now : ℕ) (fresh : Option (List ℕ)) (role : String) (t : RefreshToken)
      (s v : Store) (a b : String)
      → renew issue hash encode decode f now fresh role t s ≡ (v, pair a b)
      → Renewed now fresh role t s v a b
  renew-Renewed f now none role t s v a b e = ground arith
  renew-Renewed f now (some raw) role t s v a b e = record {
    raw = raw;
    drawn = refl;
    sent = ground (arith, e);
    signed = ground (arith, e);
    store =
        ground
          (arith, e, rotate_refresh_token-rotated f t.id (hash raw) (now + operator_refresh_ttl) s);
  }

  -- The row of the token and the principal that the exchange has found, and what it has issued.
  pub record Granted (now : ℕ) (fresh : Option (List ℕ)) (token : String) (s v : Store)
      (a b : String) : Type 0 where
    pub given : str_eq token "" ≡ false
    pub bytes : List ℕ
    pub decoded : decode token ≡ some bytes
    pub row : RefreshToken
    pub stored : get_refresh_token_by_hash (hash bytes) s.refresh_tokens ≡ some row
    pub live : row.revoked_at ≡ none
    pub current : ltb row.expires_at now ≡ false
    pub whose : Principal
    pub known : get_principal_by_login row.subject s.principals ≡ some whose
    pub role : String
    pub role_now : role_of whose ≡ some role
    pub renewed : Renewed now fresh role row s v a b

  refresh_for-Renewed :
      (f : Faults) (now : ℕ) (fresh : Option (List ℕ)) (t : RefreshToken) (o : Option Principal)
      (s v : Store) (a b : String)
      → refresh_for issue hash encode decode f now fresh t o s ≡ (v, pair a b)
      → (p : Principal) × (o ≡ some p)
        × (role : String) × (role_of p ≡ some role)
        × Renewed now fresh role t s v a b
  refresh_for-Renewed f now fresh t none s v a b e = ground arith
  refresh_for-Renewed f now fresh t (some p) s v a b e = elim (Option-cases (role_of p)) [
    | inl n ↦ ground arith
    | inr (role, n) ↦
        (p, refl, role, n, renew-Renewed f now fresh role t s v a b (ground (arith, e, n)))
  ]

  pub token_refresh-Granted :
      (f : Faults) (now : ℕ) (fresh : Option (List ℕ)) (token : String) (s v : Store) (a b : String)
      → token_refresh issue hash encode decode f now fresh token s ≡ (v, pair a b)
      → Granted now fresh token s v a b
  unfolding token_refresh
  token_refresh-Granted f now fresh token s v a b e = elim (Bool-cases (str_eq token "")) [
    | inl x ↦ ground arith
    | inr x ↦ elim (Option-cases (decode token)) [
      | inl n ↦ ground arith
      | inr (raw, n) ↦
          let o = get_refresh_token_by_hash (hash raw) s.refresh_tokens in
          elim (Result-cases (validate_refresh_token now o)) [
            | inr (reply, y) ↦ ground arith
            | inl (t, y) ↦
                let (at, live, current, _) = valid-token now o t y in
                let (p, known, role, role_now, renewed) =
                  refresh_for-Renewed f now fresh t (get_principal_by_login t.subject s.principals)
                    s v a b (ground arith) in
                record {
                  given = x;
                  bytes = raw;
                  decoded = n;
                  row = t;
                  stored = at;
                  live = live;
                  current = current;
                  whose = p;
                  known = known;
                  role = role;
                  role_now = role_now;
                  renewed = renewed;
                }
          ]
    ]
  ]
