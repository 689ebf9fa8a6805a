-- ===== src/Auth/Race.antt =====
-- Two exchanges of one refresh token at the same time: TokenRefresh of internal/api/handler/token.go
-- reads the row and writes it in statements of their own.
use morsel.Prelude.{
  ℕ, ◌+◌, ◌≡◌, refl, ap, ◌∙◌, Bool, true, false, not, ◌&&◌, List, [], ◌∷◌, Option, some, String,
  str_eq, arith, any, eq_refl, ok,
}
use morsel.Auth.Claims.{Claims}
use morsel.Auth.Tables.{
  RefreshToken, Store, Faults, rotate_token, get_refresh_token_by_hash, has_hash, rotate,
  rotate_refresh_token,
}
use morsel.Auth.Refresh.{pair, token_refresh, renew, issue_token, claims_for, operator_refresh_ttl}
use morsel.Auth.Grants.{token_refresh-Granted}

abbrev has_token_id : String → RefreshToken → Bool
has_token_id id t = str_eq t.id id

found-id :
    (h : String) (t : RefreshToken) (rows : List RefreshToken)
    → get_refresh_token_by_hash h rows ≡ some t
    → any (has_token_id t.id) rows ≡ true
unfolding get_refresh_token_by_hash
found-id h t [] e = ground arith
found-id h t (x ∷ rows) e = ground (arith, eq_refl t.id, found-id h t rows)

rotate-id :
    (i id new : String) (u : ℕ) (rows : List RefreshToken)
    → any (has_token_id i) (rotate id new u rows) ≡ any (has_token_id i) rows
rotate-id i id new u [] = refl
rotate-id i id new u (x ∷ rows) = ground (arith, rotate-id i id new u rows)

rotate_refresh_token-present :
    (f : Faults) (id new : String) (u : ℕ) (s : Store)
    → f rotate_token ≡ false
    → any (λ (x : RefreshToken). has_hash new x && not (str_eq x.id id)) s.refresh_tokens ≡ false
    → any (has_token_id id) s.refresh_tokens ≡ true
    → (rotate_refresh_token f id new u s).1 ≡ ok tt
unfolding rotate_refresh_token
rotate_refresh_token-present f id new u s works free there = ground (arith, works, free, there)

module _ (issue : Claims → Option String) (hash : List ℕ → String) (encode : List ℕ → String)
    (decode : String → Option (List ℕ)) where
  -- Exchanges of one token at the same time are not held apart: after an exchange that has returned
  -- a pair of tokens, a second exchange of the same token that had read its row before still
  -- returns a pair, if its claims are signed, its rotation works and its new hash is on no other
  -- row.
  pub refresh_race :
      (f f' : Faults) (now now' : ℕ) (new new' raw : List ℕ) (token a b c role : String)
      (t : RefreshToken) (s v : Store)
      → token_refresh issue hash encode decode f now (some new) token s ≡ (v, pair a b)
      → decode token ≡ some raw
      → get_refresh_token_by_hash (hash raw) s.refresh_tokens ≡ some t
      → issue_token issue hash encode decode f' (claims_for now' role t.subject) ≡ some c
      → f' rotate_token ≡ false
      → any
          (λ (x : RefreshToken). has_hash (hash new') x && not (str_eq x.id t.id))
          v.refresh_tokens
        ≡ false
      → (renew issue hash encode decode f' now' (some new') role t v).1 ≡ pair c (encode new')
  refresh_race f f' now now' new new' raw token a b c role t s v e d at signed works free =
      let g = token_refresh-Granted issue hash encode decode f now (some new) token s v a b e in
      let there : any (has_token_id t.id) v.refresh_tokens ≡ true =
        ap (λ (x : Store). any (has_token_id t.id) x.refresh_tokens) g.renewed.store
        ∙ rotate-id t.id g.row.id (hash g.renewed.raw) (now + operator_refresh_ttl) s.refresh_tokens
        ∙ found-id (hash raw) t s.refresh_tokens at in
      ground (
        arith,
        signed,
        rotate_refresh_token-present f' t.id (hash new') (now' + operator_refresh_ttl) v works free
            there,
      )
