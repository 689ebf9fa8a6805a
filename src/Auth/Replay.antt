-- ===== src/Auth/Replay.antt =====
-- A refresh token is good for one exchange: TokenRefresh of internal/api/handler/token.go.
use morsel.Prelude.{
  ℕ, ◌≡◌, refl, sym, ap, ◌∙◌, ◌≢◌, false, List, [], ◌∷◌, Option, none, some, String, str_eq,
  if◌then◌else◌, arith, any, All,
}
use morsel.Auth.Tables.{
  Store, Faults, find_token, get_refresh_token_by_hash, has_hash, RefreshToken,
}
use morsel.Auth.Refresh.{denied, pair, internal_error, token_refresh}
use morsel.Auth.Requests.{Request, Outside, run, drawn}
use morsel.Auth.Grants.{token_refresh-Granted}
use morsel.Auth.Tokens.{Absent, UniqueHashes, rotate-spent, Absent-Keeps}
use morsel.Auth.Unique.{Tokens, clash}
use morsel.Auth.WellFormed.{WellFormed}
use morsel.Auth.Stages.{Draws, run-kept}

any-find_none :
    (h : String) (rows : List RefreshToken)
    → any (has_hash h) rows ≡ false
    → get_refresh_token_by_hash h rows ≡ none
unfolding get_refresh_token_by_hash
any-find_none h [] e = refl
any-find_none h (t ∷ rows) e = ground (arith, any-find_none h rows)

unique_hash :
    (i h : String) (rows : List RefreshToken)
    → any (clash i h) rows ≡ false
    → any (has_hash h) rows ≡ false
unique_hash i h [] e = refl
unique_hash i h (t ∷ rows) e = ground (arith, unique_hash i h rows)

Tokens-UniqueHashes : (rows : List RefreshToken) → Tokens rows → UniqueHashes rows
unfolding Tokens UniqueHashes
Tokens-UniqueHashes [] k = tt
Tokens-UniqueHashes (t ∷ rows) (e, k) =
    (unique_hash t.id t.token_hash rows e, Tokens-UniqueHashes rows k)

-- The exchange of a token whose row is not there.
module _ (o : Outside) where
  refresh_unknown :
      (f : Faults) (now : ℕ) (fresh : Option (List ℕ)) (token : String) (raw : List ℕ) (s : Store)
      → str_eq token "" ≡ false
      → o.decode token ≡ some raw
      → Absent (o.hash raw) s
      → token_refresh o.issue o.hash o.encode o.decode f now fresh token s
        ≡ (s, if f find_token then internal_error else denied 401 "invalid_token")
  unfolding Absent token_refresh
  refresh_unknown f now fresh token raw s given d a =
      ground (arith, any-find_none (o.hash raw) s.refresh_tokens a)

  -- A refresh token is good for one exchange: once TokenRefresh has returned a pair of tokens for
  -- it, from tables that are well formed, every exchange of the same token that begins later
  -- changes nothing and is refused as invalid (or fails where the table cannot be read), whatever
  -- refreshes, logins, set-ups and changes of principals come between, failed ones included, if no
  -- hash of a newly drawn token is that of the old one.
  pub refresh_single_use :
      (f f' : Faults) (now now' : ℕ) (raw new : List ℕ) (fresh : Option (List ℕ))
      (token a b : String) (s v : Store) (rs : List Request)
      → token_refresh o.issue o.hash o.encode o.decode f now (some new) token s ≡ (v, pair a b)
      → o.decode token ≡ some raw
      → WellFormed s
      → o.hash new ≢ o.hash raw
      → All (λ r. Draws o.hash (λ h. h ≢ o.hash raw) (drawn r)) rs
      → token_refresh o.issue o.hash o.encode o.decode f' now' fresh token (run o rs v)
        ≡ (run o rs v, if f' find_token then internal_error else denied 401 "invalid_token")
  unfolding Absent WellFormed
  refresh_single_use f f' now now' raw new fresh token a b s v rs e d k ne others =
      let g =
        token_refresh-Granted o.issue o.hash o.encode o.decode f now (some new) token s v a b e in
      let h = o.hash raw in
      let same : g.bytes ≡ raw = ground (arith, g.decoded, d) in
      let drawn_new : g.renewed.raw ≡ new = ground (arith, g.renewed.drawn) in
      let at : get_refresh_token_by_hash h s.refresh_tokens ≡ some g.row = rw (sym same) g.stored in
      let gone : Absent h v =
        ap (λ (x : Store). any (has_hash h) x.refresh_tokens) g.renewed.store
        ∙ rotate-spent h (o.hash g.renewed.raw) _ s.refresh_tokens g.row at
            (Tokens-UniqueHashes s.refresh_tokens k.0) (rw drawn_new ne) in
      refresh_unknown f' now' fresh token raw (run o rs v) g.given d
        (run-kept o (Absent h) (λ x. x ≢ h) (Absent-Keeps h) rs v others gone)
