-- ===== src/Auth/Unique.antt =====
-- The unique columns of the tables, over the statements that change them: internal/db/queries/principals.sql.go and
-- refresh_tokens.sql.go.
use morsel.Prelude.{
  any-append, ℕ, ◌≡◌, refl, sym, ◌∙◌, Bool, true, false, not, ◌&&◌, ◌||◌, List, [], ◌∷◌, ◌++◌,
  String, str_eq, ℤ, arith, eq_iff, eq_refl, any, select, Bool-cases, inl, inr,
}
use morsel.Auth.Tables.{
  Principal, RefreshToken, same_id, has_login, has_principal, change_principal, has_hash, rotate,
}

-- A row with that id or that hash.
abbrev pub clash : String → String → RefreshToken → Bool
clash id hash t = str_eq t.id id || has_hash hash t

unfoldable pub Tokens : List RefreshToken → Type 0
Tokens [] = Unit
Tokens (t ∷ rest) = (any (clash t.id t.token_hash) rest ≡ false) × Tokens rest

abbrev pub same_person : ℤ → String → Principal → Bool
same_person id login p = has_principal id p || has_login login p

unfoldable pub Persons : List Principal → Type 0
Persons [] = Unit
Persons (p ∷ rest) = (any (same_person p.github_id p.github_login) rest ≡ false) × Persons rest

rotate-other :
    (id new : String) (t : ℕ) (rows : List RefreshToken)
    → any (λ (x : RefreshToken). str_eq x.id id) rows ≡ false
    → rotate id new t rows ≡ rows
rotate-other id new t [] e = refl
rotate-other id new t (x ∷ rows) e = ground (arith, rotate-other id new t rows)

rotate-clash :
    (id new : String) (t : ℕ) (i h : String) (rows : List RefreshToken)
    → any (clash i h) rows ≡ false
    → str_eq new h ≡ false
    → any (clash i h) (rotate id new t rows) ≡ false
rotate-clash id new t i h [] e n = refl
rotate-clash id new t i h (x ∷ rows) e n = ground (arith, rotate-clash id new t i h rows)

any-clash_id :
    (i h : String) (rows : List RefreshToken)
    → any (clash i h) rows ≡ false
    → any (λ (x : RefreshToken). str_eq x.id i) rows ≡ false
any-clash_id i h [] e = refl
any-clash_id i h (x ∷ rows) e = ground (arith, any-clash_id i h rows)

-- With that hash on no row but that of the id, and the id on none, no row clashes.
any-clash :
    (i h : String) (rows : List RefreshToken)
    → any (λ (x : RefreshToken). str_eq x.id i) rows ≡ false
    → any (λ (x : RefreshToken). has_hash h x && not (str_eq x.id i)) rows ≡ false
    → any (clash i h) rows ≡ false
any-clash i h [] e n = refl
any-clash i h (x ∷ rows) e n = ground (arith, any-clash i h rows)

pub rotate-Tokens :
    (id new : String) (t : ℕ) (rows : List RefreshToken)
    → any (λ (x : RefreshToken). has_hash new x && not (str_eq x.id id)) rows ≡ false
    → Tokens rows
    → Tokens (rotate id new t rows)
unfolding Tokens
rotate-Tokens id new t [] n k = tt
rotate-Tokens id new t (x ∷ rows) n (e, k) = elim (Bool-cases (str_eq x.id id)) [
  | inl same ↦
      let here : x.id ≡ id = ground (arith, eq_iff x.id id) in
      let others : any (λ (r : RefreshToken). str_eq r.id id) rows ≡ false =
        rw (sym here) (any-clash_id x.id x.token_hash rows e) in
      let free : any (λ (r : RefreshToken). has_hash new r && not (str_eq r.id id)) rows ≡ false =
        ground (arith, n) in
      rw (same, rotate-other id new t rows others) (rw here (any-clash id new rows others free), k)
  | inr other ↦ rw other (
    rotate-clash id new t x.id x.token_hash rows e
        (ground (arith, n, eq_iff x.token_hash new, eq_iff new x.token_hash, eq_refl new)),
    rotate-Tokens id new t rows (ground (arith, n)) k,
  )
]

pub append-Tokens :
    (rows : List RefreshToken) (t : RefreshToken)
    → any (clash t.id t.token_hash) rows ≡ false
    → Tokens rows
    → Tokens (rows ++ t ∷ [])
unfolding Tokens
append-Tokens [] t n k = (refl, tt)
append-Tokens (x ∷ rows) t n (e, k) = (
  any-append (clash x.id x.token_hash) rows t
      ∙ ground (
        arith,
        n,
        eq_iff t.id x.id,
        eq_iff x.id t.id,
        eq_refl t.id,
        eq_refl x.id,
        eq_iff t.token_hash x.token_hash,
        eq_iff x.token_hash t.token_hash,
      ),
  append-Tokens rows t (ground (arith, n)) k,
)

-- Rows of which each has the id and the login that it had.
abbrev pub Renamed : (Principal → Principal) → Type 0
Renamed g =
    (p : Principal) → ((g p).github_id ≡ p.github_id) × ((g p).github_login ≡ p.github_login)

change-same :
    (id : ℤ) (g : Principal → Principal) (i : ℤ) (login : String) (rows : List Principal)
    → Renamed g
    → any (same_person i login) (change_principal id g rows) ≡ any (same_person i login) rows
change-same id g i login [] r = refl
change-same id g i login (p ∷ rows) r = ground (arith, r p, change-same id g i login rows r)

pub change-Persons :
    (id : ℤ) (g : Principal → Principal) (rows : List Principal)
    → Renamed g
    → Persons rows
    → Persons (change_principal id g rows)
unfolding Persons
change-Persons id g [] r k = tt
change-Persons id g (p ∷ rows) r (e, k) = (
  elim (Bool-cases (has_principal id p)) [
    | inl x ↦ rw (x, (r p).0, (r p).1, change-same id g p.github_id p.github_login rows r) e
    | inr x ↦ rw (x, change-same id g p.github_id p.github_login rows r) e
  ],
  change-Persons id g rows r k,
)

pub same_id-eq : (a b : ℤ) → same_id a b ≡ true → a ≡ b
same_id-eq a b e = ground arith

same_id_refl : (a : ℤ) → same_id a a ≡ true
same_id_refl a = ground arith

-- The principal of the id has that login, and no other may have it.
abbrev pub with_login : String → Principal → Principal
with_login login p = record p { github_login = login }

change-absent :
    (id : ℤ) (g : Principal → Principal) (rows : List Principal)
    → any (has_principal id) rows ≡ false
    → change_principal id g rows ≡ rows
change-absent id g [] e = refl
change-absent id g (p ∷ rows) e = ground (arith, change-absent id g rows)

any-same_id :
    (id : ℤ) (login : String) (rows : List Principal)
    → any (same_person id login) rows ≡ false
    → any (has_principal id) rows ≡ false
any-same_id id login [] e = refl
any-same_id id login (p ∷ rows) e = ground (arith, any-same_id id login rows)

any-same_person :
    (id : ℤ) (login : String) (rows : List Principal)
    → any (has_principal id) rows ≡ false
    → any (λ p. has_login login p && not (has_principal id p)) rows ≡ false
    → any (same_person id login) rows ≡ false
any-same_person id login [] e n = refl
any-same_person id login (p ∷ rows) e n = ground (arith, any-same_person id login rows)

login-other :
    (id : ℤ) (new : String) (i : ℤ) (login : String) (rows : List Principal)
    → any (same_person i login) rows ≡ false
    → str_eq new login ≡ false
    → any (same_person i login) (change_principal id (with_login new) rows) ≡ false
login-other id new i login [] e n = refl
login-other id new i login (p ∷ rows) e n = ground (arith, login-other id new i login rows)

pub login-Persons :
    (id : ℤ) (new : String) (rows : List Principal)
    → any (λ p. has_login new p && not (has_principal id p)) rows ≡ false
    → Persons rows
    → Persons (change_principal id (with_login new) rows)
unfolding Persons
login-Persons id new [] n k = tt
login-Persons id new (p ∷ rows) n (e, k) = elim (Bool-cases (has_principal id p)) [
  | inl same ↦
      let here : p.github_id ≡ id = same_id-eq p.github_id id same in
      let others : any (has_principal id) rows ≡ false =
        rw (sym here) (any-same_id p.github_id p.github_login rows e) in
      let free : any (λ r. has_login new r && not (has_principal id r)) rows ≡ false =
        ground (arith, n) in
      rw (same, change-absent id (with_login new) rows others)
        (rw here (any-same_person id new rows others free), k)
  | inr other ↦ rw other (
    login-other id new p.github_id p.github_login rows e
        (ground (arith, n, eq_iff p.github_login new, eq_iff new p.github_login, eq_refl new)),
    login-Persons id new rows (ground (arith, n)) k,
  )
]

pub append-Persons :
    (rows : List Principal) (p : Principal)
    → any (same_person p.github_id p.github_login) rows ≡ false
    → Persons rows
    → Persons (rows ++ p ∷ [])
unfolding Persons
append-Persons [] p n k = (refl, tt)
append-Persons (x ∷ rows) p n (e, k) = (
  any-append (same_person x.github_id x.github_login) rows p
      ∙ ground (
        arith,
        n,
        eq_iff p.github_login x.github_login,
        eq_iff x.github_login p.github_login,
        eq_refl p.github_login,
        eq_refl x.github_login,
      ),
  append-Persons rows p (ground (arith, n)) k,
)

select-free :
    (q : Principal → Bool) (id : ℤ) (login : String) (rows : List Principal)
    → any (same_person id login) rows ≡ false
    → any (same_person id login) (select q rows) ≡ false
select-free q id login [] e = refl
select-free q id login (p ∷ rows) e = ground (arith, select-free q id login rows)

pub select-Persons :
    (q : Principal → Bool) (rows : List Principal) → Persons rows → Persons (select q rows)
unfolding Persons
select-Persons q [] k = tt
select-Persons q (p ∷ rows) (e, k) = elim (Bool-cases (q p)) [
  | inl x ↦ rw x (select-free q p.github_id p.github_login rows e, select-Persons q rows k)
  | inr x ↦ rw x (select-Persons q rows k)
]
