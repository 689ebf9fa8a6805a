-- ===== src/Auth/WellFormed.antt =====
-- The tables of principals and tokens stay as their unique columns ask, over each request that
-- internal/api/handler serves.
use morsel.Prelude.{
  ℕ, ◌≡◌, refl, Bool, false, not, ◌&&◌, List, [], ◌∷◌, Option, none, some, String, ℤ, arith, any,
  find, All, select, Bool-cases, Option-cases, inl, inr,
}
use morsel.Auth.Tables.{
  Principal, RefreshToken, Store, Faults, upsert, has_login, has_principal, upsert_principal,
  set_operator, set_admin, delete_principal, insert_refresh_token, rotate_refresh_token,
  change_rows, Fault, change_principal, set_operator_flag, set_admin_flag, delete_row,
}
use morsel.Auth.Requests.{Request, Outside, run, drawn}
use morsel.Auth.Stages.{Keeps, Draws, run-kept}
use morsel.Auth.Unique.{
  Tokens, Persons, same_person, rotate-Tokens, append-Tokens, change-Persons, login-Persons,
  append-Persons, select-Persons,
}

-- No two tokens have an id or a hash in common, no two principals an id or a login.
unfoldable pub WellFormed : Store → Type 0
WellFormed s = Tokens s.refresh_tokens × Persons s.principals

rotate_refresh_token-WellFormed :
    (f : Faults) (id new : String) (t : ℕ) (s : Store)
    → WellFormed s
    → WellFormed (rotate_refresh_token f id new t s).0
unfolding WellFormed rotate_refresh_token
rotate_refresh_token-WellFormed f id new t s (a, b) =
    ground (arith, a, b, rotate-Tokens id new t s.refresh_tokens)

insert_refresh_token-WellFormed :
    (f : Faults) (id new subject role : String) (t : ℕ) (s : Store)
    → WellFormed s
    → WellFormed (insert_refresh_token f id new subject role t s).0
unfolding WellFormed insert_refresh_token
insert_refresh_token-WellFormed f id new subject role t s (a, b) =
    let row : RefreshToken = record {
      id = id;
      token_hash = new;
      subject = subject;
      role = role;
      expires_at = t;
      revoked_at = none;
    } in
    ground (arith, a, b, append-Tokens s.refresh_tokens row)

find-none :
    (id : ℤ) (rows : List Principal)
    → find (has_principal id) rows ≡ none
    → any (has_principal id) rows ≡ false
find-none id [] e = refl
find-none id (p ∷ rows) e = ground (arith, find-none id rows)

free-login :
    (id : ℤ) (login : String) (rows : List Principal)
    → any (λ p. has_login login p && not (has_principal id p)) rows ≡ false
    → any (has_principal id) rows ≡ false
    → any (same_person id login) rows ≡ false
free-login id login [] e n = refl
free-login id login (p ∷ rows) e n = ground (arith, free-login id login rows)

upsert_principal-WellFormed :
    (f : Faults) (id : ℤ) (login : String) (s : Store)
    → WellFormed s
    → WellFormed (upsert_principal f id login s).0
unfolding WellFormed upsert_principal
upsert_principal-WellFormed f id login s (a, b) = elim (Bool-cases (f upsert)) [
  | inl x ↦ rw x (a, b)
  | inr x ↦
      elim (Bool-cases (any (λ p. has_login login p && not (has_principal id p)) s.principals)) [
        | inl y ↦ rw (x, y) (a, b)
        | inr y ↦ elim (Option-cases (find (has_principal id) s.principals)) [
          | inl n ↦
              let new : Principal = record {
                github_id = id;
                github_login = login;
                is_operator = false;
                is_admin = false;
              } in
              rw (x, y, n)
                (
                  a,
                  append-Persons s.principals new
                      (free-login id login s.principals y (find-none id s.principals n)) b,
                )
          | inr (p, n) ↦ rw (x, y, n) (a, login-Persons id login s.principals y b)
        ]
      ]
]

change_rows-WellFormed :
    (f : Faults) (point : Fault) (change : List Principal → List Principal) (s : Store)
    → (Persons s.principals → Persons (change s.principals))
    → WellFormed s
    → WellFormed (change_rows f point change s).0
unfolding WellFormed
change_rows-WellFormed f point change s keeps (a, b) = elim (Bool-cases (f point)) [
  | inl x ↦ rw x (a, b)
  | inr x ↦ rw x (a, keeps b)
]

WellFormed-Keeps : Keeps WellFormed (λ new. Unit)
unfolding set_operator set_admin delete_principal WellFormed
WellFormed-Keeps = record {
  rotates = λ f id new t s _ w. rotate_refresh_token-WellFormed f id new t s w;
  inserts =
      λ f id new subject role t s _ w. insert_refresh_token-WellFormed f id new subject role t s w;
  upserts = λ f id login s w. upsert_principal-WellFormed f id login s w;
  operators = λ f id b s w.
      let g : Principal → Principal = λ p. record p { is_operator = b } in
      change_rows-WellFormed f set_operator_flag (change_principal id g) s
        (change-Persons id g s.principals (λ p. (refl, refl))) w;
  admins = λ f id b s w.
      let g : Principal → Principal = λ p. record p { is_admin = b } in
      change_rows-WellFormed f set_admin_flag (change_principal id g) s
        (change-Persons id g s.principals (λ p. (refl, refl))) w;
  deletes = λ f id s w.
      let q : Principal → Bool = λ p. not (has_principal id p) in
      change_rows-WellFormed f delete_row (select q) s (select-Persons q s.principals) w;
  consumes = λ o f s w. ground (arith, w);
}

Draws-any : (hash : List ℕ → String) (fresh : Option (List ℕ)) → Draws hash (λ new. Unit) fresh
Draws-any hash none = tt
Draws-any hash (some raw) = tt

pub drawn-any :
    (hash : List ℕ → String) (rs : List Request) → All (λ r. Draws hash (λ new. Unit) (drawn r)) rs
drawn-any hash [] = tt
drawn-any hash (r ∷ rs) = (Draws-any hash (drawn r), drawn-any hash rs)

-- From well-formed tables, any run of refreshes, logins, set-ups, and additions, removals and
-- patches of principals, failed ones included, leaves them well formed: no two refresh tokens have
-- an id or a hash in common, and no two principals an id or a login.
pub run-WellFormed :
    (o : Outside) (rs : List Request) (s : Store) → WellFormed s → WellFormed (run o rs s)
run-WellFormed o rs s w =
    run-kept o WellFormed (λ new. Unit) WellFormed-Keeps rs s (drawn-any o.hash rs) w
