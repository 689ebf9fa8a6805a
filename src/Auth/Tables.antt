-- ===== src/Auth/Tables.antt =====
-- The principals and refresh_tokens tables: internal/db/queries/principals.sql.go and
-- refresh_tokens.sql.go, and the methods of internal/store/store.go on them, with the secret that
-- holds the bootstrap token.
use morsel.Prelude.{
  ℕ, Bool, false, not, ◌&&◌, List, [], ◌∷◌, ◌++◌, Option, none, some, String, str_eq, if◌then◌else◌,
  ℤ, ltb_ℤ, ◌||◌, any, find, select, ok, err, Action,
}

pub record Principal : Type 0 where
  pub github_id : ℤ
  pub github_login : String
  pub is_operator : Bool
  pub is_admin : Bool

pub record RefreshToken : Type 0 where
  pub id : String
  pub token_hash : String
  pub subject : String
  pub role : String
  pub expires_at : ℕ
  pub revoked_at : Option ℕ

pub record Store : Type 0 where
  pub principals : List Principal
  pub refresh_tokens : List RefreshToken
  pub bootstrap_token : Option String

-- What may fail: the statements, the secret, the random source and the signing.
pub data Fault : Type 0 where
  find_token rotate_token insert_token find_principal upsert set_operator_flag set_admin_flag :
      Fault
  delete_row list_rows read_secret delete_secret random signing : Fault

pub data Error : Type 0 where
  failed : Fault → Error
  unique_violation no_rows : Error

abbrev pub Faults : Type 0
Faults = Fault → Bool

abbrev pub M : Type 0 → Type 0
M A = Action Store Error A

-- Equality of two ids.
abbrev pub same_id : ℤ → ℤ → Bool
same_id a b = not (ltb_ℤ a b || ltb_ℤ b a)

unfoldable pub get_principal_by_login : String → List Principal → Option Principal
get_principal_by_login login rows = find (λ p. str_eq p.github_login login) rows

abbrev pub has_login : String → Principal → Bool
has_login login p = str_eq p.github_login login

abbrev pub has_principal : ℤ → Principal → Bool
has_principal id p = same_id p.github_id id

abbrev pub change_principal : ℤ → (Principal → Principal) → List Principal → List Principal
change_principal id change [] = []
change_principal id change (p ∷ rest) =
    (if has_principal id p then change p else p) ∷ change_principal id change rest

-- A login that another principal has is refused: it is unique.
unfoldable pub upsert_principal : Faults → ℤ → String → M Principal
upsert_principal f id login s =
    if f upsert
    then (s, err (failed upsert))
    else if any (λ p. has_login login p && not (has_principal id p)) s.principals
    then (s, err unique_violation)
    else elim (find (has_principal id) s.principals) [
      | some p ↦
          let new = record p { github_login = login } in
          (
            record s {
              principals =
                  change_principal id (λ x. record x { github_login = login }) s.principals;
            },
            ok new,
          )
      | none ↦
          let new : Principal = record {
            github_id = id;
            github_login = login;
            is_operator = false;
            is_admin = false;
          } in
          (record s { principals = s.principals ++ new ∷ [] }, ok new)
    ]

abbrev pub change_rows : Faults → Fault → (List Principal → List Principal) → M (Unit {0})
change_rows f point change s =
    if f point
    then (s, err (failed point))
    else (record s { principals = change s.principals }, ok tt)

unfoldable pub set_operator : Faults → ℤ → Bool → M (Unit {0})
set_operator f id flag =
    change_rows f set_operator_flag (change_principal id (λ p. record p { is_operator = flag }))

unfoldable pub set_admin : Faults → ℤ → Bool → M (Unit {0})
set_admin f id flag =
    change_rows f set_admin_flag (change_principal id (λ p. record p { is_admin = flag }))

unfoldable pub delete_principal : Faults → ℤ → M (Unit {0})
delete_principal f id = change_rows f delete_row (select (λ p. not (has_principal id p)))

abbrev pub has_hash : String → RefreshToken → Bool
has_hash hash t = str_eq t.token_hash hash

unfoldable pub get_refresh_token_by_hash : String → List RefreshToken → Option RefreshToken
get_refresh_token_by_hash hash rows = find (has_hash hash) rows

-- Both the id and the hash are unique.
unfoldable pub insert_refresh_token : Faults → String → String → String → String → ℕ → M (Unit {0})
insert_refresh_token f id hash subject role expires_at s =
    if f insert_token
    then (s, err (failed insert_token))
    else if any (λ (t : RefreshToken). str_eq t.id id || has_hash hash t) s.refresh_tokens
    then (s, err unique_violation)
    else (
      record s {
        refresh_tokens =
            s.refresh_tokens
            ++ record {
              id = id;
              token_hash = hash;
              subject = subject;
              role = role;
              expires_at = expires_at;
              revoked_at = none;
            }
              ∷ [];
      },
      ok tt,
    )

abbrev pub rotate : String → String → ℕ → List RefreshToken → List RefreshToken
rotate id hash expires_at [] = []
rotate id hash expires_at (t ∷ rest) =
    (if str_eq t.id id then record t { token_hash = hash; expires_at = expires_at } else t)
    ∷ rotate id hash expires_at rest

unfoldable pub rotate_refresh_token : Faults → String → String → ℕ → M (Unit {0})
rotate_refresh_token f id hash expires_at s =
    if f rotate_token
    then (s, err (failed rotate_token))
    else if any (λ (t : RefreshToken). has_hash hash t && not (str_eq t.id id)) s.refresh_tokens
    then (s, err unique_violation)
    else if any (λ (t : RefreshToken). str_eq t.id id) s.refresh_tokens
    then (record s { refresh_tokens = rotate id hash expires_at s.refresh_tokens }, ok tt)
    else (s, err no_rows)
