-- ===== src/Auth/Flags.antt =====
-- A principal is found with its flags changed: the statements of internal/db/queries/principals.sql.go
-- on one row, for a search by id as for one by login.
use morsel.Prelude.{◌≡◌, true, Bool, List, [], ◌∷◌, some, arith, ℤ, ok, find, Bool-cases, inl, inr}
use morsel.Auth.Tables.{
  Principal, Store, Faults, has_principal, change_principal, set_operator, set_admin,
}

pub find-holds :
    (q : Principal → Bool) (p : Principal) (rows : List Principal)
    → find q rows ≡ some p
    → q p ≡ true
find-holds q p [] e = ground arith
find-holds q p (x ∷ rows) e = elim (Bool-cases (q x)) [
  | inl y ↦ ground (arith, y)
  | inr y ↦ ground (arith, y, find-holds q p rows)
]

pub change-found :
    (q : Principal → Bool) (id : ℤ) (g : Principal → Principal) (p : Principal)
    (rows : List Principal)
    → ((x : Principal) → q (g x) ≡ q x)
    → find q rows ≡ some p
    → has_principal id p ≡ true
    → find q (change_principal id g rows) ≡ some (g p)
change-found q id g p [] same e here = ground arith
change-found q id g p (x ∷ rows) same e here = elim (Bool-cases (q x)) [
  | inl y ↦ ground (arith, y, same x)
  | inr y ↦ ground (arith, y, same x, change-found q id g p rows same)
]

pub set_operator-found :
    (f : Faults) (q : Principal → Bool) (id : ℤ) (b : Bool) (p : Principal) (s : Store)
    → ((x : Principal) → q (record x { is_operator = b }) ≡ q x)
    → find q s.principals ≡ some p
    → has_principal id p ≡ true
    → (set_operator f id b s).1 ≡ ok tt
    → find q (set_operator f id b s).0.principals ≡ some (record p { is_operator = b })
unfolding set_operator
set_operator-found f q id b p s same e here done =
    ground (arith, change-found q id (λ x. record x { is_operator = b }) p s.principals same e here)

pub set_admin-found :
    (f : Faults) (q : Principal → Bool) (id : ℤ) (b : Bool) (p : Principal) (s : Store)
    → ((x : Principal) → q (record x { is_admin = b }) ≡ q x)
    → find q s.principals ≡ some p
    → has_principal id p ≡ true
    → (set_admin f id b s).1 ≡ ok tt
    → find q (set_admin f id b s).0.principals ≡ some (record p { is_admin = b })
unfolding set_admin
set_admin-found f q id b p s same e here done =
    ground (arith, change-found q id (λ x. record x { is_admin = b }) p s.principals same e here)
