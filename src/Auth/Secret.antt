-- ===== src/Auth/Secret.antt =====
-- The bootstrap token that is gone stays gone, over the statements on the tables: the secret of
-- internal/platform/local/secrets.go.
use morsel.Prelude.{ℕ, ◌≡◌, ◌∙◌, Bool, none, String, ℤ, arith}
use morsel.Auth.Tables.{
  Store, Faults, upsert_principal, set_operator, set_admin, delete_principal, insert_refresh_token,
  rotate_refresh_token,
}
use morsel.Auth.Stages.{Keeps}

-- The bootstrap token is gone.
unfoldable pub Consumed : Store → Type 0
Consumed s = s.bootstrap_token ≡ none

rotate_refresh_token-secret :
    (f : Faults) (id new : String) (t : ℕ) (s : Store)
    → (rotate_refresh_token f id new t s).0.bootstrap_token ≡ s.bootstrap_token
unfolding rotate_refresh_token
rotate_refresh_token-secret f id new t s = ground arith

pub insert_refresh_token-secret :
    (f : Faults) (id new subject role : String) (t : ℕ) (s : Store)
    → (insert_refresh_token f id new subject role t s).0.bootstrap_token ≡ s.bootstrap_token
unfolding insert_refresh_token
insert_refresh_token-secret f id new subject role t s = ground arith

upsert_principal-secret :
    (f : Faults) (id : ℤ) (login : String) (s : Store)
    → (upsert_principal f id login s).0.bootstrap_token ≡ s.bootstrap_token
unfolding upsert_principal
upsert_principal-secret f id login s = ground arith

set_operator-secret :
    (f : Faults) (id : ℤ) (b : Bool) (s : Store)
    → (set_operator f id b s).0.bootstrap_token ≡ s.bootstrap_token
unfolding set_operator
set_operator-secret f id b s = ground arith

set_admin-secret :
    (f : Faults) (id : ℤ) (b : Bool) (s : Store)
    → (set_admin f id b s).0.bootstrap_token ≡ s.bootstrap_token
unfolding set_admin
set_admin-secret f id b s = ground arith

delete_principal-secret :
    (f : Faults) (id : ℤ) (s : Store)
    → (delete_principal f id s).0.bootstrap_token ≡ s.bootstrap_token
unfolding delete_principal
delete_principal-secret f id s = ground arith

pub Consumed-Keeps : Keeps Consumed (λ new. Unit)
unfolding Consumed
Consumed-Keeps = record {
  rotates = λ f id new t s _ c. rotate_refresh_token-secret f id new t s ∙ c;
  inserts =
      λ f id new subject role t s _ c. insert_refresh_token-secret f id new subject role t s ∙ c;
  upserts = λ f id login s c. upsert_principal-secret f id login s ∙ c;
  operators = λ f id b s c. set_operator-secret f id b s ∙ c;
  admins = λ f id b s c. set_admin-secret f id b s ∙ c;
  deletes = λ f id s c. delete_principal-secret f id s ∙ c;
  consumes = λ o f s c. ground (arith, c);
}
