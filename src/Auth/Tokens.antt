-- ===== src/Auth/Tokens.antt =====
-- The hashes of the refresh tokens, over the statements that change the table.
use morsel.Prelude.{
  any-append, ℕ, ◌≡◌, ◌≢◌, refl, ap, ◌∙◌, Bool, false, List, [], ◌∷◌, none, some, String, str_ne, ℤ,
  arith, eq_iff, eq_refl, any,
}
use morsel.Auth.Tables.{
  RefreshToken, Store, Faults, has_hash, rotate, get_refresh_token_by_hash, rotate_refresh_token,
  insert_refresh_token, upsert_principal, set_admin, set_operator, delete_principal,
}
use morsel.Auth.Login.{consume_bootstrap_token}
use morsel.Auth.Requests.{Outside}
use morsel.Auth.Stages.{Keeps}

unfoldable pub UniqueHashes : List RefreshToken → Type 0
UniqueHashes [] = Unit
UniqueHashes (t ∷ rest) = (any (has_hash t.token_hash) rest ≡ false) × UniqueHashes rest

-- No token has that hash.
unfoldable pub Absent : String → Store → Type 0
Absent hash s = any (has_hash hash) s.refresh_tokens ≡ false

pub rotate-Absent :
    (h id new : String) (t : ℕ) (rows : List RefreshToken)
    → new ≢ h
    → any (has_hash h) rows ≡ false
    → any (has_hash h) (rotate id new t rows) ≡ false
rotate-Absent h id new t [] ne e = refl
rotate-Absent h id new t (x ∷ rows) ne e =
    ground (arith, str_ne new h ne, rotate-Absent h id new t rows ne)

-- The row that had the hash has another one after the rotation.
pub rotate-spent :
    (h new : String) (u : ℕ) (rows : List RefreshToken) (t : RefreshToken)
    → get_refresh_token_by_hash h rows ≡ some t
    → UniqueHashes rows
    → new ≢ h
    → any (has_hash h) (rotate t.id new u rows) ≡ false
unfolding get_refresh_token_by_hash UniqueHashes
rotate-spent h new u [] t e k ne = refl
rotate-spent h new u (x ∷ rows) t e (fresh, k) ne = ground (
  arith,
  str_ne new h ne,
  eq_iff x.token_hash h,
  eq_refl x.id,
  rotate-Absent h t.id new u rows ne,
  rotate-spent h new u rows t,
)

pub rotate_refresh_token-Absent :
    (f : Faults) (h id new : String) (t : ℕ) (s : Store)
    → new ≢ h
    → Absent h s
    → Absent h (rotate_refresh_token f id new t s).0
unfolding Absent rotate_refresh_token
rotate_refresh_token-Absent f h id new t s ne a =
    ground (arith, rotate-Absent h id new t s.refresh_tokens ne a)

pub insert_refresh_token-Absent :
    (f : Faults) (h id new subject role : String) (t : ℕ) (s : Store)
    → new ≢ h
    → Absent h s
    → Absent h (insert_refresh_token f id new subject role t s).0
unfolding Absent insert_refresh_token
insert_refresh_token-Absent f h id new subject role t s ne a = ground (
  arith,
  str_ne new h ne,
  any-append (has_hash h) s.refresh_tokens (record {
    id = id;
    token_hash = new;
    subject = subject;
    role = role;
    expires_at = t;
    revoked_at = none;
  }),
)

pub upsert_principal-tokens :
    (f : Faults) (id : ℤ) (login : String) (s : Store)
    → (upsert_principal f id login s).0.refresh_tokens ≡ s.refresh_tokens
unfolding upsert_principal
upsert_principal-tokens f id login s = ground arith

pub set_operator-tokens :
    (f : Faults) (id : ℤ) (b : Bool) (s : Store)
    → (set_operator f id b s).0.refresh_tokens ≡ s.refresh_tokens
unfolding set_operator
set_operator-tokens f id b s = ground arith

pub set_admin-tokens :
    (f : Faults) (id : ℤ) (b : Bool) (s : Store)
    → (set_admin f id b s).0.refresh_tokens ≡ s.refresh_tokens
unfolding set_admin
set_admin-tokens f id b s = ground arith

pub delete_principal-tokens :
    (f : Faults) (id : ℤ) (s : Store)
    → (delete_principal f id s).0.refresh_tokens ≡ s.refresh_tokens
unfolding delete_principal
delete_principal-tokens f id s = ground arith

consume-tokens :
    (o : Outside) (f : Faults) (s : Store)
    → (consume_bootstrap_token o.issue o.hash o.encode o.decode f s).refresh_tokens
      ≡ s.refresh_tokens
consume-tokens o f s = ground arith

-- Where the tokens are the same, the hash is absent as before.
same_tokens-Absent :
    (h : String) (s v : Store) → v.refresh_tokens ≡ s.refresh_tokens → Absent h s → Absent h v
unfolding Absent
same_tokens-Absent h s v e a = ap (any (has_hash h)) e ∙ a

-- An absent hash stays absent, if no new token has it.
pub Absent-Keeps : (h : String) → Keeps (Absent h) (λ new. new ≢ h)
Absent-Keeps h = record {
  rotates = λ f id new t s ne a. rotate_refresh_token-Absent f h id new t s ne a;
  inserts = λ f id new subject role t s ne a.
      insert_refresh_token-Absent f h id new subject role t s ne a;
  upserts = λ f id login s a. same_tokens-Absent h s _ (upsert_principal-tokens f id login s) a;
  operators = λ f id b s a. same_tokens-Absent h s _ (set_operator-tokens f id b s) a;
  admins = λ f id b s a. same_tokens-Absent h s _ (set_admin-tokens f id b s) a;
  deletes = λ f id s a. same_tokens-Absent h s _ (delete_principal-tokens f id s) a;
  consumes = λ o f s a. same_tokens-Absent h s _ (consume-tokens o f s) a;
}
