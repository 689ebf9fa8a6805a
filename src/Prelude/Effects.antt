-- ===== src/Prelude/Effects.antt =====
-- Stateful code that may fail. What was written before a failure stays written, so the state comes
-- back beside the error too.
use mathlib.Core.Path.{◌≡◌, refl, ap, subst}
use mathlib.Core.Logic.{◌⊎◌, inl, inr}
use mathlib.Core.Bool.{Bool}
use morsel.Prelude.Tests.{if◌then◌else◌}

pub data Result {ℓ κ} (E : Type κ) (A : Type ℓ) : Type (ℓ ⊔ κ) where
  ok : A → Result E A
  err : E → Result E A

-- A piece of code over the state `S` that may end in an error of `E`.
abbrev pub Action : Type 0 → Type 0 → Type 0 → Type 0
Action S E A = S → S × Result E A

module _ {S E : Type 0} where
  abbrev pub pure : {A : Type 0} → A → Action S E A
  pure a s = (s, ok a)

  abbrev pub raise : {A : Type 0} → E → Action S E A
  raise e s = (s, err e)

  abbrev pub gets : {A : Type 0} → (S → A) → Action S E A
  gets f s = (s, ok (f s))

  abbrev pub modify : (S → S) → Action S E (Unit {0})
  modify f s = (f s, ok tt)

  -- An external call that fails when the flag is set.
  abbrev pub failing : Bool → E → Action S E (Unit {0})
  failing b e s = if b then (s, err e) else (s, ok tt)

  abbrev pub lift : {A : Type 0} → Result E A → Action S E A
  lift r s = (s, r)

module _ {S E A B : Type 0} where
  abbrev pub continue : (A → Action S E B) → S → Result E A → S × Result E B
  continue f s (ok a) = f a s
  continue f s (err e) = (s, err e)

  infixl 5 ◌>>=◌ ◌>>◌
  abbrev pub ◌>>=◌ : Action S E A → (A → Action S E B) → Action S E B
  ◌>>=◌ m f s = continue f (m s).0 (m s).1

  abbrev pub ◌>>◌ : Action S E A → Action S E B → Action S E B
  m >> n = m >>= λ _. n

pub Result-cases {ℓ κ} :
    {A : Type ℓ} {E : Type κ} (r : Result E A) → ((a : A) × (r ≡ ok a)) ⊎ ((e : E) × (r ≡ err e))
Result-cases (ok a) = inl (a, refl)
Result-cases (err e) = inr (e, refl)

-- A run that ends in an error, from the state of its first part.
pub bind-refused :
    {S E A B : Type 0} (P : S → Type 0) (m : Action S E A) (k : A → Action S E B) (s v : S) (e : E)
    → P (m s).0
    → ((a : A) → k a (m s).0 ≡ (v, err e) → P v)
    → (m >>= k) s ≡ (v, err e)
    → P v
bind-refused {E = E} {A = A} P m k s v e kept rest g = go (m s).1 g
  where
    go : (r : Result E A) → continue k (m s).0 r ≡ (v, err e) → P v
    go (ok a) h = rest a h
    go (err x) h = subst P (ap (λ y. y.0) h) kept
