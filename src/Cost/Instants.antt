-- ===== src/Cost/Instants.antt =====
-- The time for which a property of instants holds, as the number of instants at which it does.
use morsel.Prelude.{ℕ, zero, suc, ◌+◌, ◌≤◌, ◌<◌, ◌≡◌, refl, ap, Bool, arith, if◌then◌else◌}

-- Among the `n` instants from `from` on.
unfoldable pub instants : (ℕ → Bool) → ℕ → ℕ → ℕ
instants p from zero = 0
instants p from (suc n) = (if p from then 1 else 0) + instants p (suc from) n

from_zero : (n : ℕ) → n + 0 ≡ n
from_zero n = omega arith

from_suc : (n a : ℕ) → n + suc a ≡ suc n + a
from_suc n a = omega arith

suc_plus : (a b : ℕ) → suc a + b ≡ suc (a + b)
suc_plus a b = omega arith

pub instants-split :
    (p : ℕ → Bool) (from a b : ℕ)
    → instants p from (a + b) ≡ instants p from a + instants p (from + a) b
unfolding instants
instants-split p from zero b = ground (arith, ap (λ k. instants p k b) (from_zero from))
instants-split p from (suc a) b = ground (
  arith,
  instants-split p (suc from) a b,
  ap (λ k. instants p k b) (from_suc from a),
  ap (instants p from) (suc_plus a b),
)

pub instants-constant :
    (p : ℕ → Bool) (b : Bool) (from n : ℕ)
    → ((τ : ℕ) → from ≤ τ → τ < from + n → p τ ≡ b)
    → instants p from n ≡ (if b then n else 0)
unfolding instants
instants-constant p b from zero h = ground arith
instants-constant p b from (suc n) h = ground (
  arith,
  h from (omega arith) (omega arith),
  instants-constant p b (suc from) n (λ τ l u. h τ (omega arith) (omega arith)),
)

pub instants-same :
    (p q : ℕ → Bool) (from n : ℕ)
    → ((τ : ℕ) → from ≤ τ → p τ ≡ q τ)
    → instants p from n ≡ instants q from n
unfolding instants
instants-same p q from zero h = refl
instants-same p q from (suc n) h =
    ground (arith, h from (omega arith), instants-same p q (suc from) n (λ τ l. h τ (omega arith)))

pub instants-le : (p : ℕ → Bool) (from n : ℕ) → instants p from n ≤ n
unfolding instants
instants-le p from zero = omega arith
instants-le p from (suc n) = ground (arith, instants-le p (suc from) n)
