-- ===== src/Tiers/Invariant.antt =====
-- What holds of the tiers and repos between two requests: the names are distinct, one tier is the
-- default, and the tier of a repo is there.
use morsel.Prelude.{
  ℕ, ◌+◌, ◌≡◌, refl, Bool, true, false, List, [], ◌∷◌, ◌++◌, none, some, String, str_eq,
  if◌then◌else◌, arith, eq_iff, eq_refl,
}
use morsel.Tiers.Tables.{Tier, Repo, Store, update_named, get_tier}

unfoldable pub has_tier : String → List Tier → Bool
has_tier name [] = false
has_tier name (t ∷ rest) = if str_eq t.name name then true else has_tier name rest

unfoldable pub Distinct : List Tier → Type 0
unfolding has_tier
Distinct [] = Unit
Distinct (t ∷ rest) = (has_tier t.name rest ≡ false) × Distinct rest

unfoldable pub defaults : List Tier → ℕ
defaults [] = 0
defaults (t ∷ rest) = (if t.is_default then 1 else 0) + defaults rest

unfoldable pub all_assigned : List Tier → List Repo → Bool
unfolding has_tier
all_assigned tiers [] = true
all_assigned tiers (r ∷ rest) = if has_tier r.tier tiers then all_assigned tiers rest else false

pub record WellFormed (s : Store) : Type 0 where
  pub distinct : Distinct s.tiers
  pub one_default : defaults s.tiers ≡ 1
  pub assigned : all_assigned s.tiers s.repos ≡ true

-- A lookup finds a tier exactly when there is one.
pub get_tier-has :
    (name : String) (tiers : List Tier) (t : Tier)
    → get_tier name tiers ≡ some t
    → has_tier name tiers ≡ true
unfolding get_tier has_tier
get_tier-has name [] t e = ground arith
get_tier-has name (x ∷ rest) t e = ground (arith, get_tier-has name rest t)

pub get_tier-misses :
    (name : String) (tiers : List Tier) → get_tier name tiers ≡ none → has_tier name tiers ≡ false
unfolding get_tier has_tier
get_tier-misses name [] e = refl
get_tier-misses name (x ∷ rest) e = ground (arith, get_tier-misses name rest)

pub has_tier-append :
    (name : String) (tiers : List Tier) (t : Tier)
    → has_tier name (tiers ++ t ∷ []) ≡ (if has_tier name tiers then true else str_eq t.name name)
unfolding has_tier
has_tier-append name [] t = ground arith
has_tier-append name (x ∷ rest) t = ground (arith, has_tier-append name rest t)

pub Distinct-append :
    (tiers : List Tier) (t : Tier)
    → has_tier t.name tiers ≡ false
    → Distinct tiers
    → Distinct (tiers ++ t ∷ [])
unfolding Distinct has_tier
Distinct-append [] t new d = (refl, tt)
Distinct-append (x ∷ rest) t new (fresh, d) = (
  ground (arith, has_tier-append x.name rest t, eq_iff t.name x.name, eq_refl x.name),
  Distinct-append rest t (ground arith) d,
)

pub defaults-append :
    (tiers : List Tier) (t : Tier)
    → t.is_default ≡ false
    → defaults (tiers ++ t ∷ []) ≡ defaults tiers
unfolding defaults
defaults-append [] t n = ground arith
defaults-append (x ∷ rest) t n = ground (arith, defaults-append rest t n)

-- A change of the tiers that keeps every name keeps the repos assigned.
pub all_assigned-keeps :
    (a b : List Tier) (repos : List Repo)
    → ((name : String) → has_tier name a ≡ true → has_tier name b ≡ true)
    → all_assigned a repos ≡ true
    → all_assigned b repos ≡ true
unfolding all_assigned
all_assigned-keeps a b [] k h = refl
all_assigned-keeps a b (r ∷ rest) k h = ground (arith, k r.tier, all_assigned-keeps a b rest k)

module _ (name : String) (change : Tier → Tier) (same : (t : Tier) → (change t).name ≡ t.name)
    (flag : (t : Tier) → (change t).is_default ≡ t.is_default) where
  pub has_tier-update_named :
      (n : String) (tiers : List Tier)
      → has_tier n (update_named name change tiers) ≡ has_tier n tiers
  unfolding has_tier
  has_tier-update_named n [] = refl
  has_tier-update_named n (t ∷ rest) = ground (arith, has_tier-update_named n rest, same t)

  pub Distinct-update_named :
      (tiers : List Tier) → Distinct tiers → Distinct (update_named name change tiers)
  unfolding Distinct
  Distinct-update_named [] d = tt
  Distinct-update_named (t ∷ rest) (fresh, d) =
      (ground (arith, has_tier-update_named t.name rest, same t), Distinct-update_named rest d)

  pub defaults-update_named :
      (tiers : List Tier) → defaults (update_named name change tiers) ≡ defaults tiers
  unfolding defaults
  defaults-update_named [] = refl
  defaults-update_named (t ∷ rest) = ground (arith, defaults-update_named rest, flag t)
