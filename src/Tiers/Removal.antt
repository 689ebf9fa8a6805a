-- ===== src/Tiers/Removal.antt =====
-- The tiers after a row is deleted or the default has moved, and the repos after one has changed.
use morsel.Prelude.{
  ℕ, ◌≡◌, refl, ◌∙◌, true, false, List, [], ◌∷◌, ◌++◌, some, String, str_eq, if◌then◌else◌, arith,
  eq_iff, eq_refl,
}
use morsel.Tiers.Tables.{
  Tier, Repo, get_tier, delete_tier, set_default_tier, update_repo, count_repos_by_tier,
  list_repos_by_tier, get_default_tier_name, Faults, read_default_tier,
}
use morsel.Tiers.Invariant.{has_tier, Distinct, defaults, all_assigned}

pub has_tier-delete_tier :
    (n name : String) (tiers : List Tier)
    → has_tier n (delete_tier name tiers) ≡ (if str_eq name n then false else has_tier n tiers)
unfolding has_tier delete_tier
has_tier-delete_tier n name [] = ground arith
has_tier-delete_tier n name (t ∷ rest) = ground (
  arith,
  has_tier-delete_tier n name rest,
  eq_iff t.name name,
  eq_iff t.name n,
  eq_iff name n,
  eq_refl n,
)

pub Distinct-delete_tier :
    (name : String) (tiers : List Tier) → Distinct tiers → Distinct (delete_tier name tiers)
unfolding Distinct delete_tier
Distinct-delete_tier name [] d = tt
Distinct-delete_tier name (t ∷ rest) (fresh, d) =
    ground (arith, has_tier-delete_tier t.name name rest, Distinct-delete_tier name rest d)

defaults-delete_absent :
    (name : String) (tiers : List Tier)
    → has_tier name tiers ≡ false
    → defaults (delete_tier name tiers) ≡ defaults tiers
unfolding has_tier delete_tier defaults
defaults-delete_absent name [] h = refl
defaults-delete_absent name (t ∷ rest) h = ground (arith, defaults-delete_absent name rest)

-- The default tier stays when another one is deleted.
pub defaults-delete_tier :
    (name : String) (tiers : List Tier) (t : Tier)
    → get_tier name tiers ≡ some t
    → t.is_default ≡ false
    → Distinct tiers
    → defaults (delete_tier name tiers) ≡ defaults tiers
unfolding get_tier has_tier delete_tier defaults Distinct
defaults-delete_tier name [] t e h d = refl
defaults-delete_tier name (x ∷ rest) t e h (fresh, d) =
    ground (
      arith,
      eq_iff x.name name,
      defaults-delete_absent name rest,
      defaults-delete_tier name rest t,
    )

pub has_tier-set_default_tier :
    (now : ℕ) (n name : String) (tiers : List Tier)
    → has_tier n (set_default_tier now name tiers) ≡ has_tier n tiers
unfolding has_tier set_default_tier
has_tier-set_default_tier now n name [] = refl
has_tier-set_default_tier now n name (t ∷ rest) =
    ground (arith, has_tier-set_default_tier now n name rest)

pub Distinct-set_default_tier :
    (now : ℕ) (name : String) (tiers : List Tier)
    → Distinct tiers
    → Distinct (set_default_tier now name tiers)
unfolding Distinct set_default_tier
Distinct-set_default_tier now name [] d = tt
Distinct-set_default_tier now name (t ∷ rest) (fresh, d) = (
  has_tier-set_default_tier now t.name name rest ∙ fresh,
  Distinct-set_default_tier now name rest d,
)

-- Among tiers with distinct names, at most one becomes the default.
pub defaults-set_default_tier :
    (now : ℕ) (name : String) (tiers : List Tier)
    → Distinct tiers
    → defaults (set_default_tier now name tiers) ≡ (if has_tier name tiers then 1 else 0)
unfolding Distinct has_tier set_default_tier defaults
defaults-set_default_tier now name [] d = refl
defaults-set_default_tier now name (t ∷ rest) (fresh, d) =
    ground (arith, eq_iff t.name name, defaults-set_default_tier now name rest d)

pub all_assigned-delete_tier :
    (name : String) (tiers : List Tier) (repos : List Repo)
    → count_repos_by_tier name repos ≡ 0
    → all_assigned tiers repos ≡ true
    → all_assigned (delete_tier name tiers) repos ≡ true
unfolding all_assigned count_repos_by_tier list_repos_by_tier
all_assigned-delete_tier name tiers [] c h = refl
all_assigned-delete_tier name tiers (r ∷ rest) c h = ground (
  arith,
  has_tier-delete_tier r.tier name tiers,
  eq_iff r.tier name,
  eq_iff name r.tier,
  eq_refl name,
  all_assigned-delete_tier name tiers rest,
)

pub all_assigned-update_repo :
    (slug tier : String) (tiers : List Tier) (repos : List Repo)
    → has_tier tier tiers ≡ true
    → all_assigned tiers repos ≡ true
    → all_assigned tiers (update_repo slug tier repos) ≡ true
unfolding all_assigned
all_assigned-update_repo slug tier tiers [] t h = refl
all_assigned-update_repo slug tier tiers (r ∷ rest) t h =
    ground (arith, all_assigned-update_repo slug tier tiers rest)

pub all_assigned-append :
    (tiers : List Tier) (repos : List Repo) (r : Repo)
    → has_tier r.tier tiers ≡ true
    → all_assigned tiers repos ≡ true
    → all_assigned tiers (repos ++ r ∷ []) ≡ true
unfolding all_assigned
all_assigned-append tiers [] r t h = ground arith
all_assigned-append tiers (x ∷ rest) r t h = ground (arith, all_assigned-append tiers rest r t)

-- With one default tier that can be read, its name is that of a tier.
pub get_default_tier_name-has :
    (f : Faults) (tiers : List Tier)
    → f read_default_tier ≡ false
    → defaults tiers ≡ 1
    → has_tier (get_default_tier_name f tiers) tiers ≡ true
unfolding get_default_tier_name defaults has_tier
get_default_tier_name-has f [] w d = ground arith
get_default_tier_name-has f (t ∷ rest) w d =
    ground (arith, eq_refl t.name, get_default_tier_name-has f rest w)
