-- ===== src/Prelude/Table.antt =====
-- A table keyed by texts, as an association list.
use Prim.Native.String.{String}
use mathlib.Core.Path.{◌≡◌, refl}
use mathlib.Core.Option.{Option, none, some}
use mathlib.Core.List.{List, [], ◌∷◌}
use native.Mathlib.Omega.{arith}
use text.Mathlib.TextEquality.{eq_iff}
use morsel.Prelude.Tests.{str_eq, if◌then◌else◌}

abbrev pub Assoc {ℓ} : Type ℓ → Type ℓ
Assoc V = List (String × V)

module _ {ℓ} {V : Type ℓ} where
  unfoldable pub lookup : String → Assoc V → Option V
  lookup key [] = none
  lookup key ((found, value) ∷ rows) = if str_eq found key then some value else lookup key rows

  unfoldable pub insert : String → V → Assoc V → Assoc V
  insert key new [] = (key, new) ∷ []
  insert key new ((found, value) ∷ rows) =
      if str_eq found key then (key, new) ∷ rows else (found, value) ∷ insert key new rows

  unfoldable pub remove : String → Assoc V → Assoc V
  remove key [] = []
  remove key ((found, value) ∷ rows) =
      let kept = remove key rows in if str_eq found key then kept else (found, value) ∷ kept

  pub lookup-insert :
      (key asked : String) (new : V) (rows : Assoc V)
      → lookup asked (insert key new rows)
        ≡ (if str_eq key asked then some new else lookup asked rows)
  unfolding lookup insert
  lookup-insert key asked new [] = refl
  lookup-insert key asked new ((found, value) ∷ rows) = ground (
    arith,
    lookup-insert key asked new rows,
    eq_iff found key,
    eq_iff found asked,
    eq_iff key asked,
  )

  pub lookup-remove :
      (key asked : String) (rows : Assoc V)
      → lookup asked (remove key rows) ≡ (if str_eq key asked then none else lookup asked rows)
  unfolding lookup remove
  lookup-remove key asked [] = ground arith
  lookup-remove key asked ((found, value) ∷ rows) =
      ground (
        arith,
        lookup-remove key asked rows,
        eq_iff found key,
        eq_iff found asked,
        eq_iff key asked,
      )

pub ruleset table_laws = (lookup-insert, lookup-remove)
