-- ===== src/Lint/Totals.antt =====
-- The errors of a set of files, however the map of names is read.
use morsel.Prelude.{
  ℕ, ◌+◌, ◌≡◌, refl, subst, Bool, false, ◌||◌, List, [], ◌∷◌, ◌++◌, map, Option, none, some, String,
  str_eq, if◌then◌else◌, length, ltb, Assoc, sum_of, sum_of-append, length-append, arith, eq_iff,
  eq_refl, any, if_split,
}
use morsel.Lint.Files.{Diagnostic, MorselFile, declared_in_multiple}
use morsel.Lint.Checks.{error_at}
use morsel.Lint.Fix.{is_error}
use morsel.Lint.Names.{append_name, note_name, name_diags}

-- The errors, each with the weight of its file.
abbrev pub errors : (String → ℕ) → List Diagnostic → ℕ
errors weight diags = sum_of (λ d. if is_error d.severity then weight d.file else 0) diags

-- The name that a file declares.
abbrev pub name_of : Option MorselFile → Option String
name_of none = none
name_of (some mf) = if str_eq mf.name "" then none else some mf.name

abbrev pub declares : String → Option String → ℕ
declares name none = 0
declares name (some n) = if str_eq n name then 1 else 0

-- The weights of the paths under the names that pass the test.
abbrev pub rows_weight : (String → Bool) → (String → ℕ) → Assoc (List String) → ℕ
rows_weight pick weight rows =
    sum_of (λ (row : String × List String). if pick row.0 then sum_of weight row.1 else 0) rows

append_name-weight :
    (pick : String → Bool) (weight : String → ℕ) (name path : String) (rows : Assoc (List String))
    → rows_weight pick weight (append_name name path rows)
      ≡ rows_weight pick weight rows + (if pick name then weight path else 0)
unfolding append_name
append_name-weight pick weight name path [] = ground arith
append_name-weight pick weight name path ((found, paths) ∷ rows) = ground (
  arith,
  append_name-weight pick weight name path rows,
  sum_of-append weight paths (path ∷ []),
  eq_iff found name,
)

abbrev pub has_key : String → String × List String → Bool
has_key name row = str_eq row.0 name

-- Each name has one row, with as many paths as the count says.
abbrev pub Rows : (String → ℕ) → Assoc (List String) → Type 0
Rows count [] = Unit
Rows count ((name, paths) ∷ rows) =
    (length paths ≡ count name) × (any (has_key name) rows ≡ false) × Rows count rows

append_name-keys :
    (name path other : String) (rows : Assoc (List String))
    → any (has_key other) (append_name name path rows)
      ≡ any (has_key other) rows || str_eq name other
unfolding append_name
append_name-keys name path other [] = ground arith
append_name-keys name path other ((found, paths) ∷ rows) =
    ground (arith, append_name-keys name path other rows, eq_iff found name)

Rows-other :
    (count total : String → ℕ) (name : String) (rows : Assoc (List String))
    → ((n : String) → total n ≡ count n + declares n (some name))
    → any (has_key name) rows ≡ false
    → Rows count rows
    → Rows total rows
Rows-other count total name [] step absent h = tt
Rows-other count total name ((found, paths) ∷ rows) step absent (size, alone, rest) = (
  ground (arith, size, step found, eq_iff name found, eq_iff found name, absent),
  alone,
  Rows-other count total name rows step (ground (arith, absent)) rest,
)

append_name-Rows :
    (count total : String → ℕ) (name path : String) (rows : Assoc (List String))
    → ((n : String) → total n ≡ count n + declares n (some name))
    → (any (has_key name) rows ≡ false → count name ≡ 0)
    → Rows count rows
    → Rows total (append_name name path rows)
unfolding append_name
append_name-Rows count total name path [] step absent h =
    (ground (arith, step name, absent refl, eq_refl name), refl, tt)
append_name-Rows count total name path ((found, paths) ∷ rows) step absent (size, alone, rest) =
    if_split (Rows total) (str_eq found name) _ _
      (λ e.
        let same : found ≡ name = (eq_iff found name).0 e in
        let gone : any (has_key name) rows ≡ false =
          subst (λ (n : String). any (has_key n) rows ≡ false) same alone in
        (
          ground
              (arith, length-append paths (path ∷ []), size, step found, eq_iff name found, same),
          alone,
          Rows-other count total name rows step gone rest,
        ))
      (λ e. (
        ground (arith, size, step found, eq_iff name found, eq_iff found name, e),
        ground (
          arith,
          append_name-keys name path found rows,
          alone,
          eq_iff name found,
          eq_iff found name,
          e,
        ),
        append_name-Rows count total name path rows step (λ a. absent (ground (arith, a, e))) rest,
      ))

pub errors-append :
    (weight : String → ℕ) (front back : List Diagnostic)
    → errors weight (front ++ back) ≡ errors weight front + errors weight back
errors-append weight = sum_of-append (λ d. if is_error d.severity then weight d.file else 0)

map-errors :
    (weight : String → ℕ) (name : String) (all paths : List String)
    → errors weight (map (λ path. error_at path (declared_in_multiple name all)) paths)
      ≡ sum_of weight paths
map-errors weight name all [] = refl
map-errors weight name all (path ∷ paths) = ground (arith, map-errors weight name all paths)

pub name_diags-errors :
    (weight : String → ℕ) (rows : Assoc (List String))
    → errors weight (name_diags rows)
      ≡ sum_of
          (λ (row : String × List String). if ltb 1 (length row.1) then sum_of weight row.1 else 0)
          rows
unfolding name_diags
name_diags-errors weight [] = refl
name_diags-errors weight ((name, paths) ∷ rows) = ground (
  arith,
  errors-append weight
      (if ltb 1 (length paths)
        then map (λ path. error_at path (declared_in_multiple name paths)) paths
        else [])
      (name_diags rows),
  map-errors weight name paths paths,
  name_diags-errors weight rows,
)

pub Rows-weight :
    (count weight : String → ℕ) (rows : Assoc (List String))
    → Rows count rows
    → sum_of
        (λ (row : String × List String). if ltb 1 (length row.1) then sum_of weight row.1 else 0)
        rows
      ≡ rows_weight (λ n. ltb 1 (count n)) weight rows
Rows-weight count weight [] h = refl
Rows-weight count weight ((name, paths) ∷ rows) (size, alone, rest) =
    ground (arith, size, Rows-weight count weight rows rest)

abbrev pub note : String → Option String → Assoc (List String) → Assoc (List String)
note path none names = names
note path (some name) names = append_name name path names

pub note_name-note :
    (path : String) (mf : Option MorselFile) (names : Assoc (List String))
    → note_name path mf names ≡ note path (name_of mf) names
unfolding note_name
note_name-note path none names = refl
note_name-note path (some mf) names = ground arith

abbrev pub picks : (String → Bool) → Option String → Bool
picks pick none = false
picks pick (some n) = pick n

pub note-weight :
    (pick : String → Bool) (weight : String → ℕ) (path : String) (name : Option String)
    (names : Assoc (List String))
    → rows_weight pick weight (note path name names)
      ≡ rows_weight pick weight names + (if picks pick name then weight path else 0)
note-weight pick weight path none names = ground arith
note-weight pick weight path (some n) names = append_name-weight pick weight n path names

-- The names that have no row are those that nothing declares.
abbrev pub Complete : (String → ℕ) → Assoc (List String) → Type 0
Complete count rows = (name : String) → any (has_key name) rows ≡ false → count name ≡ 0

pub Rows-same :
    (count total : String → ℕ) (rows : Assoc (List String))
    → ((n : String) → total n ≡ count n)
    → Rows count rows
    → Rows total rows
Rows-same count total [] same h = tt
Rows-same count total ((name, paths) ∷ rows) same (size, alone, rest) =
    (ground (arith, size, same name), alone, Rows-same count total rows same rest)

pub note-Rows :
    (count total : String → ℕ) (path : String) (name : Option String) (rows : Assoc (List String))
    → ((n : String) → total n ≡ count n + declares n name)
    → Complete count rows
    → Rows count rows
    → Rows total (note path name rows) × Complete total (note path name rows)
note-Rows count total path none rows step absent h = (
  Rows-same count total rows (λ n. ground (arith, step n)) h,
  λ n a. ground (arith, step n, absent n a),
)
note-Rows count total path (some name) rows step absent h = (
  append_name-Rows count total name path rows step (absent name) h,
  λ n a. ground (arith, step n, absent n, a, append_name-keys name path n rows),
)
