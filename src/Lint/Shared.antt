-- ===== src/Lint/Shared.antt =====
-- The errors that Lint finds in a set of files.
use morsel.Prelude.{
  ℕ, ◌+◌, ◌≡◌, refl, sym, ap, subst, Bool, List, [], ◌∷◌, ◌++◌, String, Option, Assoc, sum_of,
  if◌then◌else◌, ltb, length, arith,
}
use morsel.Lint.Files.{Diagnostic, File, Json}
use morsel.Lint.Checks.{lint_file}
use morsel.Lint.Names.{lint_files, lint, name_diags, note_name}
use morsel.Lint.Totals.{
  errors, declares, name_of, Rows, rows_weight, Complete, note_name-note, note-weight, note-Rows,
  picks, errors-append, name_diags-errors, Rows-weight, Rows-same,
}

module _ {Value : Type 0} (json : Json Value) where
  abbrev pub declared : File → Option String
  declared file = name_of (lint_file json file).1

  -- How many of the files declare the name.
  abbrev pub times : List File → String → ℕ
  times files name = sum_of (λ f. declares name (declared f)) files

  -- Another file of the set declares the same name.
  abbrev pub is_shared : List File → File → Bool
  is_shared files f = picks (λ n. ltb 1 (times files n)) (declared f)

  lint_files-errors :
      (weight : String → ℕ) (files : List File) (diags : List Diagnostic)
      (names : Assoc (List String))
      → errors weight (lint_files json files diags names).0
        ≡ errors weight diags + sum_of (λ f. errors weight (lint_file json f).0) files
  unfolding lint_files
  lint_files-errors weight [] diags names = ground arith
  lint_files-errors weight (f ∷ files) diags names = ground (
    arith,
    lint_files-errors weight files (diags ++ (lint_file json f).0)
        (note_name f.path (lint_file json f).1 names),
    errors-append weight diags (lint_file json f).0,
  )

  lint_files-weight :
      (pick : String → Bool) (weight : String → ℕ) (files : List File) (diags : List Diagnostic)
      (names : Assoc (List String))
      → rows_weight pick weight (lint_files json files diags names).1
        ≡ rows_weight pick weight names
          + sum_of (λ f. if picks pick (declared f) then weight f.path else 0) files
  unfolding lint_files
  lint_files-weight pick weight [] diags names = ground arith
  lint_files-weight pick weight (f ∷ files) diags names =
      let noted = ap (rows_weight pick weight) (note_name-note f.path (lint_file json f).1 names) in
      ground (
        arith,
        lint_files-weight pick weight files (diags ++ (lint_file json f).0)
            (note_name f.path (lint_file json f).1 names),
        noted,
        note-weight pick weight f.path (declared f) names,
      )

  lint_files-Rows :
      (count total : String → ℕ) (files : List File) (diags : List Diagnostic)
      (names : Assoc (List String))
      → ((n : String) → total n ≡ count n + times files n)
      → Complete count names
      → Rows count names
      → Rows total (lint_files json files diags names).1
  unfolding lint_files
  lint_files-Rows count total [] diags names step absent h =
      Rows-same count total names (λ n. ground (arith, step n)) h
  lint_files-Rows count total (f ∷ files) diags names step absent h =
      let next : String → ℕ = λ n. count n + declares n (declared f) in
      let (rows, complete) = note-Rows count next f.path (declared f) names (λ n. refl) absent h in
      let same = note_name-note f.path (lint_file json f).1 names in
      lint_files-Rows next total files (diags ++ (lint_file json f).0)
        (note_name f.path (lint_file json f).1 names) (λ n. ground (arith, step n))
        (subst (Complete next) (sym same) complete) (subst (Rows next) (sym same) rows)

  -- In whatever order the map of names is read, the errors of Lint, each with any weight of its
  -- file, are those of the files by themselves and one more for each file whose name at least two
  -- files of the set declare.
  pub errors-lint :
      (order : Assoc (List String) → Assoc (List String)) (weight : String → ℕ) (files : List File)
      → ((m : String × List String → ℕ) (names : Assoc (List String))
          → sum_of m (order names) ≡ sum_of m names)
      → errors weight (lint json order files)
        ≡ sum_of (λ f. errors weight (lint_file json f).0) files
          + sum_of (λ f. if is_shared files f then weight f.path else 0) files
  unfolding lint
  errors-lint order weight files keeps =
      let (diags, names) = lint_files json files [] [] in
      let rows : Rows (times files) names =
        lint_files-Rows (λ n. 0) (times files) files [] [] (λ n. omega arith) (λ n a. refl) tt in
      ground (
        arith,
        errors-append weight diags (name_diags (order names)),
        lint_files-errors weight files [] [],
        name_diags-errors weight (order names),
        keeps (λ row. if ltb 1 (length row.1) then sum_of weight row.1 else 0) names,
        Rows-weight (times files) weight names rows,
        lint_files-weight (λ n. ltb 1 (times files n)) weight files [] [],
      )
