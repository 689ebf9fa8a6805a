-- ===== src/Lint/Names.antt =====
-- Lint of cmd/morsel/internal/lint/lint.go: the files of a set, and the names that they share.
use morsel.Prelude.{
  List, [], ◌∷◌, ◌++◌, map, Option, none, some, String, str_eq, if◌then◌else◌, length, ltb, Assoc,
}
use morsel.Lint.Files.{Diagnostic, File, MorselFile, Json, declared_in_multiple}
use morsel.Lint.Checks.{error_at, lint_file}

-- The paths under a name, with one more.
unfoldable pub append_name : String → String → Assoc (List String) → Assoc (List String)
append_name name path [] = (name, path ∷ []) ∷ []
append_name name path ((found, paths) ∷ rows) =
    let rest = append_name name path rows in
    if str_eq found name then (found, paths ++ path ∷ []) ∷ rows else (found, paths) ∷ rest

unfoldable pub note_name : String → Option MorselFile → Assoc (List String) → Assoc (List String)
unfolding append_name
note_name path none names = names
note_name path (some mf) names = if str_eq mf.name "" then names else append_name mf.name path names

unfoldable pub name_diags : Assoc (List String) → List Diagnostic
name_diags [] = []
name_diags ((name, paths) ∷ rows) =
    (if ltb 1 (length paths)
      then map (λ path. error_at path (declared_in_multiple name paths)) paths
      else [])
    ++ name_diags rows

module _ {Value : Type 0} (json : Json Value) where
  unfoldable pub lint_files :
      List File → List Diagnostic → Assoc (List String) → List Diagnostic × Assoc (List String)
  unfolding lint_file note_name
  lint_files [] diags names = (diags, names)
  lint_files (file ∷ rest) diags names =
      let (found, mf) = lint_file json file in
      lint_files rest (diags ++ found) (note_name file.path mf names)

  -- The map of names is read in some order.
  unfoldable pub lint : (Assoc (List String) → Assoc (List String)) → List File → List Diagnostic
  unfolding lint_files name_diags
  lint order files =
      let (diags, names) = lint_files files [] [] in diags ++ name_diags (order names)
