-- ===== src/Lint/Fix.antt =====
-- Fix of cmd/morsel/internal/lint/lint.go and the lint command of cmd/morsel/internal/cli/lint.go.
use morsel.Prelude.{
  ℕ, Bool, true, false, ◌&&◌, List, [], ◌∷◌, ◌++◌, Option, none, some, String, str_eq,
  if◌then◌else◌, Assoc, insert, any, Result, ok, err, ◌==◌,
}
use morsel.Lint.Files.{Diagnostic, File, MorselFile, Json, Severity, error, warning}
use morsel.Lint.Names.{lint}

abbrev pub same_bytes : List ℕ → List ℕ → Bool
same_bytes [] [] = true
same_bytes [] (b ∷ ys) = false
same_bytes (a ∷ xs) [] = false
same_bytes (a ∷ xs) (b ∷ ys) = a == b && same_bytes xs ys

abbrev pub schema_url : String
schema_url =
    "https://raw.githubusercontent.com/ifeanyiecheruo/morsel/main/schemas/morsel.schema.json"

abbrev pub with_schema : MorselFile → MorselFile
with_schema mf = if str_eq mf.schema "" then record mf { schema = schema_url } else mf

abbrev pub newline : List ℕ
newline = 10 ∷ []

abbrev pub keep_fixed : String → Result String (Option (List ℕ)) → List File → List File
keep_fixed path (err e) rest = rest
keep_fixed path (ok none) rest = rest
keep_fixed path (ok (some content)) rest = record { path = path; content = content } ∷ rest

module _ {Value : Type 0} (json : Json Value) where
  -- The canonical content, if the file is not in that form already.
  unfoldable pub fix_file : File → Result String (Option (List ℕ))
  fix_file file = elim (json.decode_strict file.content) [
    | err e ↦ err e
    | ok mf ↦ elim (json.marshal_indent (with_schema mf)) [
      | err e ↦ err e
      | ok text ↦
          let corrected = text ++ newline in
          if same_bytes corrected file.content then ok none else ok (some corrected)
    ]
  ]

  unfoldable pub fix : List File → List File
  unfolding fix_file
  fix [] = []
  fix (file ∷ rest) = keep_fixed file.path (fix_file file) (fix rest)

-- The content of the first file of that path is replaced.
unfoldable pub replace_content : File → List File → List File
replace_content new [] = []
replace_content new (file ∷ rest) =
    let more = replace_content new rest in
    if str_eq file.path new.path then record file { content = new.content } ∷ rest else file ∷ more

-- The files on the disk, those that were read, and whether every write worked.
unfoldable pub write_fixed :
    (String → Bool) → List File → Assoc (List ℕ) → List File → Assoc (List ℕ) × Option (List File)
unfolding replace_content
write_fixed broken [] disk files = (disk, some files)
write_fixed broken (new ∷ rest) disk files =
    let more =
      write_fixed broken rest (insert new.path new.content disk) (replace_content new files) in
    if broken new.path then (disk, none) else more

abbrev pub is_error : Severity → Bool
is_error error = true
is_error warning = false

abbrev pub has_error : List Diagnostic → Bool
has_error diags = any (λ d. is_error d.severity) diags

pub data Verdict : Type 0 where
  passed lint_failed write_failed not_initialised : Verdict

abbrev pub verdict : List Diagnostic → Verdict
verdict diags = if has_error diags then lint_failed else passed

-- The command on the files that were found. `order` is that of the map of names.
unfoldable pub lint_command :
    {Value : Type 0}
    → Option (Json Value)
    → (Assoc (List String) → Assoc (List String))
    → (String → Bool)
    → Bool
    → List File
    → Assoc (List ℕ)
    → Assoc (List ℕ) × Verdict
unfolding lint fix write_fixed
lint_command linter order broken fixing [] disk = (disk, passed)
lint_command none order broken fixing files disk = (disk, not_initialised)
lint_command (some json) order broken fixing files disk =
    if fixing
    then (let (written, after) = write_fixed broken (fix json files) disk files in
        elim after [
          | none ↦ (written, write_failed)
          | some fixed ↦ (written, verdict (lint json order fixed))
        ])
    else (disk, verdict (lint json order files))
