-- ===== src/Lint/Verdict.antt =====
-- When the lint command fails.
use morsel.Prelude.{
  ℕ, ◌≡◌, refl, Bool, true, false, not, ◌||◌, List, [], ◌∷◌, ◌++◌, map, String, Assoc, sum_of,
  if◌then◌else◌, ltb, length, Result-cases, inl, inr, arith, any, ok, err,
}
use morsel.Lint.Files.{
  Diagnostic, File, Json, MorselFile, text, ValidationError, validation_error, no_cause, cause,
  Validation, valid, invalid, failed,
}
use morsel.Lint.Checks.{
  lint_file, warnings, type_warnings, persistence_warnings, semantic_diags, schema_diags,
  leaf_errors, leaf_errors_of, error_at,
}
use morsel.Lint.Names.{lint}
use morsel.Lint.Fix.{has_error}
use morsel.Lint.Totals.{errors, errors-append}
use morsel.Lint.Shared.{is_shared, errors-lint}

-- How many errors there are.
abbrev count : List Diagnostic → ℕ
count diags = errors (λ path. 1) diags

has_error-count : (diags : List Diagnostic) → has_error diags ≡ ltb 0 (count diags)
has_error-count [] = refl
has_error-count (d ∷ diags) = ground (arith, has_error-count diags)

warnings-count : (path : String) (all : List (Bool × String)) → count (warnings path all) ≡ 0
unfolding warnings
warnings-count path [] = refl
warnings-count path ((holds, m) ∷ rest) = ground (arith, warnings-count path rest)

semantic_diags-count : (path : String) (mf : MorselFile) → count (semantic_diags path mf) ≡ 0
unfolding semantic_diags
semantic_diags-count path mf =
    warnings-count path (type_warnings mf ++ persistence_warnings mf.persistence)

append-some : (xs ys : List String) → ltb 0 (length xs) ≡ true → ltb 0 (length (xs ++ ys)) ≡ true
append-some [] ys h = ground (arith, h)
append-some (x ∷ xs) ys h = ground arith

-- An error of the schema has one at its end that nothing caused.
leaf_errors-some : (e : ValidationError) → ltb 0 (length (leaf_errors e)) ≡ true
unfolding leaf_errors
leaf_errors-some (validation_error m no_cause) = refl
leaf_errors-some (validation_error m (cause e rest)) =
    append-some (leaf_errors e) (leaf_errors_of rest) (leaf_errors-some e)

messages-count :
    (path : String) (messages : List String)
    → count (map (λ m. error_at path (text m)) messages) ≡ length messages
messages-count path [] = refl
messages-count path (m ∷ messages) = ground (arith, messages-count path messages)

abbrev pub is_valid : Validation → Bool
is_valid valid = true
is_valid (invalid e) = false
is_valid (failed m) = false

schema_diags-count :
    (path : String) (v : Validation) → ltb 0 (count (schema_diags path v)) ≡ not (is_valid v)
unfolding schema_diags
schema_diags-count path valid = refl
schema_diags-count path (invalid e) =
    ground (arith, messages-count path (leaf_errors e), leaf_errors-some e)
schema_diags-count path (failed m) = refl

module _ {Value : Type 0} (json : Json Value) where
  -- The file is no JSON, or not what the schema asks for.
  abbrev pub is_rejected : File → Bool
  is_rejected file = elim (json.unmarshal file.content) [
    | err e ↦ true
    | ok raw ↦ not (is_valid (json.validate raw))
  ]

  lint_file-rejected : (file : File) → ltb 0 (count (lint_file json file).0) ≡ is_rejected file
  unfolding lint_file
  lint_file-rejected file = elim (Result-cases (json.unmarshal file.content)) [
    | inr (e, a) ↦ ground (arith, a)
    | inl (raw, a) ↦ elim (Result-cases (json.unmarshal_file file.content)) [
      | inr (e, b) ↦ ground (arith, a, b, schema_diags-count file.path (json.validate raw))
      | inl (mf, b) ↦ ground (
        arith,
        a,
        b,
        schema_diags-count file.path (json.validate raw),
        errors-append (λ path. 1) (schema_diags file.path (json.validate raw))
            (semantic_diags file.path mf),
        semantic_diags-count file.path mf,
      )
    ]
  ]

  any-rejected :
      (files : List File)
      → ltb 0 (sum_of (λ f. count (lint_file json f).0) files) ≡ any is_rejected files
  any-rejected [] = refl
  any-rejected (f ∷ files) = ground (arith, lint_file-rejected f, any-rejected files)

  any-sum :
      (p : File → Bool) (files : List File)
      → ltb 0 (sum_of (λ f. if p f then 1 else 0) files) ≡ any p files
  any-sum p [] = refl
  any-sum p (f ∷ files) = ground (arith, any-sum p files)

  -- Lint finds an error if a file is rejected by itself or two files declare one name.
  pub has_error-lint :
      (order : Assoc (List String) → Assoc (List String)) (files : List File)
      → ((m : String × List String → ℕ) (names : Assoc (List String))
          → sum_of m (order names) ≡ sum_of m names)
      → has_error (lint json order files)
        ≡ any is_rejected files || any (is_shared json files) files
  has_error-lint order files keeps = ground (
    arith,
    has_error-count (lint json order files),
    errors-lint json order (λ path. 1) files keeps,
    any-rejected files,
    any-sum (is_shared json files) files,
  )
