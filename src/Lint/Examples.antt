-- ===== src/Lint/Examples.antt =====
-- Two files that declare one name, and the theorems applied.
use morsel.Prelude.{
  ℕ, ◌+◌, ◌≡◌, refl, sym, ap, ◌∙◌, if_split, true, false, ◌||◌, List, [], ◌∷◌, ◌++◌, map, String,
  none, some, Assoc, if◌then◌else◌, Result, ok, err, any, sum_of, arith,
}
use morsel.Lint.Files.{File, Json, MorselFile, valid}
use morsel.Lint.Checks.{lint_file}
use morsel.Lint.Names.{lint}
use morsel.Lint.Fix.{
  same_bytes, with_schema, newline, fix, lint_command, lint_failed, passed, has_error,
}
use morsel.Lint.Totals.{errors}
use morsel.Lint.Shared.{is_shared, errors-lint}
use morsel.Lint.Verdict.{is_rejected, has_error-lint}
use morsel.Lint.Canonical.{RoundTrips, fix-fix}
use morsel.Lint.Command.{Apart, corrected, lint_command-judged}

abbrev api : MorselFile
api = record {
  schema = "";
  name = "api";
  file_type = "http";
  dockerfile = "";
  port = none;
  private = none;
  tier = "";
  idle_after = "";
  health_check = none;
  schedule = "";
  timeout = "";
  retries = none;
  persistence = none;
}

-- One text of the file, and its canonical one.
abbrev read : List ℕ → Result String MorselFile
read content =
    if same_bytes content (1 ∷ [])
    then ok api
    else if same_bytes content (2 ∷ 10 ∷ [])
    then ok (with_schema api)
    else err "unexpected end of JSON input"

abbrev json : Json (List ℕ)
json = record {
  unmarshal = λ content. ok content;
  validate = λ value. valid;
  unmarshal_file = read;
  decode_strict = read;
  marshal_indent = λ mf. ok (2 ∷ []);
}

-- An answer's value is the answer's.
ok_inj : (x y : MorselFile) → ◌≡◌ {A = Result String MorselFile} (ok x) (ok y) → x ≡ y
ok_inj x y e = ap (λ (r : Result String MorselFile). elim r [ ok z ↦ z | err m ↦ x ]) e

abbrev files : List File
files =
    record { path = ".morsel/a.morsel.json"; content = 1 ∷ [] }
    ∷ record { path = ".morsel/b.morsel.json"; content = 1 ∷ [] }
    ∷ []

-- The first two names change places.
abbrev swap : Assoc (List String) → Assoc (List String)
swap (a ∷ b ∷ rest) = b ∷ a ∷ rest
swap names = names

swap_keeps :
    (m : String × List String → ℕ) (names : Assoc (List String))
    → sum_of m (swap names) ≡ sum_of m names
swap_keeps m [] = refl
swap_keeps m (a ∷ []) = refl
swap_keeps m (a ∷ b ∷ rest) = omega arith

errors-lint_example :
    errors (λ path. 1) (lint json swap files)
    ≡ sum_of (λ f. errors (λ path. 1) (lint_file json f).0) files
      + sum_of (λ f. if is_shared json files f then 1 else 0) files
errors-lint_example = errors-lint json swap (λ path. 1) files swap_keeps

two_errors : errors (λ path. 1) (lint json swap files) ≡ 2
unfolding lint
two_errors = refl

shared_name :
    has_error (lint json swap files)
    ≡ any (is_rejected json) files || any (is_shared json files) files
shared_name = has_error-lint json swap files swap_keeps

-- Whatever is read is the one file, with its schema or without.
read-api :
    (content : List ℕ) (mf : MorselFile) → read content ≡ ok mf → with_schema mf ≡ with_schema api
read-api content mf =
    if_split (λ r. r ≡ ok mf → with_schema mf ≡ with_schema api) (same_bytes content (1 ∷ [])) _ _
      (λ _ e. ap with_schema (sym (ok_inj api mf e)))
      (λ _.
        if_split (λ r. r ≡ ok mf → with_schema mf ≡ with_schema api)
          (same_bytes content (2 ∷ 10 ∷ [])) _ _
          (λ _ e. ap with_schema (sym (ok_inj (with_schema api) mf e))) (λ _ e. ground (arith, e)))

reads_back : RoundTrips json
reads_back content text mf e g =
    let written : text ≡ 2 ∷ [] = ground (arith, g) in
    ap (λ (t : List ℕ). read (t ++ newline)) written
    ∙ ap (λ (x : MorselFile). ok x) (sym (read-api content mf e))

fix-fix_example : fix json (fix json files) ≡ []
fix-fix_example = fix-fix json files reads_back

fixes_both : map (λ (f : File). f.content) (fix json files) ≡ (2 ∷ 10 ∷ []) ∷ (2 ∷ 10 ∷ []) ∷ []
unfolding fix
fixes_both = refl

two_paths : Apart files
two_paths = (refl, (refl, tt))

lint_command-judged_example : (lint_command (some json) swap (λ path. false) true files []).1 ≡ (
    if any (is_rejected json) (map (corrected json) files)
      || any (is_shared json (map (corrected json) files)) (map (corrected json) files)
    then lint_failed
    else passed)
lint_command-judged_example = lint_command-judged json swap true files [] swap_keeps two_paths
