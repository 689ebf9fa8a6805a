-- ===== src/Lint/Command.antt =====
-- What the lint command says of the files once it has corrected them.
use morsel.Prelude.{
  ℕ, ◌≡◌, refl, sym, ap, ◌∙◌, subst, Bool, true, false, ◌||◌, List, [], ◌∷◌, ◌++◌, map, String,
  Option, none, some, if◌then◌else◌, str_eq, arith, any, ok, err, Result, Assoc, insert, sum_of,
  eq_iff, any-append,
}
use morsel.Lint.Files.{File, Json}
use morsel.Lint.Fix.{
  fix_file, keep_fixed, fix, replace_content, write_fixed, lint_command, Verdict, lint_failed,
  passed,
}
use morsel.Lint.Shared.{is_shared}
use morsel.Lint.Verdict.{is_rejected, has_error-lint}

-- The file with the content that the linter corrects it to, if it does.
abbrev pub with_content : File → Result String (Option (List ℕ)) → File
with_content file (err e) = file
with_content file (ok none) = file
with_content file (ok (some content)) = record file { content = content }

abbrev at_path : String → File → Bool
at_path path file = str_eq file.path path

-- No two files have the same path.
abbrev pub Apart : List File → Type 0
Apart [] = Unit
Apart (file ∷ rest) = (any (at_path file.path) rest ≡ false) × Apart rest

-- No file of the first list has the path of one of the second.
abbrev Clear : List File → List File → Type 0
Clear front [] = Unit
Clear front (file ∷ rest) = (any (at_path file.path) front ≡ false) × Clear front rest

Clear-none : (files : List File) → Clear [] files
Clear-none [] = tt
Clear-none (file ∷ files) = (refl, Clear-none files)

replace_content-there :
    (new file : File) (front rest : List File)
    → any (at_path new.path) front ≡ false
    → new.path ≡ file.path
    → replace_content new (front ++ file ∷ rest)
      ≡ front ++ record file { content = new.content } ∷ rest
unfolding replace_content
replace_content-there new file [] rest a e = ground (arith, eq_iff file.path new.path, e)
replace_content-there new file (x ∷ front) rest a e =
    ground (arith, a, replace_content-there new file front rest (ground (arith, a)) e)

append-one :
    (front : List File) (x : File) (rest : List File)
    → (front ++ x ∷ []) ++ rest ≡ front ++ x ∷ rest
append-one [] x rest = refl
append-one (y ∷ front) x rest = ap (λ (l : List File). y ∷ l) (append-one front x rest)

Clear-snoc :
    (front rest : List File) (x : File)
    → Clear front rest
    → any (at_path x.path) rest ≡ false
    → Clear (front ++ x ∷ []) rest
Clear-snoc front [] x c a = tt
Clear-snoc front (y ∷ rest) x (here, there) a = (
  ground (
    arith,
    here,
    a,
    any-append (at_path y.path) front x,
    eq_iff x.path y.path,
    eq_iff y.path x.path,
  ),
  Clear-snoc front rest x there (ground (arith, a)),
)

module _ {Value : Type 0} (json : Json Value) where
  abbrev pub corrected : File → File
  corrected file = with_content file (fix_file json file)

  abbrev working : String → Bool
  working path = false

  write_fixed-corrected :
      (front rest : List File) (disk : Assoc (List ℕ))
      → Apart rest
      → Clear front rest
      → (write_fixed working (fix json rest) disk (front ++ rest)).1
        ≡ some (front ++ map corrected rest)
  unfolding fix write_fixed
  write_fixed-corrected front [] disk apart clear = refl
  write_fixed-corrected front (file ∷ rest) disk (alone, apart) (here, clear) =
      go (fix_file json file) refl
        (λ x kept c. write_fixed-corrected (front ++ x ∷ []) rest kept apart c)
    where
      -- The rest, after one more file.
      Next : Type 0
      Next =
          (x : File) (kept : Assoc (List ℕ))
          → Clear (front ++ x ∷ []) rest
          → (write_fixed working (fix json rest) kept ((front ++ x ∷ []) ++ rest)).1
            ≡ some ((front ++ x ∷ []) ++ map corrected rest)

      -- The files before are done, and this one too.
      onward :
          Next
          → (x : File) (kept : Assoc (List ℕ)) → x.path ≡ file.path
          → (write_fixed working (fix json rest) kept (front ++ x ∷ rest)).1
            ≡ some (front ++ x ∷ map corrected rest)
      onward more x kept same =
          let next = more x kept (
            Clear-snoc front rest x clear
              (subst (λ p. any (at_path p) rest ≡ false) (sym same) alone)) in
          ap (λ l. (write_fixed working (fix json rest) kept l).1) (sym (append-one front x rest))
          ∙ next
          ∙ ap (λ (l : List File). some l) (append-one front x (map corrected rest))

      go :
          (r : Result String (Option (List ℕ)))
          → fix_file json file ≡ r
          → Next
          → (write_fixed working
              (keep_fixed file.path r (fix json rest))
              disk
              (front ++ file ∷ rest)).1
            ≡ some (front ++ with_content file r ∷ map corrected rest)
      go (err x) e more = onward more file disk refl
      go (ok none) e more = onward more file disk refl
      go (ok (some content)) e more =
          let new : File = record { path = file.path; content = content } in
          let kept = insert file.path content disk in
          ap (λ l. (write_fixed working (fix json rest) kept l).1)
            (replace_content-there new file front rest here refl)
          ∙ onward more (record file { content = content }) kept refl

  abbrev judged : List File → Verdict
  judged files =
      if any (is_rejected json) files || any (is_shared json files) files
      then lint_failed
      else passed

  -- If the linter is initialised, no two files have the same path and every write works, the lint
  -- command fails exactly if some file is no JSON or not what the schema asks for, or two files
  -- that can be decoded declare one name; with --fix this is said of the corrected files. The
  -- linter looks at one version of a file, so the removal of a permanent resource is no error.
  -- Warnings never make it fail.
  pub lint_command-judged :
      (order : Assoc (List String) → Assoc (List String)) (fixing : Bool) (files : List File)
      (disk : Assoc (List ℕ))
      → ((m : String × List String → ℕ) (names : Assoc (List String))
          → sum_of m (order names) ≡ sum_of m names)
      → Apart files
      → (lint_command (some json) order working fixing files disk).1
        ≡ judged (if fixing then map corrected files else files)
  unfolding lint_command
  lint_command-judged order true [] disk keeps apart = refl
  lint_command-judged order false [] disk keeps apart = refl
  lint_command-judged order true (file ∷ rest) disk keeps apart =
      let files = file ∷ rest in
      let clear : Clear [] files = Clear-none files in
      ground (
        arith,
        write_fixed-corrected [] files disk apart clear,
        has_error-lint json order (map corrected files) keeps,
      )
  lint_command-judged order false (file ∷ rest) disk keeps apart =
      ground (arith, has_error-lint json order (file ∷ rest) keeps)
