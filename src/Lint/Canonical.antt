-- ===== src/Lint/Canonical.antt =====
-- The content that Fix gives is in the form that Fix leaves alone.
use morsel.Prelude.{
  ℕ, ◌≡◌, refl, ap, ◌∙◌, true, List, [], ◌∷◌, ◌++◌, none, some, arith, ok, Result-cases, inl, inr,
  eq_iff,
}
use morsel.Lint.Files.{File, Json, MorselFile}
use morsel.Lint.Fix.{same_bytes, with_schema, newline, fix_file, fix}

same_bytes_refl : (bytes : List ℕ) → same_bytes bytes bytes ≡ true
same_bytes_refl [] = refl
same_bytes_refl (b ∷ bytes) = ground (arith, same_bytes_refl bytes)

with_schema_idem : (mf : MorselFile) → with_schema (with_schema mf) ≡ with_schema mf
with_schema_idem mf = ground (arith, eq_iff mf.schema "")

module _ {Value : Type 0} (json : Json Value) where
  -- What the decoder has read and MarshalIndent has written, the decoder reads as the same file.
  abbrev pub RoundTrips : Type 0
  RoundTrips =
      (content text : List ℕ) (mf : MorselFile)
      → json.decode_strict content ≡ ok mf
      → json.marshal_indent (with_schema mf) ≡ ok text
      → json.decode_strict (text ++ newline) ≡ ok (with_schema mf)

  fixed-canonical :
      (file : File) (content : List ℕ)
      → RoundTrips
      → fix_file json file ≡ ok (some content)
      → fix_file json (record { path = file.path; content = content }) ≡ ok none
  unfolding fix_file
  fixed-canonical file content h e = elim (Result-cases (json.decode_strict file.content)) [
    | inr (x, a) ↦ ground (arith, a, e)
    | inl (mf, a) ↦ elim (Result-cases (json.marshal_indent (with_schema mf))) [
      | inr (x, b) ↦ ground (arith, a, b, e)
      | inl (text, b) ↦
          let corrected : content ≡ text ++ newline = ground (arith, a, b, e) in
          let read = h file.content text mf a b in
          let again : json.decode_strict content ≡ ok (with_schema mf) =
            ap json.decode_strict corrected ∙ read in
          let canonical : json.marshal_indent (with_schema (with_schema mf)) ≡ ok text =
            ap json.marshal_indent (with_schema_idem mf) ∙ b in
          ground (arith, again, canonical, corrected, same_bytes_refl content)
    ]
  ]

  -- If a file that the decoder has read and MarshalIndent has written is read again as the same
  -- file, Fix corrects none of the files that Fix has given.
  pub fix-fix : (files : List File) → RoundTrips → fix json (fix json files) ≡ []
  unfolding fix
  fix-fix [] h = refl
  fix-fix (file ∷ files) h = elim (Result-cases (fix_file json file)) [
    | inr (x, a) ↦ ground (arith, a, fix-fix files h)
    | inl (none, a) ↦ ground (arith, a, fix-fix files h)
    | inl (some content, a) ↦ ground (arith, a, fixed-canonical file content h a, fix-fix files h)
  ]
