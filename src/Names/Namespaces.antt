-- ===== src/Names/Namespaces.antt =====
-- AppNamespace of internal/kube/namespace.go.
use Prim.Native.Char.{Char, code}
use Prim.Native.String.append
use text.Mathlib.TextLemmas.{append_assoc}
use morsel.Prelude.{
  ◌≡◌, refl, sym, ap, ◌∙◌, ◌||◌, ◌==◌, String, str_append, str_eq, if◌then◌else◌, arith,
}
use morsel.Auth.Access.{repo_slug}

-- The replacer's pairs.
abbrev pub replaced : Char → Char
replaced c = if code c == b'/' || code c == b'_' then "-" else c

unfoldable pub slugify : String → String
slugify String.[] = ""
slugify (String.◌∷◌ c s) = String.◌∷◌ (replaced c) (slugify s)

unfoldable pub app_namespace : String → String → String
unfolding slugify
app_namespace slug name =
    let base = slugify slug in
    if str_eq name "" then base else str_append base (str_append "--" (slugify name))

app_namespace-slugify :
    (slug other name : String)
    → slugify slug ≡ slugify other
    → app_namespace slug name ≡ app_namespace other name
unfolding app_namespace
app_namespace-slugify slug other name p = ground (arith, p)

slugify-append : (s t : String) → slugify (str_append s t) ≡ str_append (slugify s) (slugify t)
unfolding slugify
slugify-append String.[] t = ap slugify (append.nil t) ∙ sym (append.nil (slugify t))
slugify-append (String.◌∷◌ c s) t =
    ap slugify (append.cons c s t)
    ∙ ap (String.◌∷◌ (replaced c)) (slugify-append s t)
    ∙ sym (append.cons (replaced c) (slugify s) (slugify t))

-- A character that the replacer gives, or that it replaces, between two texts.
slugify-joined :
    (sep s t : String)
    → slugify sep ≡ "-"
    → slugify (str_append s (str_append sep t))
      ≡ str_append (slugify s) (str_append "-" (slugify t))
slugify-joined sep s t e =
    slugify-append s (str_append sep t)
    ∙ ap (str_append (slugify s)) (slugify-append sep t ∙ ap (λ x. str_append x (slugify t)) e)

slash-dash : slugify "/" ≡ "-"
unfolding slugify
slash-dash = refl

dash-dash : slugify "-" ≡ "-"
unfolding slugify
dash-dash = refl

-- The apps of one name in the repos a-b/c and a/b-c have one namespace.
pub app_namespace-regrouped :
    (org middle repo name : String)
    → app_namespace (repo_slug (str_append org (str_append "-" middle)) repo) name
      ≡ app_namespace (repo_slug org (str_append middle (str_append "-" repo))) name
unfolding repo_slug
app_namespace-regrouped org middle repo name = app_namespace-slugify _ _ name (
    slugify-joined "/" (str_append org (str_append "-" middle)) repo slash-dash
    ∙ ap (λ x. str_append x (str_append "-" (slugify repo)))
        (slugify-joined "-" org middle dash-dash)
    ∙ append_assoc (slugify org) (str_append "-" (slugify middle)) (str_append "-" (slugify repo))
    ∙ ap (str_append (slugify org)) (
        append_assoc "-" (slugify middle) (str_append "-" (slugify repo))
        ∙ ap (str_append "-") (sym (slugify-joined "-" middle repo dash-dash)))
    ∙ sym (slugify-joined "/" org (str_append middle (str_append "-" repo)) slash-dash))
