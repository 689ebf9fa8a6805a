-- ===== src/Names/Slugs.antt =====
-- RepoOrg, RepoName, AppHostname and AppURL of internal/names/names.go, of cmd/morsel-ctrl-plane.
use Prim.Native.Char.{Char, code}
use Prim.Native.String.append
use text.Mathlib.TextEquality.{codes_equal}
use morsel.Prelude.{
  ℕ, ◌≡◌, sym, ap, subst, ◌∙◌, Bool-cases, inl, inr, Bool, true, false, ◌||◌, ◌==◌, Option, none,
  some, String, str_append, if◌then◌else◌, arith,
}
use morsel.Auth.Access.{repo_slug}

abbrev pub is_slash : Char → Bool
is_slash c = code c == b'/'

abbrev prepend : Char → Option (String × String) → Option (String × String)
prepend c none = none
prepend c (some (before, after)) = some (String.◌∷◌ c before, after)

-- What stands before and after the first slash.
unfoldable pub cut : String → Option (String × String)
cut String.[] = none
cut (String.◌∷◌ c s) = let rest = cut s in if is_slash c then some ("", s) else prepend c rest

unfoldable pub repo_org : String → String
unfolding cut
repo_org slug = elim (cut slug) [ none ↦ "" | some (org, name) ↦ org ]

unfoldable pub repo_name : String → String
unfolding cut
repo_name slug = elim (cut slug) [ none ↦ slug | some (org, name) ↦ name ]

unfoldable pub app_hostname : String → String → String → String
app_hostname app repo domain =
    str_append app (str_append "." (str_append repo (str_append ".app." domain)))

unfoldable pub app_url : (ℕ → String) → String → String → String → ℕ → String
unfolding app_hostname
app_url itoa app repo domain port =
    let host = app_hostname app repo domain in
    if port == 443
    then str_append "https://" host
    else str_append "https://" (str_append host (str_append ":" (itoa port)))

unfoldable pub has_slash : String → Bool
has_slash String.[] = false
has_slash (String.◌∷◌ c s) = is_slash c || has_slash s

slug-slash : (repo : String) → cut (str_append "" (str_append "/" repo)) ≡ some ("", repo)
unfolding cut
slug-slash repo =
    ap cut (append.nil (str_append "/" repo))
    ∙ ap cut (append.cons _ "" repo)
    ∙ ap (λ (s : String). some ("", s)) (append.nil repo)

cut-slug :
    (org repo : String)
    → has_slash org ≡ false
    → cut (str_append org (str_append "/" repo)) ≡ some (org, repo)
unfolding cut has_slash
cut-slug String.[] repo h = slug-slash repo
cut-slug (String.◌∷◌ c s) repo h =
    ap cut (append.cons c s (str_append "/" repo))
    ∙ ground (arith, h, cut-slug s repo (ground (arith, h)))

slash-only : (c : Char) → is_slash c ≡ true → c ≡ "/"
slash-only c h = codes_equal c "/" (ground (arith, h))

restore-slash : (s : String) → str_append "" (str_append "/" s) ≡ String.◌∷◌ "/" s
restore-slash s =
    append.nil (str_append "/" s) ∙ append.cons "/" "" s ∙ ap (String.◌∷◌ "/") (append.nil s)

cut-parts :
    (slug : String)
    → has_slash slug ≡ true
    → (parts : String × String) × (cut slug ≡ some parts)
      × (str_append parts.0 (str_append "/" parts.1) ≡ slug)
unfolding cut has_slash
cut-parts String.[] h = ground arith
cut-parts (String.◌∷◌ c s) h = elim (Bool-cases (is_slash c)) [
  | inl e ↦ (
    ("", s),
    ground (arith, e),
    restore-slash s ∙ ap (λ (x : Char). String.◌∷◌ x s) (sym (slash-only c e)),
  )
  | inr e ↦
      let (parts, at, whole) = cut-parts s (ground (arith, h, e)) in
      (
        (String.◌∷◌ c parts.0, parts.1),
        ground (arith, e, at),
        append.cons c parts.0 (str_append "/" parts.1) ∙ ap (String.◌∷◌ c) whole,
      )
]

-- A slug is taken apart into what it was made of, if the organisation has no slash.
pub parts-slug :
    (org repo : String)
    → has_slash org ≡ false
    → (repo_org (repo_slug org repo) ≡ org) × (repo_name (repo_slug org repo) ≡ repo)
unfolding repo_org repo_name repo_slug
parts-slug org repo h = (ground (arith, cut-slug org repo h), ground (arith, cut-slug org repo h))

-- A text with a slash is the slug of its parts.
pub slug-parts :
    (slug : String) → has_slash slug ≡ true → repo_slug (repo_org slug) (repo_name slug) ≡ slug
unfolding repo_org repo_name repo_slug
slug-parts slug h =
    let (parts, at, whole) = cut-parts slug h in
    subst
      (λ (o : Option (String × String)).
        str_append (elim o [ none ↦ "" | some (org, name) ↦ org ])
          (str_append "/" (elim o [ none ↦ slug | some (org, name) ↦ name ]))
        ≡ slug)
      (sym at) whole
