-- ===== src/Names/Examples.antt =====
-- The theorems on names, applied.
use morsel.Prelude.{◌≡◌, refl, str_append, true, false}
use morsel.Auth.Access.{repo_slug}
use morsel.Names.Slugs.{has_slash, repo_org, repo_name, app_url, slug-parts}
use morsel.Names.Namespaces.{app_namespace, app_namespace-regrouped}

no_slash : has_slash "acme" ≡ false
unfolding has_slash
no_slash = refl

one_slash : has_slash "acme/shop" ≡ true
unfolding has_slash
one_slash = refl

shop_parts : repo_slug (repo_org "acme/shop") (repo_name "acme/shop") ≡ "acme/shop"
shop_parts = slug-parts "acme/shop" one_slash

shop_namespace : app_namespace "acme/web_shop" "api" ≡ "acme-web-shop--api"
unfolding app_namespace
shop_namespace = refl

shop_url :
    app_url (λ n. "8443") "api" "shop" "example.com" 8443 ≡ "https://api.shop.app.example.com:8443"
unfolding app_url
shop_url = refl

shop_regrouped :
    app_namespace (repo_slug (str_append "acme" (str_append "-" "web")) "shop") "api"
    ≡ app_namespace (repo_slug "acme" (str_append "web" (str_append "-" "shop"))) "api"
shop_regrouped = app_namespace-regrouped "acme" "web" "shop" "api"
