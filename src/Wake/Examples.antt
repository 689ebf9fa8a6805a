-- ===== src/Wake/Examples.antt =====
-- A sleeping app is asked for by its host, and the theorems applied.
use morsel.Prelude.{
  ◌≡◌, pos, refl, true, false, Option, [], none, some, str_eq, ok, arith, String, if◌then◌else◌,
}
use morsel.Auth.Claims.{Claims}
use morsel.Apps.Models.{App, BudgetFlags, World}
use morsel.Apps.Exemptions.{alters}
use morsel.Apps.Tables.{is_app_exempt}
use morsel.Apps.Requests.{check_budget_and_maybe_exempt}
use morsel.Apps.Hibernation.{namespace_or_empty}
use morsel.Apps.Examples.{world, no_faults}
use morsel.Wake.Handler.{
  Server, Outside, WakeRequest, wake_ack, internal_wake_handler, is_budget_blocked,
}
use morsel.Wake.Outcome.{Asks, Outcome}
use morsel.Wake.Single.{OneWake, request, next, stay, running_wakes, Run-OneWake, acknowledged_runs}
use morsel.Wake.Proxy.{Link, wait_page, proxy_handler, wake_request_for, first_label, page_runs}
use morsel.Wake.Blocked.{is_budget_blocked-check, override_opens}

abbrev outside : Outside
outside = record {
  trim_bearer = λ t. t;
  verify_wake_token = str_eq "secret";
  split_host_port = λ h. none;
  base_domain = "example.com";
}

abbrev ask : WakeRequest
ask = record { method = "POST"; authorization = "secret"; host = "web.repo.app.example.com" }

abbrev no_limit : BudgetFlags
no_limit = record { budget_soft_limit_active = false; budget_hard_limit_active = false }

abbrev over_limit : BudgetFlags
over_limit = record { budget_soft_limit_active = true; budget_hard_limit_active = false }

abbrev server : Server
server = record { world = world; waking_now = []; tasks = [] }

abbrev asked : Server
asked = (internal_wake_handler no_faults 7 99 no_limit outside ask server).0

reply : (internal_wake_handler no_faults 7 99 no_limit outside ask server).1 ≡ wake_ack "web"
unfolding internal_wake_handler
reply = refl

server-OneWake : OneWake server
server-OneWake ns = refl

Run-OneWake_example : OneWake (internal_wake_handler no_faults 7 99 no_limit outside ask asked).0
Run-OneWake_example =
    Run-OneWake server (internal_wake_handler no_faults 7 99 no_limit outside ask asked).0
      (next server asked _ (request no_faults 7 99 no_limit outside ask server)
        (next asked _ _ (request no_faults 7 99 no_limit outside ask asked) (stay _)))
      server-OneWake

one_runs :
    (a : App) × Asks outside ask server a
    × (a.name ≡ "web")
    × (running_wakes (namespace_or_empty a.namespace) asked ≡ 1)
one_runs = acknowledged_runs no_faults 7 99 no_limit outside ask server "web" server-OneWake reply

checks_agree :
    check_budget_and_maybe_exempt no_faults 7 99 over_limit none "org/repo" "web" world
    ≡ (world, ok (is_budget_blocked no_faults 7 over_limit "org/repo" "web" world))
checks_agree =
    is_budget_blocked-check no_faults 7 99 over_limit none "org/repo" "web" world refl refl refl

blocked : is_budget_blocked no_faults 7 over_limit "org/repo" "web" world ≡ true
unfolding is_budget_blocked
blocked = refl

abbrev an_operator : Option Claims
an_operator = some (record {
  subject = "ada";
  role = "operator";
  repo = "";
  github_id = pos 0;
  issued_at = 0;
  expires_at = 100;
})

abbrev exempted : World
exempted =
    (check_budget_and_maybe_exempt no_faults 9 50 over_limit an_operator "org/repo" "web" world).0

overridden :
    check_budget_and_maybe_exempt no_faults 9 50 over_limit an_operator "org/repo" "web" world
    ≡ (exempted, ok false)
unfolding check_budget_and_maybe_exempt
overridden = refl

not_exempt : is_app_exempt 9 "org/repo" "web" world.exemptions ≡ false
unfolding is_app_exempt
not_exempt = refl

opened : is_budget_blocked no_faults 20 over_limit "org/repo" "web" exempted ≡ false
opened =
    override_opens no_faults no_faults 9 20 50 over_limit over_limit an_operator "org/repo" "web"
      world exempted exempted [] refl refl not_exempt overridden tt (unfold alters in refl)
      (omega arith) refl

abbrev bearers : Outside
bearers = record outside { verify_wake_token = str_eq "Bearer secret" }

abbrev up : Link
up = record { unsent = false; unanswered = false; unread = false }

abbrev shown : Server
shown =
    (proxy_handler no_faults 7 99 no_limit bearers up (some "secret") "web.repo.app.example.com"
      server).0

page_shown :
    proxy_handler no_faults 7 99 no_limit bearers up
      (some "secret")
      "web.repo.app.example.com"
      server
    ≡ (shown, wait_page "web")
unfolding proxy_handler
page_shown = refl

page_runs_example :
    (t : String) × (a : App) × (◌≡◌ {A = Option String} (some "secret") (some t))
    × Asks bearers (wake_request_for "web.repo.app.example.com" t) server a
    × (running_wakes (namespace_or_empty a.namespace) shown ≡ 1)
    × ("web" ≡ (if str_eq a.name "" then first_label "web.repo.app.example.com" else a.name))
page_runs_example =
    page_runs no_faults 7 99 no_limit bearers up (some "secret") "web.repo.app.example.com" "web"
      server shown server-OneWake page_shown
