-- ===== src/Queue/ServiceExamples.antt =====
-- A request to svc_queue.go with a token that the review accepts.
use morsel.Prelude.{
  refl, sym, ap, ◌∙◌, Bool, ◌≡◌, ◌≢◌, List, [], ◌∷◌, Option, none, some, String, true, false, arith,
  lookup, str_eq, if◌then◌else◌,
}
use morsel.Names.Slugs.{has_slash}
use morsel.Queue.Files.{Dir, Faults}
use morsel.Queue.Service.{Review, Request, Server, identify}
use morsel.Queue.Isolation.{acks, answer, answer-isolated}

abbrev all_work : Faults
all_work x = false

abbrev jobs_only : Dir
jobs_only = record {
  files = ("jobs", record { messages = []; meta = []; quota = [] }) ∷ [];
  notifiers = [];
}

abbrev server : Server
server = ("team", jobs_only) ∷ ("other", jobs_only) ∷ []

abbrev split_example : String → List String
split_example text = "system" ∷ "serviceaccount" ∷ "team" ∷ "default" ∷ []

abbrev review_example : String → Option Review
review_example token =
    if str_eq token "good" then some (record { authenticated = true; username = "team" }) else none

abbrev ack_request : Request
ack_request = record { authorization = "good"; name = "jobs"; id = "m1" }

abbrev is_team : Option String → Bool
is_team none = false
is_team (some ns) = str_eq ns "team"

true_is_not_false : true ≢ false
true_is_not_false e = ground (arith, e)

caller : identify (λ text. text) review_example split_example ack_request ≡ some "team"
unfolding identify
caller = refl

caller_is_team : identify (λ text. text) review_example split_example ack_request ≢ some "other"
caller_is_team e = true_is_not_false (ap is_team (sym caller ∙ e))

plain_name : has_slash "jobs" ≡ false
unfolding has_slash
plain_name = refl

answer-isolated_example :
    lookup "other"
      (answer (λ text. text) review_example split_example (acks all_work) ack_request server).0
    ≡ lookup "other" server
answer-isolated_example =
    answer-isolated (λ text. text) review_example split_example (acks all_work) ack_request server
      "other" plain_name caller_is_team
