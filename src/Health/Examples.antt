-- ===== src/Health/Examples.antt =====
-- A service that comes up, and the theorems applied.
use morsel.Prelude.{◌≡◌, ◌↔◌, refl, true, false, List, [], ◌∷◌, none, insert}
use morsel.Health.Receiver.{Component, new_reporter, readyz_handler}
use morsel.Health.Latest.{Event, reported, received, run, accepted, latest, known, run-latest}
use morsel.Health.Ready.{Ready, readyz_handler-Ready}

abbrev database : Component
database = record { name = "database"; critical = true }

abbrev metrics : Component
metrics = record { name = "metrics"; critical = false }

abbrev start : List Event
start =
    reported database false "initializing"
    ∷ received 1
    ∷ reported metrics false "initializing"
    ∷ reported database true ""
    ∷ received 2
    ∷ received 3
    ∷ []

drained : (run start new_reporter).channel ≡ []
unfolding run new_reporter
drained = refl

last_of_database :
    known "database" (run start new_reporter) ≡ latest "database" none (accepted start new_reporter)
last_of_database = run-latest "database" start drained

readyz_handler-Ready_example :
    (readyz_handler (run start new_reporter) ≡ 200)
    ↔ Ready (λ name. latest name none (accepted start new_reporter))
readyz_handler-Ready_example = readyz_handler-Ready start drained

is_up : readyz_handler (run start new_reporter) ≡ 200
unfolding readyz_handler run new_reporter insert
is_up = refl
