-- ===== src/Lib.antt =====
-- Morsel runs small apps on Kubernetes. Its control plane (cmd/morsel-ctrl-plane) keeps repos, apps,
-- tiers and principals in a SQLite database, puts idle apps to sleep and wakes them, and gives each
-- app queues that are SQLite files too. This library models these parts and proves what makes them correct.
--
-- The parts, the modules that model them and the code:
-- Module Queue: the queues of a namespace (internal/queue of cmd/morsel-ctrl-plane). Queue.Tables has the
-- tables and the statements of queries/*.sql.go, Queue.Files the directory with its databases and
-- notifier channels, Queue.Local and Queue.Listing the operations of local.go, Queue.Service the
-- HTTP handlers of svc_queue.go. Queue.Moves and Queue.Refinement relate each operation to an
-- abstract queue, Queue.History runs sequences of calls of any number of clients.
-- Module Apps: the rows of apps, operations, scale events and exemptions with their statements
-- (Apps.Models, Apps.Tables: internal/db/queries and internal/store/store.go; Apps.Exemptions has what
-- happens to the exemptions between two requests), what the cluster
-- holds for an app (Apps.Cluster: internal/kube/scale.go), the long-running operations
-- (Apps.Lifecycle: internal/api/handler/lifecycle.go, and wakeApp of internal/api/mux.go), and the
-- watchers that hibernate apps (Apps.Hibernation and Apps.Budget: internal/watchers).
-- Apps.Rows, Apps.Deploy and Apps.Requests have the requests on an app (internal/api/handler/apps.go):
-- a deployment over any AppDeployer, the check of the budget, and the operations that a request
-- starts in a goroutine, which runs after it.
-- Module Tiers: the limits of repos (internal/api/handler/tiers.go, UpdateRepoTier of operator.go and the
-- admission of an app in UpsertApp of apps.go, with the access check before it).
-- Module Cost: the running hours of an app from its scale events (RunningHours of
-- internal/cost/cost.go), in nanoseconds.
-- Module Spend: the watcher of the budget (internal/watchers/budget.go). Spend.Estimate has the cost of an
-- app, a repo and the platform over Spend.Double, an interface for the operations on float64 that
-- the code uses; Spend.Watcher has one tick.
-- Module Auth: who may do what. Auth.Claims has the claims of internal/tokens/claims.go, Auth.Tables the
-- principals and refresh tokens with their statements, Auth.Refresh, Auth.Login and Auth.Principals
-- the handlers of token.go, github_auth.go, bootstrap.go and operator.go under internal/api/handler,
-- Auth.Access the checks of handler.go and security.go. Auth.Requests runs sequences of requests, and
-- Auth.Stages shows once that what each statement keeps, each run keeps. The signing of a token, its
-- hash and text form, GitHub and the random draws are parameters (internal/tokens calls libraries for
-- them), gathered in the record Outside.
-- Module Names: slugs, namespaces and hosts (internal/names, and namespace.go of internal/kube).
-- Module Wake: the endpoint that the wake proxy calls (internalWakeHandler of internal/api/mux.go).
-- Wake.Handler has the request and the map of the wakes that run, Wake.Single the steps of such a
-- server, whose wakes run after their requests; Wake.Blocked compares its check of the budget with
-- that of WakeApp, and Wake.Proxy has the proxy itself
-- (svc_wake_proxy.go) before the endpoint.
-- Module Keys: the signing keys of the local platform and its deploy tokens
-- (internal/platform/local/secrets.go). Keys.Arrays has the arrays of keys, Keys.Tokens the tokens; the
-- two kinds of keys have the same functions, by the name of the secret. The loop of EnsureSigningKey has
-- fuel 2, which Keys.Works shows to be enough.
-- Module Lint: the linter of morsel.json files and the lint command (internal/lint and
-- internal/cli/lint.go of cmd/morsel). Lint.Files has the types, Lint.Checks the checks of one file,
-- Lint.Names those of a set, Lint.Fix the corrections and the command. The order in which Go reads a
-- map is a parameter.
-- Module Health: the reports of health of a service (internal/health at the root), from the channel to
-- the readiness handler.
-- Module Prelude: Boolean tests, lists, association lists, 64-bit integers, and stateful code that may fail.
--
-- How the code is read. An operation is a function of the state that returns the new state beside
-- its result, so that what was written before a failure stays written. A value `f : Faults` says
-- which external call (SQLite, the file system, Kubernetes) fails in a run of an operation; the
-- theorems on operations with such an `f` hold for every one unless they name what must work. The
-- handlers on tiers (but for the admission of an app) and the requests of Lint have no faults: there the
-- database and the file system answer, except where a theorem names a write that fails. A write that
-- fails changes nothing, and a transaction that is not committed has written nothing. Times are numbers: nanoseconds in
-- Go's values, milliseconds where the code formats a time for SQLite. Texts are Unicode texts, a
-- message body is a list of bytes. Sums of int64 in the quota test wrap at 64 bits. Loops are over
-- lists, but for the one of EnsureSigningKey.
--
-- A queue is found by its name in the directory of its namespace, which is what the code does for a name
-- without a slash. ListAllApps returns the apps in the order of the table; the code sorts them by repo and
-- name, which matters only where two apps have one host.
--
-- Not modelled: the HTTP layer and the generated servers and clients, the admin UI, the construction
-- of Kubernetes objects, platform set-up, logging, and the commands of the client but for lint. The token
-- review, the parsing of durations and of JSON, the JSON schema, and the calendar of Go's times are
-- parameters. Concurrent calls
-- appear as sequences of whole operations; where a handler reads and writes in statements of its own
-- this leaves out their interleavings, of which Auth.Race has one.
--
-- A path internal/... is under cmd/morsel-ctrl-plane, except internal/kube and internal/health,
-- which are at the root.
pub mod Prelude
pub mod Queue
pub mod Apps
pub mod Spend
pub mod Tiers
pub mod Cost
pub mod Auth
pub mod Names
pub mod Wake
pub mod Lint
pub mod Health
pub mod Keys
