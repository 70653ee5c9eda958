-- ===== src/Lib.antt =====
-- A model of the control plane of the ML and AI platform (the Go part): its file store and parts of
-- its Postgres repository, its authentication, sessions and authorization, most handlers of its
-- HTTP API with their checks on projects and quotas, the dispatch of pipelines of functions, and
-- what its operator and its lifecycle dispatcher make of agents, workspaces and commands.
--
-- The program. The gateway (go/cmd/gateway) wraps the HTTP API (go/internal/httpapi) in handlers
-- that find out who makes a request and whether it may (go/internal/auth). The API's handlers check
-- projects and quotas and then call a repository (go/internal/store): the file store, one value of
-- type `state` behind a lock, which each operation reads, changes and writes to a file, or the
-- Postgres repository, which keeps a row for each resource and whose outbox a worker publishes. A
-- dispatcher (go/internal/integrations) turns the commands that are published into custom resources
-- of the cluster, which the operator (go/internal/operator) reconciles. The records that the parts
-- exchange are those of go/pkg/api.
--
-- The files. Api and its children are the records of go/pkg/api/types.go. Store is the state of
-- go/internal/store/store.go, with Store.Steps (`applyStepTransition`, `resetSteps`), Store.Runs
-- (`SubmitPipeline`, `UpdateRunStep`, `CancelRun`, `RetryRun`, `SetRunEngine`), Store.Models,
-- Store.Access (profiles, also go/internal/store/access.go), Store.Requests, Store.Tokens
-- (go/internal/store/tokens.go), Store.Catalog (tools and connections), Store.Definitions
-- (`validatePipelineDefinition` and `UpsertPipelineDefinition` of go/internal/store/workloads.go),
-- Store.Projects and Store.Functions (store.go, workloads.go), Store.Blog
-- (go/internal/store/blog.go), Store.Agents, Store.Features (both store.go) and Store.Seed (`New`).
-- Store.Postgres has the tables and the transaction of go/internal/store/postgres.go,
-- Store.Postgres.Runs and Store.Postgres.Models its methods on runs and on models, and Store.Outbox
-- the worker of go/internal/store/outbox.go. Auth is `Allowed` of go/internal/auth/auth.go,
-- Auth.Middleware the handlers of auth.go and token.go, Auth.Sessions `LocalSessionManager` of
-- go/internal/auth/local_session.go, and Auth.Front the chain that go/cmd/gateway/main.go makes of
-- them, with OIDC configured and with the local sign-in. Http.Access is
-- go/internal/httpapi/access.go, and Http.Orchestrator `executeFunctionPipeline` of
-- go/internal/httpapi/pipeline_dispatch.go. Http.Handlers is what the handlers of
-- go/internal/httpapi/server.go share, with the handlers themselves in Http.Handlers.Runs (and
-- `dispatchPipeline`), Models, Agents, Functions (and pipeline definitions), Projects (also the
-- dashboard, readiness and `Components` of go/internal/platform/catalog.go), People (access,
-- requests and keys), Posts and Catalog; Http.Handlers.Isolation, Limits and their children,
-- People.Admins, Functions.Reach and Projects.Health hold what is proved of them.
-- Integrations.Dispatcher is go/internal/integrations/dispatcher.go, Operator `ReconcileAgent` of
-- go/internal/operator/reconciler.go, and Operator.Workspace `WorkspaceReconciler` of
-- go/internal/operator/workspace_controller.go. Base holds what these share: strings as Go's
-- package strings treats them, integers, lists. Tests holds the examples.
--
-- A handler is a function of what it reads of the request, of the clock and the clients it is
-- given, and of the state, to the new state and the answer: a status with a value or with the code
-- and the text of an error, or nothing, where it panics. The result of writing the file of the
-- state is given too; where it fails, the state in memory has changed all the same.
--
-- How state is modelled. An operation is a function from the state to a pair of the new state and
-- an outcome, refused with an error or returned with a value; a refused operation leaves the state
-- as it is. The lock makes an operation one step, so concurrent calls are a sequence of them. Each
-- reading of the clock in an operation is a value of the parameter `Clock`; no order of the
-- readings is assumed. A map is an association list and a time a number of nanoseconds. An int is
-- an integer: the counters of an agent's sessions and the tokens of a trace add modulo 2^64 as the
-- machine does, while the progress of a run (100 times its steps) and the expiry of a key (at most
-- 365 days in nanoseconds) stay far below the bounds of the machine's int and are plain sums, as do
-- the resources of a workspace, which are made from numbers of 32 bits in integers of 64.
-- Strings are sequences of characters, and white space is what `unicode.IsSpace` names. A float64
-- is its bit pattern, which the quality gate compares as IEEE 754 orders it.
--
-- Loops are structural recursion on the list they run over, but for two, which have fuel. The
-- search for a cycle has one unit more than there are jobs, as a call marks a job that was not
-- marked; the rounds of a pipeline of functions have one more than there are jobs, as a round takes
-- one off, so that both suffice. The jobs of a round run one after another in the model:
-- they share the maps of outputs and completed jobs, of which they only read what earlier rounds
-- wrote.
--
-- A method of the Postgres repository is a function of the tables and of the statements that fail.
-- A transaction that fails, its commit included, leaves the tables as they were. The rows of a
-- table stand in the order in which its queries yield them, and a payload is decoded to what was
-- encoded.
--
-- Parameters stand for code of others: the verification of tokens, the pages of the OAuth login,
-- the hash, the encodings and the random bytes of API keys, `strings.ToLower` and the case folding
-- of names, the parser of URLs, the addition of floats, the order in which a Go map is iterated
-- over, the function runtime with its answers, the clients of Prefect, OpenFaaS and the serving
-- manager, the client of the cluster, and the truncation of floats.
--
-- Not modelled: the file that `load` and `persist` use, JSON, the methods of the Postgres
-- repository on what is neither a run nor a model, and, of the HTTP API, the routes, the pages, the
-- proxies to storage, prompts and models, the event stream and the metrics, which only pass on what
-- others answer. The controllers of agents and pipelines, the storage proxy, the serving manager,
-- the feature gateway and the command line are left out: they are calls of the network, of the
-- cluster or of files around little logic.

pub mod Base
pub mod Api
pub mod Store
pub mod Auth
pub mod Http
pub mod Operator
pub mod Integrations
pub mod Tests
