-- ===== src/Http/Handlers/Projects.antt =====
-- go/internal/httpapi/server.go: the handlers of projects, and the readiness and the dashboard of the
-- platform; go/internal/platform/catalog.go: the health of its components.
pub mod Health
use mlops.Base.{
  ℕ, ◌*◌, ◌/◌, String, Bool, List, [], ◌∷◌, none, some, ◌==◌, ◌||◌, ◌&&◌, not, any, count, length,
  map, ltb, eqb, if◌then◌else◌,
}
use mlops.Base.Text.{is_empty}
use mlops.Api.Project.{Project, Connection, CreateProjectRequest, SetProjectRepositoryRequest}
use mlops.Api.Pipeline.{PipelineRun}
use mlops.Auth.{allowed}
use mlops.Store.{State, Outcome, not_found, refused, returned}
use mlops.Store.Projects.{Library, project_of, create_project, set_project_repository}
use mlops.Http.Access.{
  allowed_project_ids, project_allowed, filter_projects, filter_runs, enforce_project_quota,
}
use mlops.Http.Handlers.{
  Request, Env, Body, text_of, caused_by, denied_by, Reply, problem, json, principal, actor, commit,
  answer, write_mutation, decode,
}

-- `choose`
abbrev pub choose : Bool → String → String → String
choose condition met unmet = if condition then met else unmet

-- `ReadinessItem`, `Readiness`, `Component`, `Dashboard` of pkg/api
pub record ReadinessItem : Type 0 where
  pub key : String
  pub label : String
  pub status : String
  pub description : String
  pub action : String

pub record Readiness : Type 0 where
  pub percent : ℕ
  pub ready : Bool
  pub items : List ReadinessItem

pub record Component : Type 0 where
  pub name : String
  pub category : String
  pub status : String
  pub description : String

pub record Dashboard : Type 0 where
  pub projects : ℕ
  pub active_runs : ℕ
  pub healthy : ℕ
  pub total : ℕ
  pub recent_runs : List PipelineRun
  pub onboarding_pct : ℕ

-- The entries of the maps `healthy` and `configured`.
unfoldable pub is_healthy : List Connection → String → Bool
is_healthy connections kind = any (λ c. c.type == kind && c.status == "healthy") connections

unfoldable pub is_configured : List Connection → String → Bool
is_configured connections kind = any (λ c. c.type == kind) connections

abbrev readiness_item : String → String → Bool → String → String → ReadinessItem
readiness_item key label condition description action = record {
  key = key;
  label = label;
  status = choose condition "ready" "pending";
  description = description;
  action = action;
}

-- The items of `readinessFor`.
unfoldable pub readiness_items : State → List ReadinessItem
readiness_items s =
    readiness_item "workspace" "Create a workspace" (ltb 0 (length s.projects))
      "A project namespace and defaults are available." "projects"
    ∷ readiness_item "kubernetes" "Connect Kubernetes" (is_healthy s.connections "kubernetes")
        "Required to schedule pipelines and serving workloads." "platform"
    ∷ readiness_item "tracking" "Connect MLflow" (is_healthy s.connections "mlflow")
        "Tracks experiments, artifacts and model versions." "platform"
    ∷ readiness_item "storage" "Connect object storage"
        (is_healthy s.connections "s3" || is_healthy s.connections "minio")
        "Stores datasets, models and pipeline artifacts." "platform"
    ∷ readiness_item "events" "Connect Kafka" (is_healthy s.connections "kafka")
        "Carries durable lifecycle and audit events." "platform"
    ∷ []

-- `readinessFor`
unfoldable pub readiness_for : State → Readiness
readiness_for s =
    let items = readiness_items s in
    let ready = count (λ item. item.status == "ready") items in
    record { percent = ready * 100 / length items; ready = eqb ready (length items); items = items }

-- `componentSpec`
pub record ComponentSpec : Type 0 where
  pub name : String
  pub category : String
  pub description : String
  pub types : List String

abbrev spec : String → String → String → List String → ComponentSpec
spec name category description types = record {
  name = name;
  category = category;
  description = description;
  types = types;
}

-- `componentSpecs`
abbrev pub component_specs : List ComponentSpec
component_specs =
    spec "Pipeline Engine" "Orchestration" "Prefect (Compose) or Kubeflow Pipelines (Kubernetes)"
      ("prefect" ∷ "kfp" ∷ "kubeflow" ∷ [])
    ∷ spec "Experiment Tracker" "ML lifecycle" "MLflow with PostgreSQL and S3 artifacts"
        ("mlflow" ∷ [])
    ∷ spec "Feature Store" "Data" "Feast definitions with Redis online serving"
        ("feast" ∷ "redis" ∷ [])
    ∷ spec "Object Store" "Storage" "MinIO or an external S3-compatible store" ("s3" ∷ "minio" ∷ [])
    ∷ spec "Inference Engine" "Serving" "MLflow model serving (Compose) or KServe (Kubernetes)"
        ("serving" ∷ "kserve" ∷ [])
    ∷ spec "Agent Observability" "Agentic AI" "Langfuse for traces, prompts, and evaluations"
        ("langfuse" ∷ [])
    ∷ spec "Streaming Broker" "Events" "Apache Kafka lifecycle and trace topics" ("kafka" ∷ [])
    ∷ spec "Kubernetes" "Control plane" "Cluster for operator-managed workloads" ("kubernetes" ∷ [])
    ∷ []

-- The loop over the types of a component, with the status so far.
unfoldable pub status_from : List Connection → String → List String → String
status_from connections status [] = status
status_from connections status (kind ∷ kinds) =
    let rest =
      status_from connections (choose (is_configured connections kind) "unhealthy" status) kinds in
    if is_healthy connections kind then "healthy" else rest

-- `Components`
unfoldable components_of : List Connection → List Component
components_of connections =
    record {
      name = "API Gateway";
      category = "Control plane";
      status = "healthy";
      description = "Go REST gateway and unified platform contract";
    }
    ∷ map
        (λ (spec : ComponentSpec). record {
          name = spec.name;
          category = spec.category;
          status = status_from connections "not_configured" spec.types;
          description = spec.description;
        })
        component_specs

-- `runs[:5]`, where there are more.
abbrev first_five : List PipelineRun → List PipelineRun
first_five (a ∷ b ∷ c ∷ d ∷ e ∷ _) = a ∷ b ∷ c ∷ d ∷ e ∷ []
first_five runs = runs

module _ (env : Env) (request : Request) where
  -- `dashboard`
  unfoldable handle_dashboard : State → Reply Dashboard
  handle_dashboard s =
      let value = principal request in
      let runs = filter_runs s.runs (allowed_project_ids s value) in
      let components = components_of s.connections in
      json 200 (record {
        projects = length (filter_projects s.projects value);
        active_runs = count (λ run. run.status == "running" || run.status == "queued") runs;
        healthy = count (λ component. component.status == "healthy") components;
        total = length components;
        recent_runs = first_five runs;
        onboarding_pct = (readiness_for s).percent;
      })

  -- `projects`
  unfoldable handle_projects : State → Reply (List Project)
  handle_projects s = json 200 (filter_projects s.projects (principal request))

module _ (lib : Library) (env : Env) (request : Request) where
  -- `project`
  unfoldable handle_project : String → State → Reply Project
  handle_project project_id s = elim (project_of lib project_id s) [
    | refused e ↦ write_mutation (refused e) 200
    | returned item ↦
        if project_allowed s (principal request) item.id
        then write_mutation (returned item) 200
        else write_mutation (refused not_found) 200
  ]

  -- `setProjectRepository`
  unfoldable pub handle_set_project_repository :
      String → Body SetProjectRepositoryRequest → State → State × Reply Project
  handle_set_project_repository project_id body s =
      if not (project_allowed s (principal request) project_id)
      then (s, problem 404 "not_found" (text_of "project not found"))
      else decode body s λ req.
        answer env 200 (set_project_repository lib env.clock project_id req (actor request) s)

  -- The answer of `createProject` to the result of `CreateProject`.
  unfoldable pub answer_created : State × Outcome Project → State × Reply Project
  answer_created (s, refused e) = (s, problem 422 "validation_error" (caused_by e))
  answer_created (s, returned project) = (s, json 201 project)

  -- What `createProject` does with a request that it has read. The caller owns the project.
  unfoldable pub create_request : CreateProjectRequest → State → State × Reply Project
  create_request req s =
      let value = principal request in
      if not (is_empty req.repository_url)
        && not (allowed value "PUT" "/api/v1/projects/new/repository")
      then (
        s,
        problem 403 "access_denied"
            (text_of "Git service access is required to connect a repository"),
      )
      else let owned = record req { owner_subject = value.subject } in
        answer_created (commit env (create_project lib env.clock owned (actor request ∷ []) s))

  -- `createProject`
  unfoldable pub handle_create_project : Body CreateProjectRequest → State → State × Reply Project
  handle_create_project body s = elim (enforce_project_quota s (principal request)) [
    | some denial ↦ (s, problem 403 "quota_exceeded" (denied_by denial))
    | none ↦ decode body s λ req. create_request req s
  ]
