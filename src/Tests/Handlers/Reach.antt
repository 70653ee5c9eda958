-- ===== src/Tests/Handlers/Reach.antt =====
-- Functions and definitions of other projects, which a request reaches, and readiness.
use mlops.Base.{◌≡◌, refl, false, [], ◌∷◌, some, none, eqb, ltb, length, ◌≤◌, ◌||◌, ◌&&◌}
use mlops.Base.Text.{trim_space, byte_length}
use mlops.Api.Project.{Connection}
use mlops.Api.Pipeline.{UpsertPipelineDefinitionRequest, DeployFunctionRequest}
use mlops.Store.{State, conflict}
use mlops.Store.Runs.{pipeline_definition_from}
use mlops.Store.Functions.{is_function_name, value_at, validate_function_request}
use mlops.Store.Definitions.{
  resource_quantity, trim_job, job_error, check_jobs, bad_dependency, by_name, parents_in,
  visit_all, enter, leave, visit, walk_graph, validate_pipeline_definition, redefine,
}
use mlops.Http.Access.{project_allowed}
use mlops.Http.Handlers.{OpenFaas, caused_by, problem}
use mlops.Http.Handlers.Functions.{deploy_function_request, define_request}
use mlops.Http.Handlers.Functions.Reach.{deploy_function_request-overwrites, define_request-reaches}
use mlops.Http.Handlers.Projects.{is_healthy, readiness_for, readiness_items}
use mlops.Http.Handlers.Projects.Health.{readiness_for-ready}
use mlops.Tests.Handlers.{user, from, env, score, job, nightly, world, access_code}

abbrev evil : DeployFunctionRequest
evil = record {
  project_id = "prj-a";
  name = "score";
  image = "evil:1";
  env_vars = [];
  labels = [];
  annotations = [];
  cpu = "";
  memory = "";
}

abbrev faas : OpenFaas
faas = record { deploy = λ _. none; delete = λ _. none }

deploy_function_request-overwrites_example :
    deploy_function_request env (from "ann") faas evil world
    ≡ (world, problem 409 "conflict" (caused_by conflict))
unfolding access_code validate_function_request is_function_name value_at trim_space byte_length
deploy_function_request-overwrites_example =
    deploy_function_request-overwrites env (from "ann") faas evil world score refl refl refl refl
      refl refl

abbrev own : UpsertPipelineDefinitionRequest
own = record {
  project_id = "prj-a";
  name = "mine";
  version = "9";
  execution_mode = "prefect";
  jobs = record job { name = "steal" } ∷ [];
  repository_url = "";
  commit_sha = "";
}

define_request-reaches_example :
    let s' = (define_request env (from "ann") ("steal" ∷ []) "pipe-b" own world).0 in
    (pipeline_definition_from s'.definitions "pipe-b" ≡ some (redefine 100 own nightly))
    × (project_allowed s' (user "ann") "prj-b" ≡ false)
unfolding access_code trim_space resource_quantity trim_job job_error check_jobs bad_dependency
    by_name parents_in visit_all enter leave visit walk_graph validate_pipeline_definition
    pipeline_definition_from
define_request-reaches_example =
    define_request-reaches env (from "ann") ("steal" ∷ []) "pipe-b" own own world nightly refl refl
      refl refl refl refl refl

abbrev minio : Connection
minio = record {
  id = "conn-1";
  name = "m";
  type = "minio";
  endpoint = "http://m";
  secret_ref = "k";
  status = "healthy";
  created_at = 1;
  checked_at = none;
  message = "";
}

abbrev ready_enough : State
ready_enough = record world { connections = minio ∷ [] }

percent_of_two : (readiness_for ready_enough).percent ≡ 40
unfolding readiness_for readiness_items is_healthy
percent_of_two = refl

readiness_for-ready_example :
    let r = readiness_for ready_enough in
    (r.percent ≤ 100)
    × (r.ready ≡ eqb r.percent 100)
    × (r.ready ≡ (
        ltb 0 (length ready_enough.projects)
        && is_healthy ready_enough.connections "kubernetes"
        && is_healthy ready_enough.connections "mlflow"
        && (is_healthy ready_enough.connections "s3" || is_healthy ready_enough.connections "minio")
        && is_healthy ready_enough.connections "kafka"))
readiness_for-ready_example = readiness_for-ready ready_enough
