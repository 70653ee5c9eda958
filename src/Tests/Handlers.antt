-- ===== src/Tests/Handlers.antt =====
-- Two users, each with a project of his own, at the handlers; and an administrator.
mod Reach
use mlops.Base.{
  ◌≡◌, refl, ◌+◌, ◌==◌, String, true, false, List, [], ◌∷◌, some, none, map, inr, eqb, ltb, length,
  ◌≤◌, ◌||◌, ◌&&◌,
}
use mlops.Base.Decimal.{decimal}
use mlops.Base.Int.{pos}
use mlops.Base.Text.{contains, trim_space, byte_length}
use mlops.Api.Access.{UserAccess}
use mlops.Api.Project.{Project, Connection}
use mlops.Api.Pipeline.{
  PipelineRun, PipelineJob, PipelineDefinition, UpsertPipelineDefinitionRequest, Function,
  DeployFunctionRequest,
}
use mlops.Auth.{Principal}
use mlops.Store.{State, zero_state, id, record_event, has_project, conflict}
use mlops.Store.Runs.{
  run, cancel_run, cancel as cancel_of, retry_run, retry_of, set_run_engine, link,
  pipeline_definition_from,
}
use mlops.Store.Steps.{reset_steps}
use mlops.Store.Functions.{is_function_name, value_at, validate_function_request}
use mlops.Store.Definitions.{
  resource_quantity, trim_job, job_error, check_jobs, bad_dependency, by_name, parents_in,
  visit_all, enter, leave, visit, walk_graph, validate_pipeline_definition, redefine,
}
use mlops.Store.Projects.{Library}
use mlops.Http.Access.{
  privileged, exempt, allowed_project_ids, project_allowed, function_allowed, enforce,
  enforce_run_quota, enforce_function_quota,
}
use mlops.Http.Handlers.{
  Request, Env, OpenFaas, caused_by, problem, principal, actor, commit, answer,
}
use mlops.Http.Handlers.Runs.{
  run_allowed, handle_cancel_run, handle_retry_run, dispatch_pipeline, dispatch_prefect,
  answer_dispatched, flow_of,
}
use mlops.Http.Handlers.Functions.{function_quota, deploy_function_request, define_request}
use mlops.Http.Handlers.Functions.Reach.{deploy_function_request-overwrites, define_request-reaches}
use mlops.Http.Handlers.Projects.{is_healthy, readiness_for, readiness_items}
use mlops.Http.Handlers.Projects.Health.{readiness_for-ready}
use mlops.Http.Handlers.Isolation.{IsIsolated}
use mlops.Http.Handlers.Isolation.Calls.{
  Call, cancel_run as cancel, retry_run as retry, serve, serve_all, serve_all-IsIsolated,
}

abbrev pub user : String → Principal
user name = record {
  subject = name;
  email = "";
  tenant = "t";
  roles = "user" ∷ [];
  namespaces = [];
  services = "pipelines" ∷ [];
  project_ids = [];
  disabled = false;
  provisioned = true;
  credential = "session";
}

abbrev pub from : String → Request
from name = record { caller = some (user name); actor_header = "" }

abbrev pub env : Env
env = record {
  clock = λ n. 100 + n;
  later = λ n. 200 + n;
  persist = λ _. none;
  openfaas = none;
  prefect = some (λ _. inr "flow-1");
  serving = none;
}

abbrev pub lib : Library
lib = record { to_lower = λ s. s; equal_fold = ◌==◌; parse_url = λ _. none }

abbrev owned : String → String → Project
owned project_id owner = record {
  id = project_id;
  name = project_id;
  description = "";
  template = "";
  namespace = project_id;
  status = "ready";
  created_at = 1;
  owner_subject = owner;
  repository = none;
}

abbrev started : String → String → PipelineRun
started run_id project_id = record {
  id = run_id;
  project_id = project_id;
  name = "daily";
  status = "running";
  progress = pos 0;
  created_at = 1;
  updated_at = 1;
  parent_run_id = "";
  engine_run_id = "";
  definition_id = "";
  execution_mode = "prefect";
  parameters = [];
  steps = [];
  logs = [];
}

abbrev pub score : Function
score = record {
  name = "score";
  project_id = "prj-b";
  image = "img:1";
  status = "deployed";
  replicas = pos 1;
  env_vars = [];
  labels = [];
  annotations = [];
  cpu = "";
  memory = "";
  owner_subject = "bob";
  created_at = 1;
  updated_at = 1;
}

abbrev pub job : PipelineJob
job = record {
  name = "train";
  kind = "container";
  function = "";
  image = "img";
  command = [];
  depends_on = [];
  environment = [];
  resources = record { cpu = "1"; memory = "1Gi"; gpu = pos 0 };
  retries = pos 0;
}

abbrev pub nightly : PipelineDefinition
nightly = record {
  id = "pipe-b";
  project_id = "prj-b";
  name = "nightly";
  version = "1";
  execution_mode = "prefect";
  jobs = job ∷ [];
  repository_url = "";
  commit_sha = "";
  created_at = 1;
  updated_at = 1;
}

abbrev profile : UserAccess
profile = record {
  subject = "ann";
  email = "";
  role = "user";
  services = "pipelines" ∷ [];
  project_ids = [];
  storage = record { size_gb = pos 1; buckets = [] };
  compute = record {
    profile = "custom";
    vcpus = pos 1;
    memory_gb = pos 1;
    gpus = pos 0;
    gpu_type = "";
    max_vms = pos 1;
    max_projects = pos 2;
    max_runs = pos 5;
    max_functions = pos 2;
  };
  disabled = false;
  created_at = 1;
  updated_at = 1;
}

abbrev pub world : State
world = record zero_state {
  user_access = profile ∷ [];
  projects = owned "prj-a" "ann" ∷ owned "prj-b" "bob" ∷ [];
  runs = started "run-a" "prj-a" ∷ started "run-b" "prj-b" ∷ [];
  functions = score ∷ [];
  definitions = nightly ∷ [];
}

abbrev calls : List (Env × Call)
calls = (env, cancel "run-b") ∷ (env, cancel "run-a") ∷ (env, retry "run-a") ∷ []

access_code : Unit {0}
unfolding contains privileged exempt allowed_project_ids project_allowed function_allowed enforce
    enforce_run_quota enforce_function_quota principal function_quota has_project
access_code = tt

-- The run of the other project goes on; the caller's own is cancelled, and its retry is dispatched.
calls_made :
    map {B = String × String} (λ r. (r.id, r.status)) (serve_all lib (from "ann") calls world).runs
    ≡ ("run-101", "queued") ∷ ("run-a", "cancelled") ∷ ("run-b", "running") ∷ []
unfolding access_code serve_all serve handle_cancel_run handle_retry_run run_allowed answer commit
    answer_dispatched dispatch_pipeline dispatch_prefect flow_of run cancel_run cancel_of retry_run
    retry_of reset_steps set_run_engine link actor record_event id decimal
calls_made = refl

serve_all-IsIsolated_example :
    IsIsolated (principal (from "ann")) world (serve_all lib (from "ann") calls world)
serve_all-IsIsolated_example = serve_all-IsIsolated lib (from "ann") calls world
