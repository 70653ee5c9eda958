-- ===== src/Tests/Pipelines.antt =====
-- A pipeline of three functions, run by the dispatcher.
use mlops.Base.{
  ◌≡◌, refl, true, all, All, arith, String, List, [], ◌∷◌, none, ◌==◌, eqb, if◌then◌else◌,
}
use mlops.Base.Int.{pos}
use mlops.Base.Member.{IsSubset}
use mlops.Base.Text.{contains, trim_space}
use mlops.Api.Value.{Any}
use mlops.Api.Pipeline.{PipelineJob, PipelineRun, UpsertPipelineDefinitionRequest}
use mlops.Store.{returned}
use mlops.Store.Definitions.{
  resource_quantity, trim_job, job_error, check_jobs, names_of, bad_dependency, by_name, parents_in,
  visit_all, enter, leave, visit, walk_graph, validate_pipeline_definition,
}
use mlops.Store.Definitions.Valid.{IsRunnable, Lists, validate_pipeline_definition-IsRunnable}
use mlops.Http.Orchestrator.{
  Runtime, failing, answered, Progress, Ending, finished, halted, stuck, exhausted, output_of,
  attempts, payload_of, run_attempts, reported, run_job, run_jobs, is_ready, round, execute,
  execute_function_pipeline,
}
use mlops.Http.Orchestrator.Attempts.{SomeAnswers, is_fine}
use mlops.Http.Orchestrator.Ends.{
  EndsWell, execute_function_pipeline-EndsWell, execute_function_pipeline-completes,
}

orchestrator_code : Unit {0}
unfolding contains output_of attempts payload_of run_attempts reported run_job run_jobs is_ready
    round execute execute_function_pipeline
orchestrator_code = tt

validation_code : Unit {0}
unfolding contains trim_space resource_quantity trim_job job_error check_jobs bad_dependency by_name
    parents_in visit_all enter leave visit walk_graph validate_pipeline_definition
validation_code = tt

abbrev job : String → List String → PipelineJob
job name depends_on = record {
  name = name;
  kind = "function";
  function = "f";
  image = "";
  command = [];
  depends_on = depends_on;
  environment = [];
  resources = record { cpu = ""; memory = ""; gpu = pos 0 };
  retries = pos 1;
}

abbrev three : UpsertPipelineDefinitionRequest
three = record {
  project_id = "prj-demo";
  name = "daily";
  version = "1";
  execution_mode = "functions";
  jobs = job "c" ("a" ∷ "b" ∷ []) ∷ job "b" ("a" ∷ []) ∷ job "a" [] ∷ [];
  repository_url = "";
  commit_sha = "";
}

abbrev order : List String
order = "c" ∷ "b" ∷ "a" ∷ []

three-Lists : Lists three order
unfolding trim_space
three-Lists = (λ s h. h, λ s h. h)

three_accepted : validate_pipeline_definition order three ≡ returned three
unfolding validation_code
three_accepted = refl

three-IsRunnable : IsRunnable three
three-IsRunnable = validate_pipeline_definition-IsRunnable three order three-Lists three_accepted

abbrev nightly_run : PipelineRun
nightly_run = record {
  id = "run-1";
  project_id = "prj-demo";
  name = "daily";
  status = "queued";
  progress = pos 0;
  created_at = 1;
  updated_at = 1;
  parent_run_id = "";
  engine_run_id = "";
  definition_id = "pipe-1";
  execution_mode = "functions";
  parameters = [];
  steps = [];
  logs = [];
}

-- Each first attempt fails, and each second one is answered.
abbrev flaky : Runtime
flaky = record {
  invoke = λ f payload attempt. if eqb attempt 0 then failing "timeout" else answered "ok";
  unmarshal = λ raw. none;
}

-- The step "b" fails at each attempt.
abbrev broken : Runtime
broken = record {
  invoke = λ f payload attempt. if payload.step == "b" then failing "timeout" else answered "ok";
  unmarshal = λ raw. none;
}

abbrev completed_of : Ending → List String
completed_of (finished p) = p.completed
completed_of (halted p) = "halted" ∷ p.completed
completed_of (stuck p) = "stuck" ∷ []
completed_of exhausted = "exhausted" ∷ []

flaky_completes :
    completed_of (execute_function_pipeline flaky nightly_run three.jobs) ≡ "c" ∷ "b" ∷ "a" ∷ []
unfolding orchestrator_code
flaky_completes = refl

broken_halts :
    completed_of (execute_function_pipeline broken nightly_run three.jobs) ≡ "halted" ∷ "a" ∷ []
unfolding orchestrator_code
broken_halts = refl

execute_function_pipeline-EndsWell_example :
    EndsWell broken nightly_run three.jobs (execute_function_pipeline broken nightly_run three.jobs)
execute_function_pipeline-EndsWell_example =
    execute_function_pipeline-EndsWell broken nightly_run three three-IsRunnable

-- The first attempt at each job fails, and its one retry is answered.
retries_answered :
    All (λ j. (outputs : List (String × Any)) → SomeAnswers flaky nightly_run j outputs) three.jobs
retries_answered = (
  λ outputs. (1, "ok", omega arith, refl),
  (λ outputs. (1, "ok", omega arith, refl), (λ outputs. (1, "ok", omega arith, refl), tt)),
)

execute_function_pipeline-completes_example :
    (p : Progress) × (execute_function_pipeline flaky nightly_run three.jobs ≡ finished p)
    × IsSubset (names_of three.jobs) p.completed
    × (all is_fine p.reports ≡ true)
execute_function_pipeline-completes_example =
    execute_function_pipeline-completes flaky nightly_run three three-IsRunnable retries_answered
