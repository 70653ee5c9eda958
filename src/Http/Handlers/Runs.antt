-- ===== src/Http/Handlers/Runs.antt =====
-- go/internal/httpapi/server.go and pipeline_dispatch.go: the handlers of pipeline runs, and how a
-- run that is submitted or retried reaches its engine.
use mlops.Base.{
  String, Bool, false, List, [], ◌∷◌, Option, none, some, ◌==◌, not, inl, inr, if◌then◌else◌,
}
use mlops.Base.Int.{pos}
use mlops.Base.Text.{is_empty}
use mlops.Api.Pipeline.{PipelineRun, PipelineJob, UpdateRunStepRequest, SubmitPipelineRequest}
use mlops.Store.{State, Error, not_found, Outcome, refused, returned}
use mlops.Store.Runs.{
  run, update_run_step, cancel_run, retry_run, submit_pipeline, set_run_engine,
  pipeline_definition_from,
}
use mlops.Http.Access.{allowed_project_ids, project_allowed, filter_runs, enforce_run_quota}
use mlops.Http.Handlers.{
  Request, Env, Flow, Body, text_of, caused_by, denied_by, Reply, problem, json, panicked,
  principal, actor, commit, answer, write_mutation, decode,
}

-- The text of `ErrNotFound`.
abbrev not_found_text : String
not_found_text = "resource not found"

-- `api.PipelineRun{}`
abbrev zero_run : PipelineRun
zero_run = record {
  id = "";
  project_id = "";
  name = "";
  status = "";
  progress = pos 0;
  created_at = 0;
  updated_at = 0;
  parent_run_id = "";
  engine_run_id = "";
  definition_id = "";
  execution_mode = "";
  parameters = [];
  steps = [];
  logs = [];
}

-- The value beside an error is the zero value.
abbrev run_value : Outcome PipelineRun → PipelineRun
run_value (refused _) = zero_run
run_value (returned item) = item

-- A report of the dispatcher on the run. It goes on with the value that `UpdateRunStep` returns,
-- whatever the error.
unfoldable pub report_failure : Env → String → String → String → State → State × Option PipelineRun
report_failure env run_id step said s =
    let done =
      update_run_step env.later run_id (record { step = step; status = "failed"; message = said })
        s in
    (done.0, some (run_value done.1))

-- What a run takes to Prefect.
unfoldable pub flow_of : State → PipelineRun → Flow
flow_of s item = record {
  name = item.name;
  run_id = item.id;
  project_id = item.project_id;
  parameters = item.parameters;
  definition =
      if is_empty item.definition_id
      then none
      else pipeline_definition_from s.definitions item.definition_id;
}

-- The report on `definition.Jobs[0]`, which panics where there is no job.
unfoldable pub report_first_job :
    Env → String → List PipelineJob → State → State × Option PipelineRun
report_first_job env run_id [] s = (s, none)
report_first_job env run_id (job ∷ _) s =
    report_failure env run_id job.name "OPENFAAS_URL is not configured" s

-- The part of `dispatchPipeline` for functions.
-- The goroutine that it starts at the end is `execute_function_pipeline` of Http/Orchestrator.
unfoldable pub dispatch_functions : Env → PipelineRun → State → State × Option PipelineRun
dispatch_functions env item s = elim (pipeline_definition_from s.definitions item.definition_id) [
  | none ↦ report_failure env item.id "load-definition" not_found_text s
  | some definition ↦ elim env.openfaas [
    | some _ ↦ (s, some item)
    | none ↦ report_first_job env item.id definition.jobs s
  ]
]

-- The part of `dispatchPipeline` for Prefect.
unfoldable pub dispatch_prefect : Env → PipelineRun → State → State × Option PipelineRun
dispatch_prefect env item s = elim env.prefect [
  | none ↦ (s, some item)
  | some create_flow_run ↦ elim (create_flow_run (flow_of s item)) [
    | inl e ↦ report_failure env item.id "submit-to-engine" e s
    | inr engine_id ↦
        let linked = commit env (set_run_engine env.later item.id engine_id s) in
        (linked.0, some (elim linked.1 [ refused _ ↦ item | returned value ↦ value ]))
  ]
]

-- `dispatchPipeline`: `none` where it panics.
unfoldable pub dispatch_pipeline : Env → PipelineRun → State → State × Option PipelineRun
dispatch_pipeline env item s =
    if item.execution_mode == "functions"
    then dispatch_functions env item s
    else dispatch_prefect env item s

-- The answer with a run that has been made: it is dispatched first.
unfoldable pub answer_dispatched :
    Env → State × Outcome PipelineRun → (Error → Reply PipelineRun) → State × Reply PipelineRun
answer_dispatched env (s, refused e) failure = (s, failure e)
answer_dispatched env (s, returned item) failure =
    let done = dispatch_pipeline env item s in
    (done.0, elim done.1 [ none ↦ panicked | some sent ↦ json 202 sent ])

-- The guard of `cancelRun` and `retryRun`: the run exists in a project of the caller.
unfoldable pub run_allowed : State → Request → String → Bool
run_allowed s request run_id = elim (run run_id s) [
  | refused _ ↦ false
  | returned item ↦ project_allowed s (principal request) item.project_id
]

module _ (env : Env) (request : Request) where
  -- `runs`
  unfoldable pub handle_runs : State → Reply (List PipelineRun)
  handle_runs s = json 200 (filter_runs s.runs (allowed_project_ids s (principal request)))

  -- `run`
  unfoldable pub handle_run : String → State → Reply PipelineRun
  handle_run run_id s = elim (run run_id s) [
    | refused e ↦ write_mutation (refused e) 200
    | returned item ↦
        if project_allowed s (principal request) item.project_id
        then write_mutation (returned item) 200
        else write_mutation (refused not_found) 200
  ]

  -- `cancelRun`. That it then asks Prefect to cancel the flow changes nothing here.
  unfoldable pub handle_cancel_run : String → State → State × Reply PipelineRun
  handle_cancel_run run_id s =
      if not (run_allowed s request run_id)
      then (s, problem 404 "not_found" (text_of "run not found"))
      else answer env 200 (cancel_run env.clock run_id (actor request) s)

  -- `updateRunStep`
  unfoldable pub handle_update_run_step :
      String → Body UpdateRunStepRequest → State → State × Reply PipelineRun
  handle_update_run_step run_id body s =
      decode body s λ req. answer env 200 (update_run_step env.clock run_id req s)

  -- `retryRun`
  unfoldable pub handle_retry_run : String → State → State × Reply PipelineRun
  handle_retry_run run_id s =
      if not (run_allowed s request run_id)
      then (s, problem 404 "not_found" (text_of "run not found"))
      else elim (enforce_run_quota s (principal request)) [
        | some denial ↦ (s, problem 403 "quota_exceeded" (denied_by denial))
        | none ↦
            answer_dispatched env (commit env (retry_run env.clock run_id (actor request) s))
              λ e. write_mutation (refused e) 202
      ]

  -- The answer of `submitPipeline` to an error. It compares with `==`, so that only `ErrNotFound`
  -- itself gives 404.
  unfoldable pub submission_failed : Error → Reply PipelineRun
  submission_failed e =
      problem (elim e [ not_found ↦ 404 | _ ↦ 422 ]) "pipeline_submission_failed" (caused_by e)

  -- What `submitPipeline` does with a request that it has read.
  unfoldable pub submit_request : SubmitPipelineRequest → State → State × Reply PipelineRun
  submit_request req s =
      if not (project_allowed s (principal request) req.project_id)
      then (s, problem 403 "access_denied" (text_of "project is not assigned to this user"))
      else elim (enforce_run_quota s (principal request)) [
        | some denial ↦ (s, problem 403 "quota_exceeded" (denied_by denial))
        | none ↦
            answer_dispatched env
              (commit env (submit_pipeline env.clock req (actor request ∷ []) s)) submission_failed
      ]

  -- `submitPipeline`
  unfoldable pub handle_submit_pipeline :
      Body SubmitPipelineRequest → State → State × Reply PipelineRun
  handle_submit_pipeline body s = decode body s λ req. submit_request req s
