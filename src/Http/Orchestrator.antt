-- ===== src/Http/Orchestrator.antt =====
-- go/internal/httpapi/pipeline_dispatch.go: `executeFunctionPipeline`, which runs the jobs of a
-- pipeline of functions, as many at a time as their dependencies allow.
--
-- The jobs of a round run concurrently; the model runs them one after another. They share only the
-- maps `outputs` and `completed`, of which a job reads what earlier rounds have written.
pub mod Rounds
pub mod Attempts
pub mod Ends
use Prim.Native.String.{◌++◌}
use mlops.Base.{
  ℕ, zero, suc, ◌+◌, String, Bool, true, false, List, [], ◌∷◌, ◌++◌ as append, Option, none, some,
  ◌==◌, ◌||◌, not, all, any, filter, is_nil, length, map, if◌then◌else◌,
}
use mlops.Base.Decimal.{decimal}
use mlops.Base.Int.{ℤ, pos, negsuc}
use mlops.Base.Text.{contains, byte_length}
use mlops.Api.Value.{Any, null, text}
use mlops.Api.Pipeline.{PipelineJob, PipelineRun, UpdateRunStepRequest}
use mlops.Store.Definitions.{names_of}

-- The JSON object that a function is invoked with.
pub record Payload : Type 0 where
  pub run_id : String
  pub project_id : String
  pub step : String
  pub parameters : List (String × Any)
  pub dependencies : List (String × Any)

-- What an invocation returns: an error, or the body of the response.
pub data Invoked : Type 0 where
  failing : String → Invoked
  answered : String → Invoked

-- The client of OpenFaaS, at each attempt, and `json.Unmarshal` into an `any`.
pub record Runtime : Type 0 where
  pub invoke : String → Payload → ℕ → Invoked
  pub unmarshal : String → Option Any

-- The variables of the loop, and the reports that have been made with `UpdateRunStep`.
pub record Progress : Type 0 where
  pub remaining : List PipelineJob
  pub completed : List String
  pub outputs : List (String × Any)
  pub failed : Bool
  pub reports : List UpdateRunStepRequest

-- `outputs[name]`, which is null where the name is missing.
unfoldable pub output_of : List (String × Any) → String → Any
output_of [] name = null
output_of ((k, value) ∷ m) name = if k == name then value else output_of m name

-- The attempts that are left, the number of the next, and what the last one returned.
unfoldable pub attempts : (ℕ → Invoked) → ℕ → ℕ → Invoked → Invoked
attempts call zero attempt last = last
attempts call (suc left) attempt last = elim (call attempt) [
  | answered raw ↦ answered raw
  | failing e ↦ attempts call left (attempt + 1) (failing e)
]

-- `for attempt := 0; attempt <= job.Retries; attempt++`
abbrev pub rounds_of : ℤ → ℕ
rounds_of (pos n) = suc n
rounds_of (negsuc _) = 0

-- Whether the dependencies of the job have completed.
unfoldable pub is_ready : List String → PipelineJob → Bool
is_ready completed job = all (λ dependency. contains completed dependency) job.depends_on

-- How the loop ends: with no job left, after a round that failed, or with no job that is ready. It is
-- exhausted where the fuel of the model ends it.
pub data Ending : Type 0 where
  finished halted stuck : Progress → Ending
  exhausted : Ending

abbrev pub ready_of : Progress → List PipelineJob
ready_of p = filter (is_ready p.completed) p.remaining

-- The variables before the loop.
abbrev pub first_progress : List PipelineJob → Progress
first_progress jobs = record {
  remaining = jobs;
  completed = [];
  outputs = [];
  failed = false;
  reports = [];
}

module _ (runtime : Runtime) (run : PipelineRun) where
  unfoldable pub payload_of : PipelineJob → List (String × Any) → Payload
  payload_of job outputs = record {
    run_id = run.id;
    project_id = run.project_id;
    step = job.name;
    parameters = run.parameters;
    dependencies = map (λ name. (name, output_of outputs name)) job.depends_on;
  }

  unfoldable pub run_attempts : PipelineJob → List (String × Any) → Invoked
  run_attempts job outputs =
      attempts (runtime.invoke job.function (payload_of job outputs)) (rounds_of job.retries) 0
        (answered "")

  unfoldable pub reported : String → String → String → Progress → Progress
  reported step status said p = record p {
    reports = append p.reports (record { step = step; status = status; message = said } ∷ []);
  }

  -- The goroutine of a job.
  unfoldable pub run_job : PipelineJob → Progress → Progress
  unfolding reported
  run_job job p =
      let p' = reported job.name "running" ("invoking function " ++ job.function) p in
      elim (run_attempts job p.outputs) [
        | failing e ↦ record (reported job.name "failed" e p') { failed = true }
        | answered raw ↦
            let output : Any = elim (runtime.unmarshal raw) [
              | none ↦ text raw
              | some value ↦ value
            ] in
            reported job.name "succeeded"
              ("function "
                ++ job.function
                ++ " completed ("
                ++ decimal (byte_length raw)
                ++ " bytes)")
              (record p' {
                outputs = (job.name, output) ∷ p'.outputs;
                completed = job.name ∷ p'.completed;
              })
      ]

  unfoldable pub run_jobs : List PipelineJob → Progress → Progress
  run_jobs [] p = p
  run_jobs (job ∷ jobs) p = run_jobs jobs (run_job job p)

  -- One round, where some job is ready.
  unfoldable pub round : Progress → Progress
  round p =
      let ready = ready_of p in
      run_jobs ready (record p {
        remaining = filter (λ job. not (contains (names_of ready) job.name)) p.remaining;
        failed = false;
      })

  -- The loop `for len(remaining) > 0`, with the fuel of the model first.
  unfoldable pub execute : ℕ → Progress → Ending
  execute zero p = exhausted
  execute (suc fuel) p =
      if is_nil p.remaining
      then finished p
      else if is_nil (ready_of p)
      then stuck (reported "orchestrator" "failed" "pipeline graph cannot make progress" p)
      else elim (round p).failed [ true ↦ halted (round p) | false ↦ execute fuel (round p) ]

  -- `executeFunctionPipeline`, for jobs of distinct names. Each round takes a job off `remaining`, so
  -- that there are no more rounds than jobs.
  unfoldable pub execute_function_pipeline : List PipelineJob → Ending
  execute_function_pipeline jobs = execute (suc (length jobs)) (first_progress jobs)
