-- ===== src/Store/Runs.antt =====
-- go/internal/store/store.go: the methods on pipeline runs.
pub mod Invariant
pub mod Calls
pub mod Ended
use Prim.Native.String.{◌++◌}
use mlops.Base.{
  String, Bool, List, [], ◌∷◌, ◌++◌ as append, Option, none, some, ◌==◌, ◌||◌, not, if◌then◌else◌,
}
use mlops.Base.First.{find_first, update_first}
use mlops.Base.Int.{pos}
use mlops.Base.Text.{is_empty, trim_space}
use mlops.Api.Value.{Time}
use mlops.Api.Value.Any.{text}
use mlops.Api.Pipeline.{
  PipelineRun, PipelineDefinition, PipelineStep, UpdateRunStepRequest, SubmitPipelineRequest,
}
use mlops.Store.{
  State, Outcome, refused, returned, not_found, message, invalid_step_status, Clock, id,
  record_event, has_project, first,
}
use mlops.Store.Steps.{
  valid_step_status, step_message, apply_step_transition, reset_steps, steps_from_definition,
  default_steps,
}

abbrev pub has_id : String → PipelineRun → Bool
has_id run_id run = run.id == run_id

-- `Run`
unfoldable pub run : String → State → Outcome PipelineRun
run run_id s = elim (find_first (has_id run_id) s.runs) [
  | none ↦ refused not_found
  | some found ↦ returned found
]

-- The statuses in which a run takes no further transition.
abbrev pub is_terminal : String → Bool
is_terminal status = status == "cancelled" || status == "failed" || status == "succeeded"

-- What `UpdateRunStep` does to the run that it finds.
unfoldable pub report : Time → UpdateRunStepRequest → PipelineRun → PipelineRun
report now req run =
    let logged = record run {
      logs = append run.logs (
          record {
            timestamp = now;
            step = req.step;
            level = if req.status == "failed" then "error" else "info";
            message = step_message req;
          }
          ∷ []);
    } in
    if is_terminal run.status
    then logged
    else record (apply_step_transition logged req) { updated_at = now }

-- `UpdateRunStep`
unfoldable pub update_run_step :
    Clock → String → UpdateRunStepRequest → State → State × Outcome PipelineRun
update_run_step clock run_id req s =
    if is_empty req.step || is_empty req.status
    then (s, refused (message "step and status are required"))
    else if not (valid_step_status req.status)
    then (s, refused (invalid_step_status req.status))
    else elim (find_first (has_id run_id) s.runs) [
      | none ↦ (s, refused not_found)
      | some found ↦
          let change = report (clock 0) req in
          (record s { runs = update_first (has_id run_id) change s.runs }, returned (change found))
    ]

-- What `CancelRun` does to the run that it finds. It reads the clock for the run and for the log.
unfoldable pub cancel : Time → Time → String → PipelineRun → PipelineRun
cancel now now' actor run = record run {
  status = "cancelled";
  updated_at = now;
  logs = append run.logs (
      record {
        timestamp = now';
        step = "";
        level = "warning";
        message = "Run cancelled by " ++ actor;
      }
      ∷ []);
}

-- `CancelRun`
unfoldable pub cancel_run : Clock → String → String → State → State × Outcome PipelineRun
cancel_run clock run_id actor s = elim (find_first (has_id run_id) s.runs) [
  | none ↦ (s, refused not_found)
  | some found ↦
      if found.status == "succeeded" || found.status == "failed"
      then (s, refused (message "completed runs cannot be cancelled"))
      else let change = cancel (clock 0) (clock 1) actor in
        (
          record_event (clock 2) (clock 3) "pipeline.cancelled" "pipeline_run" run_id actor []
              (record s { runs = update_first (has_id run_id) change s.runs }),
          returned (change found),
        )
]

-- The run that `RetryRun` makes from an earlier one.
unfoldable pub retry_of : Time → Time → PipelineRun → PipelineRun
retry_of now now' previous = record {
  id = id "run" now';
  project_id = previous.project_id;
  name = previous.name;
  status = "queued";
  progress = pos 0;
  created_at = now;
  updated_at = now;
  parent_run_id = previous.id;
  engine_run_id = "";
  definition_id = previous.definition_id;
  execution_mode = previous.execution_mode;
  parameters = previous.parameters;
  steps = reset_steps previous.steps;
  logs =
      record {
        timestamp = now;
        step = "";
        level = "info";
        message = "Retry created from " ++ previous.id;
      }
      ∷ [];
}

-- `RetryRun`
unfoldable pub retry_run : Clock → String → String → State → State × Outcome PipelineRun
retry_run clock run_id actor s = elim (find_first (has_id run_id) s.runs) [
  | none ↦ (s, refused not_found)
  | some previous ↦
      let next = retry_of (clock 0) (clock 1) previous in
      (
        record_event (clock 2) (clock 3) "pipeline.retried" "pipeline_run" next.id actor
            (("parent_run_id", text previous.id) ∷ []) (record s { runs = next ∷ s.runs }),
        returned next,
      )
]

unfoldable pub link : Time → String → PipelineRun → PipelineRun
link now engine_run_id run = record run { engine_run_id = engine_run_id; updated_at = now }

-- `SetRunEngine`
unfoldable pub set_run_engine : Clock → String → String → State → State × Outcome PipelineRun
set_run_engine clock run_id engine_run_id s = elim (find_first (has_id run_id) s.runs) [
  | none ↦ (s, refused not_found)
  | some found ↦ (
    record s { runs = update_first (has_id run_id) (link (clock 0) engine_run_id) s.runs },
    returned (link (clock 0) engine_run_id found),
  )
]

-- `pipelineDefinitionFrom`
unfoldable pub pipeline_definition_from :
    List PipelineDefinition → String → Option PipelineDefinition
pipeline_definition_from values definition_id = find_first (λ d. d.id == definition_id) values

-- The steps, execution mode and default name of a submitted run; `none` where the request names a
-- definition that is not one of its project.
unfoldable pub plan_of :
    SubmitPipelineRequest → State → Option (List PipelineStep × String × String)
unfolding pipeline_definition_from
plan_of req s =
    if is_empty req.definition_id
    then some (default_steps "pending", "prefect", req.name)
    else elim (pipeline_definition_from s.definitions req.definition_id) [
      | none ↦ none
      | some definition ↦
          if definition.project_id == req.project_id
          then some (
            steps_from_definition definition,
            definition.execution_mode,
            if is_empty (trim_space req.name) then definition.name else req.name,
          )
          else none
    ]

-- The run that `SubmitPipeline` makes of a plan.
unfoldable pub submitted :
    Clock → SubmitPipelineRequest → List PipelineStep × String × String → PipelineRun
submitted clock req (steps, mode, name) = record {
  id = id "run" (clock 1);
  project_id = req.project_id;
  name = trim_space (if is_empty (trim_space name) then "training-pipeline" else name);
  status = "queued";
  progress = pos 0;
  created_at = clock 0;
  updated_at = clock 0;
  parent_run_id = "";
  engine_run_id = "";
  definition_id = req.definition_id;
  execution_mode = mode;
  parameters = req.parameters;
  steps = steps;
  logs =
      record {
        timestamp = clock 0;
        step = "";
        level = "info";
        message = "Run accepted by control plane";
      }
      ∷ [];
}

-- `SubmitPipeline`
unfoldable pub submit_pipeline :
    Clock → SubmitPipelineRequest → List String → State → State × Outcome PipelineRun
submit_pipeline clock req actor s =
    if not (has_project s.projects req.project_id)
    then (s, refused not_found)
    else elim (plan_of req s) [
      | none ↦ (s, refused not_found)
      | some plan ↦
          let run = submitted clock req plan in
          (
            record_event (clock 2) (clock 3) "pipeline.submitted" "pipeline_run" run.id
                (first actor) [] (record s { runs = run ∷ s.runs }),
            returned run,
          )
    ]
