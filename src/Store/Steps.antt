-- ===== src/Store/Steps.antt =====
-- go/internal/store/store.go and workloads.go: the steps of a pipeline run, and how a reported
-- transition recomputes the run's status and progress.
use Prim.Native.String.{◌++◌}
use mlops.Base.{
  ℕ, ◌*◌, ◌/◌, String, Bool, List, [], ◌∷◌, map, ◌==◌, ◌||◌, ltb, eqb, length, count, if◌then◌else◌,
}
use mlops.Base.Int.{ℤ, pos}
use mlops.Base.Text.{is_empty}
use mlops.Api.Pipeline.{
  PipelineStep, PipelineRun, PipelineJob, PipelineDefinition, UpdateRunStepRequest,
}

-- `validStepStatus`
unfoldable pub valid_step_status : String → Bool
valid_step_status status =
    status == "pending"
    || status == "running"
    || status == "succeeded"
    || status == "failed"
    || status == "skipped"

-- `stepMessage`
unfoldable pub step_message : UpdateRunStepRequest → String
step_message req =
    if is_empty req.message then "step " ++ req.step ++ " " ++ req.status else req.message

-- The two statuses that count as completed.
abbrev pub is_completed : String → Bool
is_completed status = status == "succeeded" || status == "skipped"

-- The first loop of `applyStepTransition`, and the append where no step has the name.
unfoldable pub report_step : UpdateRunStepRequest → List PipelineStep → List PipelineStep
report_step req [] =
    record {
      name = req.step;
      status = req.status;
      image = "";
      depends_on = [];
      progress = if is_completed req.status then pos 100 else pos 0;
    }
    ∷ []
report_step req (step ∷ steps) =
    if step.name == req.step
    then record step {
      status = req.status;
      progress = if is_completed req.status then pos 100 else step.progress;
    }
      ∷ steps
    else step ∷ report_step req steps

unfoldable pub completed_steps : List PipelineStep → ℕ
completed_steps = count λ step. is_completed step.status

unfoldable pub failed_steps : List PipelineStep → ℕ
failed_steps = count λ step. step.status == "failed"

unfoldable pub running_steps : List PipelineStep → ℕ
running_steps = count λ step. step.status == "running"

-- The status that the last `switch` of `applyStepTransition` leaves.
unfoldable pub verdict : List PipelineStep → String → String
verdict steps status =
    if ltb 0 (failed_steps steps)
    then "failed"
    else if eqb (completed_steps steps) (length steps)
    then "succeeded"
    else if ltb 0 (running_steps steps) || ltb 0 (completed_steps steps)
    then "running"
    else status

-- The progress that it leaves: a run that succeeds is at 100. `completed * 100` stays far below
-- 2^63, since a slice of steps fits the address space.
unfoldable pub advance : List PipelineStep → ℤ → ℤ
advance steps progress =
    let completed = completed_steps steps in
    let share = if ltb 0 (length steps) then pos (completed * 100 / length steps) else progress in
    if ltb 0 (failed_steps steps)
    then share
    else if eqb completed (length steps)
    then pos 100
    else share

-- The part of `applyStepTransition` after the first loop.
unfoldable pub recompute : List PipelineStep → PipelineRun → PipelineRun
unfolding verdict advance
recompute steps run = record run {
  steps = steps;
  progress = advance steps run.progress;
  status = verdict steps run.status;
}

-- `applyStepTransition`
unfoldable pub apply_step_transition : PipelineRun → UpdateRunStepRequest → PipelineRun
unfolding report_step recompute
apply_step_transition run req = recompute (report_step req run.steps) run

reset_step : PipelineStep → PipelineStep
reset_step step = record step { status = "pending"; progress = pos 0 }

-- `resetSteps`
unfoldable pub reset_steps : List PipelineStep → List PipelineStep
unfolding reset_step
reset_steps = map reset_step

step_of_job : PipelineJob → PipelineStep
step_of_job job = record {
  name = job.name;
  status = "pending";
  image = if job.kind == "function" then "function://" ++ job.function else job.image;
  depends_on = job.depends_on;
  progress = pos 0;
}

-- `stepsFromDefinition`
unfoldable pub steps_from_definition : PipelineDefinition → List PipelineStep
unfolding step_of_job
steps_from_definition definition = map step_of_job definition.jobs

default_step : String → String → List String → PipelineStep
default_step status name depends_on = record {
  name = name;
  status = status;
  image = "mlaiops/pipeline-runner:latest";
  depends_on = depends_on;
  progress = if status == "succeeded" then pos 100 else pos 0;
}

-- `defaultSteps`
unfoldable pub default_steps : String → List PipelineStep
unfolding default_step
default_steps status =
    default_step status "validate-data" []
    ∷ default_step status "train-model" ("validate-data" ∷ [])
    ∷ default_step status "evaluate" ("train-model" ∷ [])
    ∷ default_step status "register-model" ("evaluate" ∷ [])
    ∷ []
