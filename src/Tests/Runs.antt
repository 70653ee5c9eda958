-- ===== src/Tests/Runs.antt =====
-- A run that is submitted, reported on, and retried.
use mlops.Base.{◌≡◌, ◌↔◌, ◌<◌, refl, ℕ, ◌+◌, String, List, [], ◌∷◌, length, map, arith}
use mlops.Base.Text.{trim_space}
use mlops.Base.Int.{pos}
use mlops.Api.Pipeline.{PipelineRun, UpdateRunStepRequest, SubmitPipelineRequest}
use mlops.Store.{State, Clock, zero_state, has_project, id, record_event}
use mlops.Store.Seed.{new, demo_run}
use mlops.Store.Steps.{
  valid_step_status, step_message, failed_steps, completed_steps, running_steps, verdict, advance,
  recompute, report_step, apply_step_transition, default_steps, reset_steps,
}
use mlops.Store.Runs.{
  report, update_run_step, cancel, cancel_run, retry_of, retry_run, submitted, plan_of,
  submit_pipeline,
}
use mlops.Store.Runs.Invariant.{report-verdict, ne_of_==-false}
use mlops.Store.Runs.Calls.{
  Call, submit, update_step, retry, stop, perform, perform_all, RunsAgree, perform_all-RunsAgree,
}
use mlops.Store.Runs.Ended.{KeepsEnd, perform_all-KeepsEnd}

abbrev clock : ℕ → Clock
clock base i = base + i

abbrev start : State
unfolding new
start = new 5 zero_state

abbrev order : SubmitPipelineRequest
order = record { project_id = "prj-demo"; name = " nightly "; definition_id = ""; parameters = [] }

abbrev says : String → String → UpdateRunStepRequest
says step status = record { step = step; status = status; message = "" }

abbrev calls : List Call
calls =
    submit (clock 100) order []
    ∷ update_step (clock 200) "run-101" (says "validate-data" "succeeded")
    ∷ update_step (clock 300) "run-101" (says "train-model" "failed")
    ∷ retry (clock 400) "run-101" "ann"
    ∷ stop (clock 500) "run-401" "ann"
    ∷ []

running_code : Unit {0}
unfolding new default_steps perform_all perform submit_pipeline plan_of submitted has_project id
    update_run_step report step_message valid_step_status apply_step_transition report_step
    recompute verdict advance failed_steps completed_steps running_steps retry_run retry_of
    reset_steps cancel_run cancel record_event trim_space
running_code = tt

-- The failed step fails the run at a quarter of its progress; the retry starts again, and is
-- cancelled.
submitted_and_retried :
    let s = perform_all calls start in
    (map (λ (r : PipelineRun). r.id) s.runs ≡ "run-401" ∷ "run-101" ∷ "run-demo" ∷ [])
    × (map (λ (r : PipelineRun). r.status) s.runs ≡ "cancelled" ∷ "failed" ∷ "succeeded" ∷ [])
    × (map (λ (r : PipelineRun). r.progress) s.runs ≡ pos 0 ∷ pos 25 ∷ pos 100 ∷ [])
    × (map (λ (r : PipelineRun). r.name) s.runs ≡ "nightly" ∷ "nightly" ∷ "training-pipeline" ∷ [])
unfolding running_code
submitted_and_retried = (refl, refl, refl, refl)

start-RunsAgree : RunsAgree start
unfolding running_code
start-RunsAgree = (
  record {
    known = refl;
    positive = omega arith;
    within = omega arith;
    all_completed = λ _. (refl, refl);
    some_failed = λ e. absurd (ne_of_==-false refl e);
  },
  tt,
)

perform_all-RunsAgree_example : RunsAgree (perform_all calls start)
perform_all-RunsAgree_example = perform_all-RunsAgree calls start start-RunsAgree

abbrev late : List Call
late =
    update_step (clock 600) "run-demo" (says "train-model" "failed")
    ∷ stop (clock 700) "run-demo" "ann"
    ∷ retry (clock 800) "run-demo" "ann"
    ∷ []

perform_all-KeepsEnd_example : KeepsEnd "run-demo" (demo_run 5) (perform_all late start).runs
unfolding id new
perform_all-KeepsEnd_example =
    perform_all-KeepsEnd "run-demo" (demo_run 5) late start refl (tt, (tt, (refl, tt))) refl

abbrev fresh : PipelineRun
fresh = record (demo_run 5) { status = "queued"; steps = [] }

report-verdict_example :
    let run' = report 9 (says "train-model" "failed") fresh in
    ((run'.status ≡ "failed") ↔ (0 < failed_steps run'.steps))
    × ((run'.status ≡ "succeeded")
        ↔ ((failed_steps run'.steps ≡ 0) × (completed_steps run'.steps ≡ length run'.steps)))
report-verdict_example = report-verdict 9 (says "train-model" "failed") fresh refl
