-- ===== src/Store/Postgres/Runs.antt =====
-- go/internal/store/postgres.go: the methods on pipeline runs.
use mlops.Base.{String, [], ◌∷◌, ◌==◌, ◌||◌, ◌+◌, not, if◌then◌else◌}
use mlops.Base.Text.{is_empty}
use mlops.Api.Value.{text}
use mlops.Api.Pipeline.{PipelineRun, UpdateRunStepRequest}
use mlops.Store.{Outcome, refused, returned, message, invalid_step_status, Clock, Metadata}
use mlops.Store.Runs.{report, cancel, retry_of, link}
use mlops.Store.Steps.{valid_step_status}
use mlops.Store.Postgres.{Codec, Db, Faults, get, save}

module _ {Json : Type 0} (codec : Codec Json PipelineRun) (tenant : String) (faults : Faults) where
  abbrev save_run :
      Clock → String → String → Metadata → PipelineRun → Db Json → Db Json × Outcome PipelineRun
  save_run = save codec tenant faults "pipeline_run" (λ run. run.id)

  -- `Run`
  abbrev pub stored_run : String → Db Json → Outcome PipelineRun
  stored_run = get codec tenant faults "pipeline_run"

  -- `UpdateRunStep`
  unfoldable pub update_stored_step :
      Clock → String → UpdateRunStepRequest → String → Db Json → Db Json × Outcome PipelineRun
  update_stored_step clock run_id req actor db =
      if is_empty req.step || is_empty req.status
      then (db, refused (message "step and status are required"))
      else if not (valid_step_status req.status)
      then (db, refused (invalid_step_status req.status))
      else elim (stored_run run_id db) [
        | refused e ↦ (db, refused e)
        | returned run ↦
            save_run (λ n. clock (1 + n)) "pipeline.step_reported" actor
              (("step", text req.step) ∷ ("status", text req.status) ∷ [])
              (report (clock 0) req run) db
      ]

  -- `CancelRun`. It reads the clock once, for the run and for the log.
  unfoldable pub cancel_stored_run :
      Clock → String → String → Db Json → Db Json × Outcome PipelineRun
  cancel_stored_run clock run_id actor db = elim (stored_run run_id db) [
    | refused e ↦ (db, refused e)
    | returned run ↦
        if run.status == "succeeded" || run.status == "failed"
        then (db, refused (message "completed runs cannot be cancelled"))
        else save_run (λ n. clock (1 + n)) "pipeline.cancelled" actor []
            (cancel (clock 0) (clock 0) actor run) db
  ]

  -- `RetryRun`
  unfoldable pub retry_stored_run :
      Clock → String → String → Db Json → Db Json × Outcome PipelineRun
  retry_stored_run clock run_id actor db = elim (stored_run run_id db) [
    | refused e ↦ (db, refused e)
    | returned previous ↦
        save_run (λ n. clock (2 + n)) "pipeline.retried" actor
          (("parent_run_id", text previous.id) ∷ []) (retry_of (clock 0) (clock 1) previous) db
  ]

  -- `SetRunEngine`
  unfoldable pub set_stored_run_engine :
      Clock → String → String → Db Json → Db Json × Outcome PipelineRun
  set_stored_run_engine clock run_id engine_run_id db = elim (stored_run run_id db) [
    | refused e ↦ (db, refused e)
    | returned run ↦
        save_run (λ n. clock (1 + n)) "pipeline.engine_linked" "system"
          (("engine_run_id", text engine_run_id) ∷ []) (link (clock 0) engine_run_id run) db
  ]
