-- ===== src/Store/Postgres/Refines.antt =====
-- The runs of the Postgres repository against those of the file store.
use mlops.Base.{
  ◌+◌, ◌≡◌, refl, String, [], ◌∷◌, none, ◌==◌, ◌||◌, inl, inr, Bool-cases, Option-cases,
}
use mlops.Base.First.{find_first}
use mlops.Base.Text.{is_empty}
use mlops.Api.Value.{text}
use mlops.Api.Pipeline.{PipelineRun, UpdateRunStepRequest}
use mlops.Store.{State, Outcome, Clock, id, record_event}
use mlops.Store.Runs.{
  has_id, report, cancel, retry_of, link, update_run_step, cancel_run, retry_run, set_run_engine,
}
use mlops.Store.Runs.Ended.{report-id}
use mlops.Store.Steps.{valid_step_status}
use mlops.Store.Postgres.{list, Codec, Db, no_faults}
use mlops.Store.Postgres.Runs.{
  update_stored_step, cancel_stored_run, retry_stored_run, set_stored_run_engine,
}
use mlops.Store.Postgres.Rows.{
  Represents, get-none, get-some, save-updates, save-inserts, list-Represents,
}

-- A call of a method on runs. `CancelRun` of the file store reads the clock twice where that of the
-- Postgres repository reads it once: both readings are taken to be the same.
pub data Call : Type 0 where
  report_step : Clock → String → UpdateRunStepRequest → String → Call
  stop : Clock → String → String → Call
  again : Clock → String → String → Call
  engine : Clock → String → String → Call

unfoldable pub perform : Call → State → State × Outcome PipelineRun
perform (report_step clock run_id req actor) s = update_run_step clock run_id req s
perform (stop clock run_id actor) s = cancel_run (λ n. clock 0) run_id actor s
perform (again clock run_id actor) s = retry_run clock run_id actor s
perform (engine clock run_id engine_run_id) s = set_run_engine clock run_id engine_run_id s

-- The id that a call gives to a new run is free.
abbrev pub IsFree : Call → State → Type 0
IsFree (again clock _ _) s = find_first (has_id (id "run" (clock 1))) s.runs ≡ none
IsFree _ s = Unit

module _ {Json : Type 0} (codec : Codec Json PipelineRun) (tenant : String) where
  unfoldable pub perform_stored : Call → Db Json → Db Json × Outcome PipelineRun
  perform_stored (report_step clock run_id req actor) db =
      update_stored_step codec tenant no_faults clock run_id req actor db
  perform_stored (stop clock run_id actor) db =
      cancel_stored_run codec tenant no_faults clock run_id actor db
  perform_stored (again clock run_id actor) db =
      retry_stored_run codec tenant no_faults clock run_id actor db
  perform_stored (engine clock run_id engine_run_id) db =
      set_stored_run_engine codec tenant no_faults clock run_id engine_run_id db

  update-Represents :
      (clock : Clock) (run_id : String) (req : UpdateRunStepRequest) (actor : String) (s : State)
      (db : Db Json)
      → Represents codec tenant "pipeline_run" (λ run. run.id) db s.runs
      → ((update_stored_step codec tenant no_faults clock run_id req actor db).1
          ≡ (update_run_step clock run_id req s).1)
        × Represents codec tenant "pipeline_run"
            (λ run. run.id)
            (update_stored_step codec tenant no_faults clock run_id req actor db).0
            (update_run_step clock run_id req s).0.runs
  unfolding update_stored_step update_run_step record_event
  update-Represents clock run_id req actor s db r =
      elim (Bool-cases (is_empty req.step || is_empty req.status)) [
        | inl e ↦ rw (e, update_stored_step, update_run_step) (refl, r)
        | inr e ↦ elim (Bool-cases (valid_step_status req.status)) [
          | inr v ↦ rw (e, update_stored_step, update_run_step, v) (refl, r)
          | inl v ↦ elim (Option-cases (find_first (has_id run_id) s.runs)) [
            | inl f ↦
                rw
                  (
                    e,
                    update_stored_step,
                    update_run_step,
                    v,
                    get-none codec tenant "pipeline_run" (λ run. run.id) run_id db s.runs r f,
                    f,
                  )
                  (refl, r)
            | inr (run, f) ↦
                rw
                  (
                    e,
                    update_stored_step,
                    update_run_step,
                    v,
                    get-some codec tenant "pipeline_run" (λ run. run.id) run_id db s.runs r f,
                    f,
                  )
                  (save-updates codec tenant "pipeline_run" (λ run. run.id) (λ n. clock (1 + n))
                    "pipeline.step_reported" actor
                    (("step", text req.step) ∷ ("status", text req.status) ∷ [])
                    (report (clock 0) req) run_id db s.runs r f (report-id (clock 0) req run))
          ]
        ]
      ]

  cancel-Represents :
      (clock : Clock) (run_id actor : String) (s : State) (db : Db Json)
      → Represents codec tenant "pipeline_run" (λ run. run.id) db s.runs
      → ((cancel_stored_run codec tenant no_faults clock run_id actor db).1
          ≡ (cancel_run (λ n. clock 0) run_id actor s).1)
        × Represents codec tenant "pipeline_run"
            (λ run. run.id)
            (cancel_stored_run codec tenant no_faults clock run_id actor db).0
            (cancel_run (λ n. clock 0) run_id actor s).0.runs
  unfolding cancel_stored_run cancel_run record_event
  cancel-Represents clock run_id actor s db r =
      elim (Option-cases (find_first (has_id run_id) s.runs)) [
        | inl f ↦
            rw
              (
                get-none codec tenant "pipeline_run" (λ run. run.id) run_id db s.runs r f,
                cancel_stored_run,
                f,
                cancel_run,
              )
              (refl, r)
        | inr (run, f) ↦ elim (Bool-cases (run.status == "succeeded" || run.status == "failed")) [
          | inl e ↦
              rw
                (
                  get-some codec tenant "pipeline_run" (λ run. run.id) run_id db s.runs r f,
                  cancel_stored_run,
                  f,
                  cancel_run,
                  e,
                )
                (refl, r)
          | inr e ↦
              rw
                (
                  get-some codec tenant "pipeline_run" (λ run. run.id) run_id db s.runs r f,
                  cancel_stored_run,
                  f,
                  cancel_run,
                  e,
                )
                (save-updates codec tenant "pipeline_run" (λ run. run.id) (λ n. clock (1 + n))
                  "pipeline.cancelled" actor [] (cancel (clock 0) (clock 0) actor) run_id db s.runs
                  r f (unfold cancel in refl))
        ]
      ]

  retry-Represents :
      (clock : Clock) (run_id actor : String) (s : State) (db : Db Json)
      → Represents codec tenant "pipeline_run" (λ run. run.id) db s.runs
      → find_first (has_id (id "run" (clock 1))) s.runs ≡ none
      → ((retry_stored_run codec tenant no_faults clock run_id actor db).1
          ≡ (retry_run clock run_id actor s).1)
        × Represents codec tenant "pipeline_run"
            (λ run. run.id)
            (retry_stored_run codec tenant no_faults clock run_id actor db).0
            (retry_run clock run_id actor s).0.runs
  unfolding retry_stored_run retry_run record_event
  retry-Represents clock run_id actor s db r free =
      elim (Option-cases (find_first (has_id run_id) s.runs)) [
        | inl f ↦
            rw
              (
                get-none codec tenant "pipeline_run" (λ run. run.id) run_id db s.runs r f,
                retry_stored_run,
                f,
                retry_run,
              )
              (refl, r)
        | inr (run, f) ↦
            rw
              (
                get-some codec tenant "pipeline_run" (λ run. run.id) run_id db s.runs r f,
                retry_stored_run,
                f,
                retry_run,
              )
              (save-inserts codec tenant "pipeline_run" (λ run. run.id) (λ n. clock (2 + n))
                "pipeline.retried" actor (("parent_run_id", text run.id) ∷ [])
                (retry_of (clock 0) (clock 1) run) db s.runs r (unfold retry_of in free))
      ]

  link-Represents :
      (clock : Clock) (run_id engine_run_id : String) (s : State) (db : Db Json)
      → Represents codec tenant "pipeline_run" (λ run. run.id) db s.runs
      → ((set_stored_run_engine codec tenant no_faults clock run_id engine_run_id db).1
          ≡ (set_run_engine clock run_id engine_run_id s).1)
        × Represents codec tenant "pipeline_run"
            (λ run. run.id)
            (set_stored_run_engine codec tenant no_faults clock run_id engine_run_id db).0
            (set_run_engine clock run_id engine_run_id s).0.runs
  unfolding set_stored_run_engine set_run_engine record_event
  link-Represents clock run_id engine_run_id s db r =
      elim (Option-cases (find_first (has_id run_id) s.runs)) [
        | inl f ↦
            rw
              (
                get-none codec tenant "pipeline_run" (λ run. run.id) run_id db s.runs r f,
                set_stored_run_engine,
                f,
                set_run_engine,
              )
              (refl, r)
        | inr (run, f) ↦
            rw
              (
                get-some codec tenant "pipeline_run" (λ run. run.id) run_id db s.runs r f,
                set_stored_run_engine,
                f,
                set_run_engine,
              )
              (save-updates codec tenant "pipeline_run" (λ run. run.id) (λ n. clock (1 + n))
                "pipeline.engine_linked" "system" (("engine_run_id", text engine_run_id) ∷ [])
                (link (clock 0) engine_run_id) run_id db s.runs r f (unfold link in refl))
      ]

  step-Represents :
      (c : Call) (s : State) (db : Db Json)
      → Represents codec tenant "pipeline_run" (λ run. run.id) db s.runs
      → IsFree c s
      → ((perform_stored c db).1 ≡ (perform c s).1)
        × Represents codec tenant "pipeline_run"
            (λ run. run.id)
            (perform_stored c db).0
            (perform c s).0.runs
  unfolding perform_stored perform
  step-Represents (report_step clock run_id req actor) s db r free =
      update-Represents clock run_id req actor s db r
  step-Represents (stop clock run_id actor) s db r free =
      cancel-Represents clock run_id actor s db r
  step-Represents (again clock run_id actor) s db r free =
      retry-Represents clock run_id actor s db r free
  step-Represents (engine clock run_id engine_run_id) s db r free =
      link-Represents clock run_id engine_run_id s db r

  -- Where no statement fails, the Postgres repository implements the file store: for a call that
  -- reports a step, cancels, retries or links a run, it gives the same outcome, and afterwards its
  -- rows represent the runs of the file store, which `list` then returns, if its rows represent them
  -- before and the id of a retry is free.
  pub perform_stored-Represents :
      (c : Call) (s : State) (db : Db Json)
      → Represents codec tenant "pipeline_run" (λ run. run.id) db s.runs
      → IsFree c s
      → ((perform_stored c db).1 ≡ (perform c s).1)
        × Represents codec tenant "pipeline_run"
            (λ run. run.id)
            (perform_stored c db).0
            (perform c s).0.runs
        × (list codec tenant no_faults "pipeline_run" (perform_stored c db).0
            ≡ (perform c s).0.runs)
  perform_stored-Represents c s db r free =
      let (same, represents) = step-Represents c s db r free in
      (
        same,
        represents,
        list-Represents codec tenant "pipeline_run" (λ run. run.id) (perform_stored c db).0
            (perform c s).0.runs represents,
      )
