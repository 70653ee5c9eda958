-- ===== src/Store/Runs/Calls.antt =====
-- Sequences of calls on the runs of a store.
use mlops.Base.{
  ◌≡◌, String, false, List, [], ◌∷◌, ◌==◌, All, some, Option-cases, inl, inr, arith, Bool-cases,
  ◌⊎◌, ◌||◌,
}
use mlops.Base.First.{find_first, update_first, All-update_first}
use mlops.Api.Pipeline.{PipelineRun, UpdateRunStepRequest, SubmitPipelineRequest, PipelineStep}
use mlops.Store.{State, Clock, record_event, has_project}
use mlops.Store.Steps.{reset_steps}
use mlops.Store.Runs.{
  has_id, update_run_step, cancel_run, retry_run, set_run_engine, submit_pipeline, report, cancel,
  link, retry_of, submitted, plan_of,
}
use mlops.Store.Runs.Invariant.{
  IsConsistent, report-IsConsistent, cancel-IsConsistent, link-IsConsistent, queued-Agrees,
}

-- A call of a method that changes the runs, with the readings of the clock in it.
pub data Call : Type 0 where
  update_step : Clock → String → UpdateRunStepRequest → Call
  stop : Clock → String → String → Call
  retry : Clock → String → String → Call
  set_engine : Clock → String → String → Call
  submit : Clock → SubmitPipelineRequest → List String → Call

-- The state after a call.
unfoldable pub perform : Call → State → State
perform (update_step clock run_id req) s = (update_run_step clock run_id req s).0
perform (stop clock run_id actor) s = (cancel_run clock run_id actor s).0
perform (retry clock run_id actor) s = (retry_run clock run_id actor s).0
perform (set_engine clock run_id engine_run_id) s = (set_run_engine clock run_id engine_run_id s).0
perform (submit clock req actor) s = (submit_pipeline clock req actor s).0

-- The state after calls in turn.
unfoldable pub perform_all : List Call → State → State
perform_all [] s = s
perform_all (c ∷ cs) s = perform_all cs (perform c s)

-- What each method does to the list of runs.
pub update_run_step-runs :
    (clock : Clock) (run_id : String) (req : UpdateRunStepRequest) (s : State)
    → let runs = (update_run_step clock run_id req s).0.runs in
      (runs ≡ s.runs) ⊎ (runs ≡ update_first (has_id run_id) (report (clock 0) req) s.runs)
unfolding update_run_step
update_run_step-runs clock run_id req s = ground arith

pub cancel_run-runs :
    (clock : Clock) (run_id actor : String) (s : State)
    → let runs = (cancel_run clock run_id actor s).0.runs in
      (runs ≡ s.runs)
      ⊎ ((runs ≡ update_first (has_id run_id) (cancel (clock 0) (clock 1) actor) s.runs)
          × ((r : PipelineRun) × (find_first (has_id run_id) s.runs ≡ some r)
              × ((r.status == "succeeded" || r.status == "failed") ≡ false)))
unfolding cancel_run record_event
cancel_run-runs clock run_id actor s = elim (Option-cases (find_first (has_id run_id) s.runs)) [
  | inl e ↦ inl (rw (e, cancel_run))
  | inr (r, e) ↦ elim (Bool-cases (r.status == "succeeded" || r.status == "failed")) [
    | inl over ↦ inl (rw (e, cancel_run, over))
    | inr live ↦ inr (rw (e, cancel_run, live), (r, e, live))
  ]
]

pub retry_run-runs :
    (clock : Clock) (run_id actor : String) (s : State)
    → let runs = (retry_run clock run_id actor s).0.runs in
      (runs ≡ s.runs) ⊎ ((r : PipelineRun) × (runs ≡ retry_of (clock 0) (clock 1) r ∷ s.runs))
unfolding retry_run record_event
retry_run-runs clock run_id actor s = elim (Option-cases (find_first (has_id run_id) s.runs)) [
  | inl e ↦ inl (rw (e, retry_run))
  | inr (r, e) ↦ inr (r, rw (e, retry_run))
]

pub set_run_engine-runs :
    (clock : Clock) (run_id engine : String) (s : State)
    → let runs = (set_run_engine clock run_id engine s).0.runs in
      (runs ≡ s.runs) ⊎ (runs ≡ update_first (has_id run_id) (link (clock 0) engine) s.runs)
unfolding set_run_engine
set_run_engine-runs clock run_id engine s = ground arith

pub submit_pipeline-runs :
    (clock : Clock) (req : SubmitPipelineRequest) (actor : List String) (s : State)
    → let runs = (submit_pipeline clock req actor s).0.runs in
      (runs ≡ s.runs)
      ⊎ ((plan : List PipelineStep × String × String) × (runs ≡ submitted clock req plan ∷ s.runs))
unfolding submit_pipeline record_event
submit_pipeline-runs clock req actor s = elim (Bool-cases (has_project s.projects req.project_id)) [
  | inl known ↦ elim (Option-cases (plan_of req s)) [
    | inl e ↦ inl (rw (known, e))
    | inr (plan, e) ↦ inr (plan, rw (known, e))
  ]
  | inr unknown ↦ inl (rw unknown)
]

-- Every run of the store is consistent.
abbrev pub RunsAgree : State → Type 0
RunsAgree s = All IsConsistent s.runs

perform-RunsAgree : (c : Call) (s : State) → RunsAgree s → RunsAgree (perform c s)
unfolding perform
perform-RunsAgree (update_step clock run_id req) s h =
    elim (update_run_step-runs clock run_id req s) [
      | inl e ↦ rw e h
      | inr e ↦ rw e (
          All-update_first IsConsistent (has_id run_id) (report (clock 0) req) s.runs
            (λ r _. report-IsConsistent (clock 0) req r) h)
    ]
perform-RunsAgree (stop clock run_id actor) s h = elim (cancel_run-runs clock run_id actor s) [
  | inl e ↦ rw e h
  | inr (e, _) ↦ rw e (
      All-update_first IsConsistent (has_id run_id) (cancel (clock 0) (clock 1) actor) s.runs
        (λ r _. cancel-IsConsistent (clock 0) (clock 1) actor r) h)
]
perform-RunsAgree (retry clock run_id actor) s h = elim (retry_run-runs clock run_id actor s) [
  | inl e ↦ rw e h
  | inr (r, e) ↦ rw e (unfold retry_of in queued-Agrees (reset_steps r.steps), h)
]
perform-RunsAgree (set_engine clock run_id engine) s h =
    elim (set_run_engine-runs clock run_id engine s) [
      | inl e ↦ rw e h
      | inr e ↦ rw e (
          All-update_first IsConsistent (has_id run_id) (link (clock 0) engine) s.runs
            (λ r _. link-IsConsistent (clock 0) engine r) h)
    ]
perform-RunsAgree (submit clock req actor) s h = elim (submit_pipeline-runs clock req actor s) [
  | inl e ↦ rw e h
  | inr (plan, e) ↦ rw e (unfold submitted in queued-Agrees plan.0, h)
]

-- Whatever calls are made on a store whose runs are consistent, in whatever order, every run that
-- it then holds is consistent: its status is one that the program knows, its progress lies between 0
-- and 100, a run that succeeded has completed every step and stands at 100, and a run that failed
-- has a failed step.
pub perform_all-RunsAgree :
    (cs : List Call) (s : State) → RunsAgree s → RunsAgree (perform_all cs s)
unfolding perform_all
perform_all-RunsAgree [] s h = h
perform_all-RunsAgree (c ∷ cs) s h =
    perform_all-RunsAgree cs (perform c s) (perform-RunsAgree c s h)
