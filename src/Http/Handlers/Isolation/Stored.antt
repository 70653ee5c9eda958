-- ===== src/Http/Handlers/Isolation/Stored.antt =====
-- The methods of the local repository that the handlers call, on members that the caller may access.
use mlops.Base.{
  ◌≡◌, refl, String, true, ◌==◌, ◌||◌, List, ◌∷◌, some, inl, inr, Bool-cases, Option-cases, arith,
}
use mlops.Base.First.{find_first, update_first}
use mlops.Base.Text.{is_empty}
use mlops.Api.Pipeline.{PipelineRun, UpdateRunStepRequest, SubmitPipelineRequest}
use mlops.Api.Project.{AuditEvent}
use mlops.Auth.{Principal}
use mlops.Store.{State, Clock, record_event, has_project}
use mlops.Store.Steps.{apply_step_transition, recompute, valid_step_status}
use mlops.Store.Runs.{
  has_id, report, cancel, retry_of, update_run_step, cancel_run, retry_run, set_run_engine,
  submit_pipeline, submitted, plan_of, link,
}
use mlops.Http.Access.{allowed_project_ids, permits}
use mlops.Http.Handlers.Isolation.{
  IsIsolated, IsIsolated-refl, foreign, foreign-cons, foreign-update_first,
}

report-project :
    (clock : Clock) (req : UpdateRunStepRequest) (r : PipelineRun)
    → (report (clock 0) req r).project_id ≡ r.project_id
unfolding report apply_step_transition recompute
report-project clock req r = ground arith

module _ (p : Principal) (s : State) where
  -- A change of the runs and of the audit trail.
  runs-IsIsolated :
      (runs : List PipelineRun) (audit : List AuditEvent)
      → foreign (allowed_project_ids s p) (λ x. x.project_id) runs
        ≡ foreign (allowed_project_ids s p) (λ x. x.project_id) s.runs
      → IsIsolated p s (record s { runs = runs; audit = audit })
  unfolding allowed_project_ids
  runs-IsIsolated runs audit h = (refl, h, refl, refl, refl, refl, refl)

  module _ {found : PipelineRun} (run_id : String)
      (e : find_first (has_id run_id) s.runs ≡ some found)
      (h : permits (allowed_project_ids s p) found.project_id ≡ true) where
    pub update_run_step-IsIsolated :
        (clock : Clock) (req : UpdateRunStepRequest)
        → IsIsolated p s (update_run_step clock run_id req s).0
    unfolding update_run_step
    update_run_step-IsIsolated clock req =
        elim (Bool-cases (is_empty req.step || is_empty req.status)) [
          | inl bad ↦ rw (bad, update_run_step) (IsIsolated-refl p s)
          | inr full ↦ elim (Bool-cases (valid_step_status req.status)) [
            | inr bad ↦ rw (full, bad, update_run_step) (IsIsolated-refl p s)
            | inl good ↦
                rw (full, good, e, update_run_step)
                  (runs-IsIsolated (update_first (has_id run_id) (report (clock 0) req) s.runs)
                    s.audit
                    (foreign-update_first (allowed_project_ids s p) (λ x. x.project_id)
                      (has_id run_id) (report (clock 0) req) s.runs e h
                      (report-project clock req found)))
          ]
        ]

    pub cancel_run-IsIsolated :
        (clock : Clock) (actor : String) → IsIsolated p s (cancel_run clock run_id actor s).0
    unfolding cancel_run record_event cancel
    cancel_run-IsIsolated clock actor =
        elim (Bool-cases (found.status == "succeeded" || found.status == "failed")) [
          | inl over ↦ rw (e, cancel_run, over) (IsIsolated-refl p s)
          | inr live ↦
              rw (e, cancel_run, live)
                (runs-IsIsolated
                  (update_first (has_id run_id) (cancel (clock 0) (clock 1) actor) s.runs) _
                  (foreign-update_first (allowed_project_ids s p) (λ x. x.project_id)
                    (has_id run_id) (cancel (clock 0) (clock 1) actor) s.runs e h refl))
        ]

    pub set_run_engine-IsIsolated :
        (clock : Clock) (engine : String) → IsIsolated p s (set_run_engine clock run_id engine s).0
    unfolding set_run_engine link
    set_run_engine-IsIsolated clock engine =
        rw (e, set_run_engine)
          (runs-IsIsolated (update_first (has_id run_id) (link (clock 0) engine) s.runs) s.audit (
            foreign-update_first (allowed_project_ids s p) (λ x. x.project_id) (has_id run_id)
              (link (clock 0) engine) s.runs e h refl))

    pub retry_run-IsIsolated :
        (clock : Clock) (actor : String) → IsIsolated p s (retry_run clock run_id actor s).0
    unfolding retry_run record_event retry_of
    retry_run-IsIsolated clock actor =
        rw (e, retry_run)
          (runs-IsIsolated (retry_of (clock 0) (clock 1) found ∷ s.runs) _ (
            foreign-cons (allowed_project_ids s p) (λ x. x.project_id)
              (retry_of (clock 0) (clock 1) found) s.runs h))

  pub submit_pipeline-IsIsolated :
      (clock : Clock) (req : SubmitPipelineRequest) (actor : List String)
      → permits (allowed_project_ids s p) req.project_id ≡ true
      → IsIsolated p s (submit_pipeline clock req actor s).0
  unfolding submit_pipeline record_event submitted
  submit_pipeline-IsIsolated clock req actor h =
      elim (Bool-cases (has_project s.projects req.project_id)) [
        | inr bad ↦ rw (bad, submit_pipeline) (IsIsolated-refl p s)
        | inl good ↦ elim (Option-cases (plan_of req s)) [
          | inl e ↦ rw (good, e, submit_pipeline) (IsIsolated-refl p s)
          | inr (plan, e) ↦
              rw (good, e, submit_pipeline)
                (runs-IsIsolated (submitted clock req plan ∷ s.runs) _ (
                  foreign-cons (allowed_project_ids s p) (λ x. x.project_id)
                    (submitted clock req plan) s.runs h))
        ]
      ]
