-- ===== src/Http/Handlers/Isolation/Runs.antt =====
-- The handlers of runs.
use mlops.Base.{◌≡◌, String, true, [], ◌∷◌, some, inl, inr, Bool-cases, Option-cases}
use mlops.Base.First.{find_first}
use mlops.Api.Pipeline.{PipelineRun, SubmitPipelineRequest}
use mlops.Auth.{Principal}
use mlops.Store.{State}
use mlops.Store.Runs.{has_id, run, cancel_run, retry_run, submit_pipeline}
use mlops.Http.Access.{allowed_project_ids, permits, project_allowed, enforce_run_quota}
use mlops.Http.Handlers.{Request, Env, principal, actor}
use mlops.Http.Handlers.Runs.{run_allowed, handle_cancel_run, handle_retry_run, submit_request}
use mlops.Http.Handlers.Isolation.{IsIsolated, IsIsolated-refl}
use mlops.Http.Handlers.Isolation.Stored.{
  cancel_run-IsIsolated, retry_run-IsIsolated, submit_pipeline-IsIsolated,
}
use mlops.Http.Handlers.Isolation.Dispatch.{
  answer-IsIsolated, answer_dispatched-IsIsolated, retry_run-head, submit_pipeline-head,
}

module _ (request : Request) where
  abbrev me : Principal
  me = principal request

  run_allowed-found :
      (s : State) (run_id : String)
      → run_allowed s request run_id ≡ true
      → (found : PipelineRun) × (find_first (has_id run_id) s.runs ≡ some found)
        × (permits (allowed_project_ids s me) found.project_id ≡ true)
  unfolding run_allowed run project_allowed
  run_allowed-found s run_id h = elim (Option-cases (find_first (has_id run_id) s.runs)) [
    | inl e ↦ let h' = rw (e, run, run_allowed) at h in cc
    | inr (found, e) ↦ (found, e, rw (e, run, run_allowed) at h)
  ]

  pub handle_cancel_run-IsIsolated :
      (env : Env) (run_id : String) (s : State)
      → IsIsolated me s (handle_cancel_run env request run_id s).0
  unfolding handle_cancel_run
  handle_cancel_run-IsIsolated env run_id s = elim (Bool-cases (run_allowed s request run_id)) [
    | inr shut ↦ rw shut (IsIsolated-refl me s)
    | inl fine ↦
        let (found, e, h) = run_allowed-found s run_id fine in
        rw fine (
          answer-IsIsolated me s env 200 (cancel_run env.clock run_id (actor request) s)
            (cancel_run-IsIsolated me s run_id e h env.clock (actor request)))
  ]

  pub handle_retry_run-IsIsolated :
      (env : Env) (run_id : String) (s : State)
      → IsIsolated me s (handle_retry_run env request run_id s).0
  unfolding handle_retry_run
  handle_retry_run-IsIsolated env run_id s = elim (Bool-cases (run_allowed s request run_id)) [
    | inr shut ↦ rw shut (IsIsolated-refl me s)
    | inl fine ↦ elim (Option-cases (enforce_run_quota s me)) [
      | inr (_, full) ↦ rw (fine, full, handle_retry_run) (IsIsolated-refl me s)
      | inl room ↦
          let (found, e, h) = run_allowed-found s run_id fine in
          let r = retry_run env.clock run_id (actor request) s in
          rw (fine, room, handle_retry_run)
            (answer_dispatched-IsIsolated me env s r.0 r.1 _
              (retry_run-IsIsolated me s run_id e h env.clock (actor request))
              (λ item made. retry_run-head me env env.clock run_id (actor request) s e h made))
    ]
  ]

  pub submit_request-IsIsolated :
      (env : Env) (req : SubmitPipelineRequest) (s : State)
      → IsIsolated me s (submit_request env request req s).0
  unfolding submit_request project_allowed
  submit_request-IsIsolated env req s =
      elim (Bool-cases (permits (allowed_project_ids s me) req.project_id)) [
        | inr shut ↦ rw shut (IsIsolated-refl me s)
        | inl fine ↦ elim (Option-cases (enforce_run_quota s me)) [
          | inr (_, full) ↦ rw (fine, full, submit_request) (IsIsolated-refl me s)
          | inl room ↦
              let r = submit_pipeline env.clock req (actor request ∷ []) s in
              rw (fine, room, submit_request)
                (answer_dispatched-IsIsolated me env s r.0 r.1 _
                  (submit_pipeline-IsIsolated me s env.clock req (actor request ∷ []) fine)
                  (λ item made.
                    submit_pipeline-head me env env.clock req (actor request ∷ []) s fine made))
        ]
      ]
