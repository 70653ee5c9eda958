-- ===== src/Http/Handlers/Isolation/Dispatch.antt =====
-- The answers of handlers, and the dispatch of a run in a project that the caller may access.
use mlops.Base.{
  ◌≡◌, refl, sym, String, true, List, [], ◌∷◌, ◌==◌, some, inl, inr, Bool-cases, Option-cases,
  Sum-cases, ℕ, eq_refl,
}
use mlops.Base.First.{find_first}
use mlops.Api.Pipeline.{PipelineRun, PipelineJob, SubmitPipelineRequest}
use mlops.Auth.{Principal}
use mlops.Store.{State, Clock, Error, Outcome, refused, returned, record_event, has_project}
use mlops.Store.Runs.{
  has_id, set_run_engine, retry_run, retry_of, submit_pipeline, submitted, plan_of,
  pipeline_definition_from,
}
use mlops.Http.Access.{allowed_project_ids, permits}
use mlops.Http.Handlers.{Env, Body, unreadable, read, Reply, decode, commit, answer, answer_deleted}
use mlops.Http.Handlers.Runs.{
  report_failure, report_first_job, dispatch_functions, dispatch_prefect, dispatch_pipeline,
  answer_dispatched, flow_of,
}
use mlops.Http.Handlers.Isolation.{IsIsolated, IsIsolated-refl, IsIsolated-trans}
use mlops.Http.Handlers.Isolation.Stored.{update_run_step-IsIsolated, set_run_engine-IsIsolated}
use mathlib.Core.Path.{subst}

pub commit-state {ℓ} :
    {A : Type ℓ} (env : Env) (s : State) (o : Outcome A) → (commit env (s, o)).0 ≡ s
unfolding commit
commit-state env s (refused e) = refl
commit-state env s (returned value) = elim (Option-cases (env.persist s)) [
  | inl e ↦ rw (e, commit) refl
  | inr (_, e) ↦ rw (e, commit) refl
]

module _ (p : Principal) (s : State) (env : Env) where
  pub answer-IsIsolated {ℓ} :
      {A : Type ℓ} (success : ℕ) (r : State × Outcome A)
      → IsIsolated p s r.0
      → IsIsolated p s (answer env success r).0
  unfolding answer
  answer-IsIsolated success (s', o) h = rw (commit-state env s' o) h

  pub decode-IsIsolated {ℓ κ} :
      {R : Type ℓ} {A : Type κ} (body : Body R) (next : R → State × Reply A)
      → ((req : R) → IsIsolated p s (next req).0)
      → IsIsolated p s (decode body s next).0
  unfolding decode
  decode-IsIsolated (unreadable _) next h = IsIsolated-refl p s
  decode-IsIsolated (read req) next h = h req

  pub answer_deleted-IsIsolated {ℓ} :
      {A : Type ℓ} (r : State × Outcome A)
      → IsIsolated p s r.0
      → IsIsolated p s (answer_deleted env r).0
  unfolding answer_deleted
  answer_deleted-IsIsolated (s', o) h = rw (commit-state env s' o) h

module _ (p : Principal) (env : Env) (item : PipelineRun) (s : State) {found : PipelineRun}
    (e : find_first (has_id item.id) s.runs ≡ some found)
    (h : permits (allowed_project_ids s p) found.project_id ≡ true) where
  report_failure-IsIsolated :
      (step said : String) → IsIsolated p s (report_failure env item.id step said s).0
  unfolding report_failure
  report_failure-IsIsolated step said =
      update_run_step-IsIsolated p s item.id e h env.later
        (record { step = step; status = "failed"; message = said })

  report_first_job-IsIsolated :
      (jobs : List PipelineJob) → IsIsolated p s (report_first_job env item.id jobs s).0
  unfolding report_first_job
  report_first_job-IsIsolated [] = IsIsolated-refl p s
  report_first_job-IsIsolated (job ∷ _) =
      report_failure-IsIsolated job.name "OPENFAAS_URL is not configured"

  dispatch_functions-IsIsolated : IsIsolated p s (dispatch_functions env item s).0
  unfolding dispatch_functions
  dispatch_functions-IsIsolated =
      elim (Option-cases (pipeline_definition_from s.definitions item.definition_id)) [
        | inl d ↦ rw (d, dispatch_functions) (report_failure-IsIsolated _ _)
        | inr (definition, d) ↦ elim (Option-cases env.openfaas) [
          | inr (_, o) ↦ rw (d, o, dispatch_functions) (IsIsolated-refl p s)
          | inl o ↦ rw (d, o, dispatch_functions) (report_first_job-IsIsolated definition.jobs)
        ]
      ]

  dispatch_prefect-IsIsolated : IsIsolated p s (dispatch_prefect env item s).0
  unfolding dispatch_prefect
  dispatch_prefect-IsIsolated = elim (Option-cases env.prefect) [
    | inl o ↦ rw (o, dispatch_prefect) (IsIsolated-refl p s)
    | inr (create, o) ↦ elim (Sum-cases (create (flow_of s item))) [
      | inl (said, f) ↦ rw (o, f, dispatch_prefect) (report_failure-IsIsolated _ _)
      | inr (engine, f) ↦
          rw (o, f, dispatch_prefect)
            (let r = set_run_engine env.later item.id engine s in
              subst (IsIsolated p s) (sym (commit-state env r.0 r.1))
                (set_run_engine-IsIsolated p s item.id e h env.later engine))
    ]
  ]

  dispatch_pipeline-IsIsolated : IsIsolated p s (dispatch_pipeline env item s).0
  unfolding dispatch_pipeline
  dispatch_pipeline-IsIsolated = elim (Bool-cases (item.execution_mode == "functions")) [
    | inl m ↦ rw m dispatch_functions-IsIsolated
    | inr m ↦ rw m dispatch_prefect-IsIsolated
  ]

module _ (p : Principal) (env : Env) where
  -- A run that has been made in a project that the caller may access, and is found under its id, is
  -- dispatched in isolation.
  pub answer_dispatched-IsIsolated :
      (s s' : State) (o : Outcome PipelineRun) (failure : Error → Reply PipelineRun)
      → IsIsolated p s s'
      → ((item : PipelineRun)
          → o ≡ returned item
          → (find_first (has_id item.id) s'.runs ≡ some item)
            × (permits (allowed_project_ids s' p) item.project_id ≡ true))
      → IsIsolated p s (answer_dispatched env (commit env (s', o)) failure).0
  unfolding answer_dispatched commit
  answer_dispatched-IsIsolated s s' (refused e) failure h made = h
  answer_dispatched-IsIsolated s s' (returned item) failure h made =
      elim (Option-cases (env.persist s')) [
        | inr (_, e) ↦ rw (e, commit) h
        | inl e ↦
            rw (e, commit)
              (let (here, allowed) = made item refl in
                IsIsolated-trans p s s' (dispatch_pipeline env item s').0 h
                  (dispatch_pipeline-IsIsolated p env item s' here allowed))
      ]

  head_found :
      (s : State) (next item : PipelineRun)
      → next ≡ item
      → permits (allowed_project_ids s p) next.project_id ≡ true
      → (find_first (has_id item.id) (next ∷ s.runs) ≡ some item)
        × (permits (allowed_project_ids s p) item.project_id ≡ true)
  head_found s next item same h =
      subst
        (λ v.
          (find_first (has_id v.id) (next ∷ s.runs) ≡ some v)
          × (permits (allowed_project_ids s p) v.project_id ≡ true))
        same (rw (eq_refl next.id) (refl, h))

  -- What the methods that make a run return is the run at the head.
  pub retry_run-head :
      (clock : Clock) (run_id actor : String) (s : State) {found item : PipelineRun}
      → find_first (has_id run_id) s.runs ≡ some found
      → permits (allowed_project_ids s p) found.project_id ≡ true
      → (retry_run clock run_id actor s).1 ≡ returned item
      → (find_first (has_id item.id) (retry_run clock run_id actor s).0.runs ≡ some item)
        × (permits (allowed_project_ids (retry_run clock run_id actor s).0 p) item.project_id
            ≡ true)
  unfolding retry_run record_event retry_of allowed_project_ids
  retry_run-head clock run_id actor s {found} {item} e h made =
      let next = retry_of (clock 0) (clock 1) found in
      let same : next ≡ item = (let made' = rw (e, retry_run) at made in cc) in
      rw (e, retry_run) (head_found s next item same h)

  pub submit_pipeline-head :
      (clock : Clock) (req : SubmitPipelineRequest) (actor : List String) (s : State)
      {item : PipelineRun}
      → permits (allowed_project_ids s p) req.project_id ≡ true
      → (submit_pipeline clock req actor s).1 ≡ returned item
      → (find_first (has_id item.id) (submit_pipeline clock req actor s).0.runs ≡ some item)
        × (permits (allowed_project_ids (submit_pipeline clock req actor s).0 p) item.project_id
            ≡ true)
  unfolding submit_pipeline record_event submitted allowed_project_ids
  submit_pipeline-head clock req actor s {item} h made =
      elim (Bool-cases (has_project s.projects req.project_id)) [
        | inr bad ↦ let made' = rw (bad, submit_pipeline) at made in cc
        | inl good ↦ elim (Option-cases (plan_of req s)) [
          | inl e ↦ let made' = rw (good, e, submit_pipeline) at made in cc
          | inr (plan, e) ↦
              let next = submitted clock req plan in
              let same : next ≡ item = (let made' = rw (good, e, submit_pipeline) at made in cc) in
              rw (good, e, submit_pipeline) (head_found s next item same h)
        ]
      ]
