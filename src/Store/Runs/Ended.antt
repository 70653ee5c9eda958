-- ===== src/Store/Runs/Ended.antt =====
-- A run that has ended, by success, failure or cancellation, under later calls.
use mlops.Base.{
  ◌≡◌, refl, ap, String, true, false, List, [], ◌∷◌, ◌==◌, eq_iff, All, some, inl, inr, arith, ◌∙◌,
  Bool-cases, ◌||◌,
}
use mlops.Base.First.{find_first, update_first, find_first_after_update}
use mlops.Api.Pipeline.{PipelineRun, UpdateRunStepRequest}
use mlops.Store.{State, id}
use mlops.Api.Value.{Time}
use mlops.Store.Steps.{apply_step_transition, recompute}
use mlops.Store.Runs.{has_id, is_terminal, report, cancel, link, retry_of, submitted}
use mlops.Store.Runs.Calls.{
  Call, update_step, stop, retry, set_engine, submit, perform, perform_all, update_run_step-runs,
  cancel_run-runs, retry_run-runs, set_run_engine-runs, submit_pipeline-runs,
}

-- A call does not give its new run the id of another.
abbrev pub SparesId : String → Call → Type 0
SparesId run_id (retry clock _ _) = (id "run" (clock 1) == run_id) ≡ false
SparesId run_id (submit clock _ _) = (id "run" (clock 1) == run_id) ≡ false
SparesId run_id _ = Unit

-- Two records of a run that ended the same way.
abbrev pub SameEnd : PipelineRun → PipelineRun → Type 0
SameEnd r r' = (r'.status ≡ r.status) × (r'.progress ≡ r.progress) × (r'.steps ≡ r.steps)

abbrev pub KeepsEnd : String → PipelineRun → List PipelineRun → Type 0
KeepsEnd run_id r runs =
    (r' : PipelineRun) × (find_first (has_id run_id) runs ≡ some r') × SameEnd r r'

pub report-id :
    (now : Time) (req : UpdateRunStepRequest) (x : PipelineRun) → (report now req x).id ≡ x.id
unfolding report apply_step_transition recompute
report-id now req x = elim (Bool-cases (is_terminal x.status)) [ inl e ↦ rw e | inr e ↦ rw e ]

module _ (run_id : String) (r : PipelineRun) (over : is_terminal r.status ≡ true) where
  -- An update that keeps ids, and the end of the run that it is applied to, keeps it.
  update-KeepsEnd :
      (j : String) (f : PipelineRun → PipelineRun) (runs : List PipelineRun)
      → ((x : PipelineRun) → (f x).id ≡ x.id)
      → (find_first (has_id j) runs ≡ some r → SameEnd r (f r))
      → find_first (has_id run_id) runs ≡ some r
      → KeepsEnd run_id r (update_first (has_id j) f runs)
  update-KeepsEnd j f runs same keeps found =
      let (r', e, how) =
        find_first_after_update (has_id j) (has_id run_id) f (λ x. ap (λ i. i == run_id) (same x))
          runs found in
      (r', e, elim how [ inl p ↦ rw p (refl, refl, refl) | inr (p, here) ↦ rw p (keeps here) ])

  report-SameEnd : (now : Time) (req : UpdateRunStepRequest) → SameEnd r (report now req r)
  unfolding report
  report-SameEnd now req = rw over (refl, refl, refl)

  cancel-SameEnd :
      (now now' : Time) (actor : String)
      → ((r.status == "succeeded" || r.status == "failed") ≡ false)
      → SameEnd r (cancel now now' actor r)
  unfolding cancel
  cancel-SameEnd now now' actor live = (ground (arith, eq_iff r.status "cancelled"), refl, refl)

  perform-KeepsEnd :
      (c : Call) (s : State)
      → SparesId run_id c
      → find_first (has_id run_id) s.runs ≡ some r
      → KeepsEnd run_id r (perform c s).runs
  unfolding perform
  perform-KeepsEnd (update_step clock j req) s spare found =
      elim (update_run_step-runs clock j req s) [
        | inl e ↦ rw e (r, found, (refl, refl, refl))
        | inr e ↦ rw e (
            update-KeepsEnd j (report (clock 0) req) s.runs (report-id (clock 0) req)
              (λ _. report-SameEnd (clock 0) req) found)
      ]
  perform-KeepsEnd (stop clock j actor) s spare found = elim (cancel_run-runs clock j actor s) [
    | inl e ↦ rw e (r, found, (refl, refl, refl))
    | inr (e, (x, here, live)) ↦ rw e (
        update-KeepsEnd j (cancel (clock 0) (clock 1) actor) s.runs (unfold cancel in λ x. refl)
          (λ k. cancel-SameEnd (clock 0) (clock 1) actor (ground arith)) found)
  ]
  perform-KeepsEnd (retry clock j actor) s spare found = elim (retry_run-runs clock j actor s) [
    | inl e ↦ rw e (r, found, (refl, refl, refl))
    | inr (x, e) ↦ rw e (r, unfold retry_of in rw spare found, (refl, refl, refl))
  ]
  perform-KeepsEnd (set_engine clock j engine) s spare found =
      elim (set_run_engine-runs clock j engine s) [
        | inl e ↦ rw e (r, found, (refl, refl, refl))
        | inr e ↦ rw e (
            update-KeepsEnd j (link (clock 0) engine) s.runs (unfold link in λ x. refl)
              (λ _. unfold link in (refl, refl, refl)) found)
      ]
  perform-KeepsEnd (submit clock req actor) s spare found =
      elim (submit_pipeline-runs clock req actor s) [
        | inl e ↦ rw e (r, found, (refl, refl, refl))
        | inr (plan, e) ↦ rw e (r, unfold submitted in rw spare found, (refl, refl, refl))
      ]

-- A run that has succeeded, failed or been cancelled keeps its status, its progress and its steps
-- under every sequence of calls, as long as no call gives its new run the same id.
pub perform_all-KeepsEnd :
    (run_id : String) (r : PipelineRun) (cs : List Call) (s : State)
    → is_terminal r.status ≡ true
    → All (SparesId run_id) cs
    → find_first (has_id run_id) s.runs ≡ some r
    → KeepsEnd run_id r (perform_all cs s).runs
unfolding perform_all
perform_all-KeepsEnd run_id r [] s over spare found = (r, found, (refl, refl, refl))
perform_all-KeepsEnd run_id r (c ∷ cs) s over spare found =
    let (r', here, (st, pr, sp)) = perform-KeepsEnd run_id r over c s spare.0 found in
    let (r'', there, (st', pr', sp')) =
      perform_all-KeepsEnd run_id r' cs (perform c s) (rw st over) spare.1 here in
    (r'', there, (st' ∙ st, pr' ∙ pr, sp' ∙ sp))
