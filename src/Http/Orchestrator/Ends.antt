-- ===== src/Http/Orchestrator/Ends.antt =====
-- How `executeFunctionPipeline` ends, on the jobs of a definition that can be run.
use mlops.Base.{
  ℕ, zero, suc, ◌<◌, ◌≡◌, refl, sym, ap, ◌∙◌, String, true, false, List, [], ◌∷◌, ◌==◌, ◌||◌, not,
  ◌⊎◌, inl, inr, Bool-cases, eq_iff, filter, is_nil, length, arith, all, All, Exists, Exists-filter,
}
use mathlib.Core.Path.{subst}
use mlops.Base.Text.{contains}
use mlops.Base.Member.{IsSubset, contains-cons_self}
use mlops.Api.Value.{Any}
use mlops.Api.Pipeline.{PipelineJob, PipelineRun, UpsertPipelineDefinitionRequest}
use mlops.Store.Definitions.Valid.{IsRunnable}
use mlops.Store.Definitions.{names_of, parents_in}
use mlops.Store.Definitions.Schedule.{IsSchedule}
use mlops.Http.Orchestrator.{
  Runtime, Progress, is_ready, ready_of, Ending, finished, halted, round, execute, first_progress,
  execute_function_pipeline,
}
use mlops.Http.Orchestrator.Rounds.{
  run_jobs-remaining, run_jobs-completed, open_jobs, open_jobs-step, length-drop_ready,
  is_nil-of_any, all_or_ready,
}
use mlops.Http.Orchestrator.Attempts.{
  Fits, ready-Fits, HasFailed, SomeAnswers, is_fine, run_jobs-HasFailed, run_jobs-fine,
}

open_jobs-nil :
    (jobs : List PipelineJob) (completed : List String)
    → IsSubset (names_of jobs) completed
    → is_nil (open_jobs jobs completed) ≡ true
unfolding contains
open_jobs-nil [] completed sub = refl
open_jobs-nil (job ∷ jobs) completed sub =
    let here = sub job.name (contains-cons_self job.name (names_of jobs)) in
    ground (arith, open_jobs-nil jobs completed (λ s k. sub s (ground arith)))

completed-of_nil :
    (jobs : List PipelineJob) (completed : List String)
    → is_nil (open_jobs jobs completed) ≡ true
    → IsSubset (names_of jobs) completed
unfolding contains
completed-of_nil [] completed h s k = cc
completed-of_nil (job ∷ jobs) completed h s k = elim (Bool-cases (contains completed job.name)) [
  | inl c ↦ elim (Bool-cases (job.name == s)) [
    | inl q ↦ rw (← (eq_iff job.name s).0 q) c
    | inr q ↦ completed-of_nil jobs completed (ground arith) s (ground arith)
  ]
  | inr c ↦ ground arith
]

open_jobs-none : (jobs : List PipelineJob) → open_jobs jobs [] ≡ jobs
unfolding contains
open_jobs-none [] = refl
open_jobs-none (job ∷ jobs) = ap (λ js. job ∷ js) (open_jobs-none jobs)

module _ (runtime : Runtime) (run : PipelineRun) where
  round-HasFailed :
      (jobs : List PipelineJob) (p : Progress)
      → p.remaining ≡ open_jobs jobs p.completed
      → (round runtime run p).failed ≡ true
      → Exists (HasFailed runtime run (round runtime run p)) jobs
  unfolding round
  round-HasFailed jobs p left h =
      let fits : All (Fits p.completed) (ready_of p) = rw left (ready-Fits jobs p.completed) in
      let bad =
        run_jobs-HasFailed runtime run (ready_of p) p.completed
          (record p {
            remaining = filter (λ job. not (contains (names_of (ready_of p)) job.name)) p.remaining;
            failed = false;
          })
          fits (λ s k. k) refl h in
      let P = HasFailed runtime run (round runtime run p) in
      Exists-filter P (λ job. not (contains p.completed job.name)) jobs
        (Exists-filter P (is_ready p.completed) (open_jobs jobs p.completed)
          (subst (λ xs. Exists P (filter (is_ready p.completed) xs)) left bad))

  round-fine :
      (p : Progress)
      → (round runtime run p).failed ≡ false
      → all is_fine p.reports ≡ true
      → all is_fine (round runtime run p).reports ≡ true
  unfolding round
  round-fine p h fine =
      run_jobs-fine runtime run (ready_of p)
        (record p {
          remaining = filter (λ job. not (contains (names_of (ready_of p)) job.name)) p.remaining;
          failed = false;
        })
        h fine

  round-remaining :
      (p : Progress)
      → (round runtime run p).remaining
        ≡ filter (λ job. not (contains (names_of (ready_of p)) job.name)) p.remaining
  unfolding round
  round-remaining p = run_jobs-remaining runtime run (ready_of p) (record p {
    remaining = filter (λ job. not (contains (names_of (ready_of p)) job.name)) p.remaining;
    failed = false;
  })

  round-completed :
      (p : Progress) (s : String)
      → (round runtime run p).failed ≡ false
      → contains (round runtime run p).completed s
        ≡ (contains (names_of (ready_of p)) s || contains p.completed s)
  unfolding round
  round-completed p s h =
      run_jobs-completed runtime run (ready_of p)
        (record p {
          remaining = filter (λ job. not (contains (names_of (ready_of p)) job.name)) p.remaining;
          failed = false;
        })
        s h

  -- The pipeline has finished with all the jobs completed and no failure reported, or has halted
  -- with a job of it that has failed.
  abbrev pub EndsWell : List PipelineJob → Ending → Type 0
  EndsWell jobs ending =
      ((p : Progress) × (ending ≡ finished p)
        × IsSubset (names_of jobs) p.completed
        × (all is_fine p.reports ≡ true))
      ⊎ ((p : Progress) × (ending ≡ halted p) × Exists (HasFailed runtime run p) jobs)

  module _ (jobs : List PipelineJob)
      (closed : (n p : String)
        → contains (parents_in jobs n) p ≡ true
        → contains (names_of jobs) p ≡ true)
      (xs : List String) (schedule : IsSchedule (parents_in jobs) xs)
      (covers : IsSubset (names_of jobs) xs) where
    some_ready_lem :
        (completed : List String)
        → is_nil (open_jobs jobs completed) ≡ false
        → is_nil (filter (is_ready completed) (open_jobs jobs completed)) ≡ false
    some_ready_lem completed h = elim (all_or_ready jobs completed closed xs schedule) [
      | inl e ↦ is_nil-of_any (is_ready completed) (open_jobs jobs completed) e
      | inr done ↦ cc (open_jobs-nil jobs completed (λ s k. done s (covers s k) k))
    ]

    execute-EndsWell :
        (fuel : ℕ) (p : Progress)
        → p.remaining ≡ open_jobs jobs p.completed
        → length p.remaining < fuel
        → all is_fine p.reports ≡ true
        → EndsWell jobs (execute runtime run fuel p)
    unfolding execute
    execute-EndsWell zero p left bound fine = absurd (omega arith)
    execute-EndsWell (suc fuel) p left bound fine = elim (Bool-cases (is_nil p.remaining)) [
      | inl e ↦
          inl (p, rw (e, execute) refl, completed-of_nil jobs p.completed (rw (← left) e), fine)
      | inr e ↦
          let r : is_nil (ready_of p) ≡ false =
            rw left (some_ready_lem p.completed (rw (← left) e)) in
          elim (Bool-cases (round runtime run p).failed) [
            | inl f ↦ inr (round runtime run p, simp (e, r, f), round-HasFailed jobs p left f)
            | inr f ↦
                let shorter = length-drop_ready (is_ready p.completed) p.remaining r in
                rw (e, execute, r, f)
                  (execute-EndsWell fuel (round runtime run p)
                    (round-remaining p
                      ∙ ap (filter (λ job. not (contains (names_of (ready_of p)) job.name))) left
                      ∙ (open_jobs-step jobs (names_of (ready_of p)) p.completed
                          (round runtime run p).completed (λ s. round-completed p s f)))
                    (rw (round-remaining p) (omega arith)) (round-fine p f fine))
          ]
    ]

    pub execute_function_pipeline_lem : EndsWell jobs (execute_function_pipeline runtime run jobs)
    unfolding execute_function_pipeline
    execute_function_pipeline_lem =
        execute-EndsWell (suc (length jobs)) (first_progress jobs) (sym (open_jobs-none jobs))
          (omega arith) refl

-- `executeFunctionPipeline` ends, on the jobs of a definition that can be run: with all the jobs
-- completed and no failure reported, or after a round in which a job of the definition has failed,
-- whose dependencies had completed, at each attempt that its retries give it. It is never stuck, and
-- never runs out of the fuel of the model.
pub execute_function_pipeline-EndsWell :
    (runtime : Runtime) (run : PipelineRun) (req : UpsertPipelineDefinitionRequest)
    → IsRunnable req
    → EndsWell runtime run req.jobs (execute_function_pipeline runtime run req.jobs)
execute_function_pipeline-EndsWell runtime run req fit =
    execute_function_pipeline_lem runtime run req.jobs fit.known fit.schedule.0 fit.schedule.1
      fit.schedule.2

not_all-Exists :
    (runtime : Runtime) (run : PipelineRun) (p : Progress) (jobs : List PipelineJob)
    → All (λ job. (outputs : List (String × Any)) → SomeAnswers runtime run job outputs) jobs
    → Exists (HasFailed runtime run p) jobs
    → ⊥
not_all-Exists runtime run p [] works h = h
not_all-Exists runtime run p (job ∷ jobs) works (inr h) =
    not_all-Exists runtime run p jobs works.1 h
not_all-Exists runtime run p (job ∷ jobs) works (inl (ready, fails)) =
    let (k, raw, bound, answer) = works.0 p.outputs in let (e, failure) = fails k bound in cc

-- `executeFunctionPipeline` completes all the jobs of a definition that can be run, and reports no
-- failure, if one of the attempts that its retries give each job of the definition is answered,
-- whatever the outputs of the jobs before it.
pub execute_function_pipeline-completes :
    (runtime : Runtime) (run : PipelineRun) (req : UpsertPipelineDefinitionRequest)
    → IsRunnable req
    → All (λ job. (outputs : List (String × Any)) → SomeAnswers runtime run job outputs) req.jobs
    → (p : Progress) × (execute_function_pipeline runtime run req.jobs ≡ finished p)
      × IsSubset (names_of req.jobs) p.completed
      × (all is_fine p.reports ≡ true)
execute_function_pipeline-completes runtime run req fit works =
    elim (execute_function_pipeline-EndsWell runtime run req fit) [
      | inl done ↦ done
      | inr (p, h, failed) ↦ absurd (not_all-Exists runtime run p req.jobs works failed)
    ]
