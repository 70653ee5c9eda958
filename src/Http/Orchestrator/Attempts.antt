-- ===== src/Http/Orchestrator/Attempts.antt =====
-- The attempts at the jobs of a round, and what a round leaves of outputs and reports.
use mlops.Base.{
  ℕ, zero, suc, ◌+◌, ◌<◌, ◌≡◌, refl, ◌∙◌, String, Bool, true, false, List, [], ◌∷◌, ◌++◌ as append,
  ◌==◌, not, inl, inr, Bool-cases, eq_iff, all, filter, map, arith, All, Exists,
}
use mlops.Base.Int.{ℤ, pos, negsuc, ◌≤ℤ◌}
use mlops.Base.Member.{IsSubset, contains-cons_self}
use mlops.Base.Text.{contains}
use mlops.Api.Value.{Any}
use mlops.Api.Pipeline.{PipelineJob, PipelineRun, UpdateRunStepRequest}
use mlops.Http.Orchestrator.{
  Runtime, Invoked, failing, answered, Progress, output_of, attempts, rounds_of, payload_of,
  run_attempts, reported, run_job, run_jobs, is_ready,
}
use mlops.Http.Orchestrator.Rounds.{Invoked-cases, run_jobs-failed, all-of_contains, open_jobs}

-- Where the attempts fail, each one has failed.
attempts-failing :
    (call : ℕ → Invoked) (left attempt : ℕ) (last : Invoked) {e : String}
    → attempts call left attempt last ≡ failing e
    → (k n : ℕ) → n ≡ attempt + k
    → k < left
    → (e' : String) × (call n ≡ failing e')
unfolding attempts
attempts-failing call zero attempt last h k n at_k bound = absurd (omega arith)
attempts-failing call (suc left) attempt last h zero n at_k bound =
    elim (Invoked-cases (call attempt)) [
      | inr (raw, a) ↦ cc (rw (a, attempts) at h)
      | inl (e', a) ↦ let same : n ≡ attempt = omega arith in (e', rw same a)
    ]
attempts-failing call (suc left) attempt last {e} h (suc k) n at_k bound =
    elim (Invoked-cases (call attempt)) [
      | inr (raw, a) ↦ cc (rw (a, attempts) at h)
      | inl (e', a) ↦
          attempts-failing call left (attempt + 1) (failing e') {e = e} (rw (a, attempts) at h) k n
            (omega arith) (omega arith)
    ]

-- All attempts at the job, with its retries, fail on these outputs of the jobs before it.
abbrev pub AllFail : Runtime → PipelineRun → PipelineJob → List (String × Any) → Type 0
AllFail runtime run job outputs =
    (k : ℕ)
    → pos k ≤ℤ job.retries
    → (e : String) × (runtime.invoke job.function (payload_of runtime run job outputs) k
        ≡ failing e)

-- One of the attempts at the job, with its retries, is answered.
abbrev pub SomeAnswers : Runtime → PipelineRun → PipelineJob → List (String × Any) → Type 0
SomeAnswers runtime run job outputs =
    (k : ℕ) × (raw : String) × (pos k ≤ℤ job.retries)
    × (runtime.invoke job.function (payload_of runtime run job outputs) k ≡ answered raw)

run_attempts-AllFail :
    (runtime : Runtime) (run : PipelineRun) (job : PipelineJob) (outputs : List (String × Any))
    {e : String}
    → run_attempts runtime run job outputs ≡ failing e
    → AllFail runtime run job outputs
unfolding run_attempts
run_attempts-AllFail runtime run job outputs {e} h =
    by_retries (runtime.invoke job.function (payload_of runtime run job outputs)) job.retries h
  where
    by_retries :
        (call : ℕ → Invoked) (retries : ℤ)
        → attempts call (rounds_of retries) 0 (answered "") ≡ failing e
        → (k : ℕ) → pos k ≤ℤ retries
        → (e' : String) × (call k ≡ failing e')
    by_retries call (pos n) h k bound =
        attempts-failing call (suc n) 0 (answered "") h k k (omega arith) (omega arith)
    by_retries call (negsuc n) h k bound = absurd (omega arith)

contains-of_all :
    (q : String → Bool) (xs : List String) (s : String)
    → all q xs ≡ true
    → contains xs s ≡ true
    → q s ≡ true
unfolding contains
contains-of_all q [] s h k = cc
contains-of_all q (x ∷ xs) s h k = elim (Bool-cases (x == s)) [
  | inl e ↦ rw (← (eq_iff x s).0 e) (ground arith)
  | inr e ↦ contains-of_all q xs s (ground arith) (ground arith)
]

is_ready-subset :
    (job : PipelineJob) (c c' : List String)
    → IsSubset c c'
    → is_ready c job ≡ true
    → is_ready c' job ≡ true
unfolding is_ready
is_ready-subset job c c' sub h =
    all-of_contains (contains c') job.depends_on
      (λ d k. sub d (contains-of_all (contains c) job.depends_on d h k))

-- The job has not been completed, and all that it depends on has.
abbrev pub Fits : List String → PipelineJob → Type 0
Fits completed job = (contains completed job.name ≡ false) × (is_ready completed job ≡ true)

pub ready-Fits :
    (jobs : List PipelineJob) (completed : List String)
    → All (Fits completed) (filter (is_ready completed) (open_jobs jobs completed))
ready-Fits [] completed = tt
ready-Fits (job ∷ jobs) completed = elim (Bool-cases (contains completed job.name)) [
  | inl e ↦ rw e (ready-Fits jobs completed)
  | inr e ↦ elim (Bool-cases (is_ready completed job)) [
    | inl r ↦ rw (e, r) ((e, r), ready-Fits jobs completed)
    | inr r ↦ rw (e, r) (ready-Fits jobs completed)
  ]
]

-- A report that is no failure.
abbrev pub is_fine : UpdateRunStepRequest → Bool
is_fine report = not (report.status == "failed")

all_fine-append :
    (xs : List UpdateRunStepRequest) (report : UpdateRunStepRequest)
    → all is_fine xs ≡ true
    → is_fine report ≡ true
    → all is_fine (append xs (report ∷ [])) ≡ true
all_fine-append [] report h k = rw k refl
all_fine-append (x ∷ xs) report h k = ground (arith, all_fine-append xs report)

module _ (runtime : Runtime) (run : PipelineRun) where
  run_job-kept :
      (job : PipelineJob) (p : Progress)
      → ((s : String)
          → (job.name == s) ≡ false
          → output_of (run_job runtime run job p).outputs s ≡ output_of p.outputs s)
        × IsSubset p.completed (run_job runtime run job p).completed
        × ((run_job runtime run job p).failed ≡ false
            → all is_fine p.reports ≡ true
            → all is_fine (run_job runtime run job p).reports ≡ true)
        × (p.failed ≡ true → (run_job runtime run job p).failed ≡ true)
  unfolding run_job reported output_of contains
  run_job-kept job p = elim (Invoked-cases (run_attempts runtime run job p.outputs)) [
    | inl (e, i) ↦ rw (i, run_job) (λ s apart. refl, λ s h. h, λ fine. cc fine, λ h. refl)
    | inr (raw, i) ↦
        rw (i, run_job)
          (λ s apart. rw apart refl, λ s h. ground arith, λ fine h. search all_fine-append, λ h. h)
  ]

  -- A round leaves the outputs of the jobs that were completed before it.
  run_jobs-output :
      (jobs : List PipelineJob) (c : List String) (p : Progress) (s : String)
      → All (Fits c) jobs
      → contains c s ≡ true
      → output_of (run_jobs runtime run jobs p).outputs s ≡ output_of p.outputs s
  unfolding run_jobs
  run_jobs-output [] c p s h k = refl
  run_jobs-output (job ∷ jobs) c p s h k =
      run_jobs-output jobs c (run_job runtime run job p) s h.1 k
      ∙ (run_job-kept job p).0 s (ground (arith, eq_iff job.name s, h.0.0))

  run_jobs-subset :
      (jobs : List PipelineJob) (p : Progress)
      → IsSubset p.completed (run_jobs runtime run jobs p).completed
  unfolding run_jobs
  run_jobs-subset [] p s h = h
  run_jobs-subset (job ∷ jobs) p s h =
      run_jobs-subset jobs (run_job runtime run job p) s ((run_job-kept job p).1 s h)

  -- A round without a failure reports none.
  pub run_jobs-fine :
      (jobs : List PipelineJob) (p : Progress)
      → (run_jobs runtime run jobs p).failed ≡ false
      → all is_fine p.reports ≡ true
      → all is_fine (run_jobs runtime run jobs p).reports ≡ true
  unfolding run_jobs
  run_jobs-fine [] p fine h = h
  run_jobs-fine (job ∷ jobs) p fine h = elim (Bool-cases (run_job runtime run job p).failed) [
    | inl e ↦ cc (run_jobs-failed runtime run jobs (run_job runtime run job p) e)
    | inr e ↦ run_jobs-fine jobs (run_job runtime run job p) fine ((run_job-kept job p).2 e h)
  ]

  dependencies_lem :
      (names : List String) (o o' : List (String × Any))
      → ((s : String) → contains names s ≡ true → output_of o s ≡ output_of o' s)
      → Path
          (List (String × Any))
          (map {B = String × Any} (λ name. (name, output_of o name)) names)
          (map {B = String × Any} (λ name. (name, output_of o' name)) names)
  unfolding contains
  dependencies_lem [] o o' h = refl
  dependencies_lem (name ∷ names) o o' h =
      rw
        (
          h name (contains-cons_self name names),
          dependencies_lem names o o' (λ s k. h s (ground arith)),
        )
        refl

  payload_of-eq :
      (job : PipelineJob) (o o' : List (String × Any))
      → ((s : String) → contains job.depends_on s ≡ true → output_of o s ≡ output_of o' s)
      → payload_of runtime run job o ≡ payload_of runtime run job o'
  unfolding payload_of
  payload_of-eq job o o' h = rw (dependencies_lem job.depends_on o o' h) refl

  -- The job has all that it depends on, and all attempts at it have failed.
  abbrev pub HasFailed : Progress → PipelineJob → Type 0
  HasFailed p job = (is_ready p.completed job ≡ true) × AllFail runtime run job p.outputs

  -- A round fails only where some job of it has failed.
  pub run_jobs-HasFailed :
      (jobs : List PipelineJob) (c : List String) (p : Progress)
      → All (Fits c) jobs
      → IsSubset c p.completed
      → p.failed ≡ false
      → (run_jobs runtime run jobs p).failed ≡ true
      → Exists (HasFailed (run_jobs runtime run jobs p)) jobs
  unfolding run_jobs run_job reported is_ready
  run_jobs-HasFailed [] c p fits sub fine h = cc
  run_jobs-HasFailed (job ∷ jobs) c p fits sub fine h =
      elim (Invoked-cases (run_attempts runtime run job p.outputs)) [
        | inl (e, i) ↦
            let done = run_jobs runtime run (job ∷ jobs) p in
            let same = payload_of-eq job done.outputs p.outputs λ s k.
              run_jobs-output (job ∷ jobs) c p s fits
                (contains-of_all (contains c) job.depends_on s fits.0.1 k) in
            inl (
              is_ready-subset job c done.completed
                  (λ s k. run_jobs-subset (job ∷ jobs) p s (sub s k)) fits.0.1,
              λ k bound. rw same (run_attempts-AllFail runtime run job p.outputs i k bound),
            )
        | inr (raw, i) ↦ inr (
            run_jobs-HasFailed jobs c (run_job runtime run job p) fits.1
              (λ s k. (run_job-kept job p).1 s (sub s k)) (rw (i, run_job) fine) h)
      ]
