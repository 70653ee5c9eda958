-- ===== src/Http/Orchestrator/Rounds.antt =====
-- A round of `executeFunctionPipeline`: what it completes, and that some job is ready as long as one
-- remains.
use mlops.Base.{
  ◌≤◌, ◌<◌, ◌≡◌, refl, ◌∙◌, String, Bool, true, false, List, [], ◌∷◌, some, ◌==◌, ◌||◌, not, ◌⊎◌,
  inl, inr, Bool-cases, Option-cases, eq_iff, all, any, filter, is_nil, length, arith,
}
use mlops.Base.Text.{contains}
use mlops.Base.Member.{contains-cons_self}
use mlops.Api.Pipeline.{PipelineJob, PipelineRun}
use mlops.Store.Definitions.{names_of, by_name, parents_in}
use mlops.Store.Definitions.Schedule.{IsSchedule}
use mlops.Http.Orchestrator.{
  Runtime, Invoked, failing, answered, Progress, run_attempts, run_job, run_jobs, is_ready,
}

List-cases :
    (xs : List PipelineJob)
    → (xs ≡ []) ⊎ ((y : PipelineJob) × (ys : List PipelineJob) × (xs ≡ y ∷ ys))
List-cases [] = inl refl
List-cases (y ∷ ys) = inr (y, ys, refl)

pub Invoked-cases :
    (i : Invoked) → ((e : String) × (i ≡ failing e)) ⊎ ((raw : String) × (i ≡ answered raw))
Invoked-cases (failing e) = inl (e, refl)
Invoked-cases (answered raw) = inr (raw, refl)

module _ (runtime : Runtime) (run : PipelineRun) where
  -- Either the job fails, or it is completed.
  run_job-cases :
      (job : PipelineJob) (p : Progress)
      → ((run_job runtime run job p).remaining ≡ p.remaining)
        × (((e : String) × (run_attempts runtime run job p.outputs ≡ failing e)
              × ((run_job runtime run job p).failed ≡ true))
            ⊎ (((run_job runtime run job p).failed ≡ p.failed)
                × ((run_job runtime run job p).completed ≡ job.name ∷ p.completed)))
  unfolding run_job
  run_job-cases job p = elim (Invoked-cases (run_attempts runtime run job p.outputs)) [
    | inl (e, i) ↦ (rw (i, run_job) refl, inl (e, i, rw (i, run_job) refl))
    | inr (raw, i) ↦ (rw (i, run_job) refl, inr (rw (i, run_job) refl, rw (i, run_job) refl))
  ]

  pub run_jobs-failed :
      (jobs : List PipelineJob) (p : Progress)
      → p.failed ≡ true
      → (run_jobs runtime run jobs p).failed ≡ true
  unfolding run_jobs
  run_jobs-failed [] p h = h
  run_jobs-failed (job ∷ jobs) p h = elim (run_job-cases job p).1 [
    | inl (e, i, f) ↦ run_jobs-failed jobs (run_job runtime run job p) f
    | inr (f, c) ↦ run_jobs-failed jobs (run_job runtime run job p) (f ∙ h)
  ]

  pub run_jobs-remaining :
      (jobs : List PipelineJob) (p : Progress)
      → (run_jobs runtime run jobs p).remaining ≡ p.remaining
  unfolding run_jobs
  run_jobs-remaining [] p = refl
  run_jobs-remaining (job ∷ jobs) p =
      run_jobs-remaining jobs (run_job runtime run job p) ∙ (run_job-cases job p).0

  -- Jobs that run without a failure are completed, and nothing else is.
  pub run_jobs-completed :
      (jobs : List PipelineJob) (p : Progress) (s : String)
      → (run_jobs runtime run jobs p).failed ≡ false
      → contains (run_jobs runtime run jobs p).completed s
        ≡ (contains (names_of jobs) s || contains p.completed s)
  unfolding run_jobs contains
  run_jobs-completed [] p s h = refl
  run_jobs-completed (job ∷ jobs) p s h = elim (run_job-cases job p).1 [
    | inl (e, i, f) ↦ cc (run_jobs-failed jobs (run_job runtime run job p) f)
    | inr (f, c) ↦ run_jobs-completed jobs (run_job runtime run job p) s h ∙ rw c (ground arith)
  ]

-- The jobs that have not been completed.
abbrev pub open_jobs : List PipelineJob → List String → List PipelineJob
open_jobs jobs completed = filter (λ job. not (contains completed job.name)) jobs

pub open_jobs-step :
    (jobs : List PipelineJob) (done completed completed' : List String)
    → ((s : String) → contains completed' s ≡ (contains done s || contains completed s))
    → filter (λ job. not (contains done job.name)) (open_jobs jobs completed)
      ≡ open_jobs jobs completed'
open_jobs-step [] done completed completed' h = refl
open_jobs-step (job ∷ jobs) done completed completed' h =
    ground (arith, h job.name, open_jobs-step jobs done completed completed' h)

length-filter-le :
    (p : PipelineJob → Bool) (xs : List PipelineJob) → length (filter p xs) ≤ length xs
length-filter-le p [] = omega arith
length-filter-le p (x ∷ xs) = ground (arith, length-filter-le p xs)

-- Dropping the names of a list that has one of the members drops something.
length-drop-lt :
    (names : List String) (q : PipelineJob → Bool) (xs : List PipelineJob) {y : PipelineJob}
    {ys : List PipelineJob}
    → filter q xs ≡ y ∷ ys
    → contains names y.name ≡ true
    → length (filter (λ job. not (contains names job.name)) xs) < length xs
length-drop-lt names q [] h k = cc
length-drop-lt names q (x ∷ xs) {y} {ys} h k = elim (Bool-cases (q x)) [
  | inl e ↦
      let same : x ≡ y = ground arith in
      let here : contains names x.name ≡ true = rw same k in
      ground (arith, length-filter-le (λ job. not (contains names job.name)) xs)
  | inr e ↦ ground (arith, length-drop-lt names q xs {y = y} {ys = ys} (rw e at h) k)
]

pub length-drop_ready :
    (q : PipelineJob → Bool) (xs : List PipelineJob)
    → is_nil (filter q xs) ≡ false
    → length (filter (λ job. not (contains (names_of (filter q xs)) job.name)) xs) < length xs
length-drop_ready q xs h = elim (List-cases (filter q xs)) [
  | inl e ↦ cc (rw e at h)
  | inr (y, ys, e) ↦
      length-drop-lt (names_of (filter q xs)) q xs e
        (rw e (contains-cons_self y.name (names_of ys)))
]

-- A list of jobs has a job of each of its names.
by_name-of_contains :
    (xs : List PipelineJob) (s : String)
    → contains (names_of xs) s ≡ true
    → (job : PipelineJob) × (by_name xs s ≡ some job)
unfolding by_name contains
by_name-of_contains [] s h = cc
by_name-of_contains (x ∷ xs) s h = elim (Option-cases (by_name xs s)) [
  | inl e ↦ elim (Bool-cases (x.name == s)) [
    | inl q ↦ (x, rw (e, by_name, q) refl)
    | inr q ↦ let later = by_name-of_contains xs s (ground arith) in cc later.1
  ]
  | inr (job, e) ↦ (job, rw (e, by_name) refl)
]

by_name-name :
    (xs : List PipelineJob) (s : String) {job : PipelineJob}
    → by_name xs s ≡ some job
    → job.name ≡ s
unfolding by_name
by_name-name [] s e = cc
by_name-name (x ∷ xs) s {job} e = elim (Option-cases (by_name xs s)) [
  | inl p ↦ elim (Bool-cases (x.name == s)) [
    | inl q ↦ let same : x ≡ job = ground arith in rw (← same) ((eq_iff x.name s).0 q)
    | inr q ↦ ground arith
  ]
  | inr (later, p) ↦
      let same : later ≡ job = ground arith in by_name-name xs s {job = job} (rw same at p)
]

by_name-any :
    (q r : PipelineJob → Bool) (xs : List PipelineJob) (s : String) {job : PipelineJob}
    → by_name xs s ≡ some job
    → q job ≡ true
    → r job ≡ true
    → any r (filter q xs) ≡ true
unfolding by_name
by_name-any q r [] s e h k = cc
by_name-any q r (x ∷ xs) s {job} e h k = elim (Option-cases (by_name xs s)) [
  | inl p ↦
      let same : x ≡ job = ground arith in
      let here : q x ≡ true = rw same h in let there : r x ≡ true = rw same k in ground arith
  | inr (later, p) ↦
      let same : later ≡ job = ground arith in
      ground (arith, by_name-any q r xs s {job = job} (rw same at p) h k)
]

pub all-of_contains :
    (q : String → Bool) (xs : List String)
    → ((s : String) → contains xs s ≡ true → q s ≡ true)
    → all q xs ≡ true
unfolding contains
all-of_contains q [] h = refl
all-of_contains q (x ∷ xs) h =
    let here = h x (contains-cons_self x xs) in
    ground (arith, all-of_contains q xs (λ s k. h s (ground arith)))

pub is_nil-of_any :
    (r : PipelineJob → Bool) (xs : List PipelineJob)
    → any r xs ≡ true
    → is_nil (filter r xs) ≡ false
is_nil-of_any r [] h = cc
is_nil-of_any r (x ∷ xs) h = ground (arith, is_nil-of_any r xs)

module _ (jobs : List PipelineJob) (completed : List String)
    (closed : (n p : String)
      → contains (parents_in jobs n) p ≡ true
      → contains (names_of jobs) p ≡ true) where
  abbrev some_ready : Bool
  some_ready = any (is_ready completed) (open_jobs jobs completed)

  -- A job that is not completed is ready where all that it depends on is completed.
  ready_lem :
      (x : String)
      → contains (names_of jobs) x ≡ true
      → contains completed x ≡ false
      → ((p : String) → contains (parents_in jobs x) p ≡ true → contains completed p ≡ true)
      → some_ready ≡ true
  unfolding parents_in is_ready
  ready_lem x known fresh all_done =
      let (job, e) = by_name-of_contains jobs x known in
      by_name-any (λ j. not (contains completed j.name)) (is_ready completed) jobs x e
        (rw (by_name-name jobs x e) (ground arith))
        (all-of_contains (contains completed) job.depends_on
          (λ p k. all_done p (rw (e, parents_in) k)))

  -- In the order of a schedule, the first job that is not completed is ready.
  pub all_or_ready :
      (xs : List String)
      → IsSchedule (parents_in jobs) xs
      → (some_ready ≡ true)
        ⊎ ((s : String)
            → contains xs s ≡ true
            → contains (names_of jobs) s ≡ true
            → contains completed s ≡ true)
  unfolding contains
  all_or_ready [] o = inr (λ s h k. cc)
  all_or_ready (x ∷ xs) (fresh, before, o) = elim (all_or_ready xs o) [
    | inl e ↦ inl e
    | inr done ↦ elim (Bool-cases (contains completed x)) [
      | inl c ↦ inr (λ s h k. elim (Bool-cases (x == s)) [
        | inl q ↦ rw (← (eq_iff x s).0 q) c
        | inr q ↦ done s (ground arith) k
      ])
      | inr c ↦ elim (Bool-cases (contains (names_of jobs) x)) [
        | inl known ↦ inl (ready_lem x known c (λ p k. done p (before p k) (closed x p k)))
        | inr unknown ↦ inr (λ s h k. elim (Bool-cases (x == s)) [
          | inl q ↦ cc (rw ((eq_iff x s).0 q) at unknown)
          | inr q ↦ done s (ground arith) k
        ])
      ]
    ]
  ]
