-- ===== src/Store/Definitions/Jobs.antt =====
-- The jobs of a pipeline definition that the two loops of `validatePipelineDefinition` let through.

use mlops.Base.{
  ◌≡◌, ◌⊎◌, refl, String, Bool, true, false, List, [], ◌∷◌, none, some, ◌==◌, ◌||◌, not, any,
  is_nil, map, inl, inr, Bool-cases, Option-cases, eq_iff, All, arith,
}
use mlops.Base.Int.{pos, ◌≤ℤ◌}
use mlops.Base.Text.{is_empty, trim_space, contains}
use mlops.Base.Member.{IsDistinct, contains-cons_self}
use mlops.Api.Pipeline.{PipelineJob}
use mlops.Store.{Outcome-cases, returned}
use mlops.Store.Definitions.{
  trim_job, job_error, check_jobs, names_of, bad_dependency, by_name, parents_in,
}

-- A job that the execution mode can run.
pub record IsJob (mode : String) (job : PipelineJob) : Type 0 where
  pub named : is_empty job.name ≡ false
  pub target :
      ((job.kind ≡ "function") × (is_empty (trim_space job.function) ≡ false))
      ⊎ ((job.kind ≡ "container") × (is_empty (trim_space job.image) ≡ false))
  pub fits : mode ≡ "functions" → job.kind ≡ "function"
  pub retries : pos 0 ≤ℤ job.retries
  pub gpu : pos 0 ≤ℤ job.resources.gpu

job_error-IsJob :
    (mode : String) (known : List String) (job : PipelineJob)
    → job_error mode known job ≡ none
    → IsJob mode job × (contains known job.name ≡ false)
unfolding job_error
job_error-IsJob mode known job h = (
  record {
    named = ground arith;
    target = elim (Bool-cases (job.kind == "function")) [
      | inl e ↦ inl ((eq_iff job.kind "function").0 e, ground arith)
      | inr e ↦ inr ((eq_iff job.kind "container").0 (ground arith), ground arith)
    ];
    fits = λ e. ground (arith, eq_iff mode "functions", eq_iff job.kind "function");
    retries = ground arith;
    gpu = ground arith;
  },
  ground arith,
)

-- What the first loop has seen of the jobs that it returns.
pub record Checked (mode : String) (known : List String) (raws jobs : List PipelineJob)
    : Type 0 where
  pub jobs_fit : All (IsJob mode) jobs
  pub distinct : IsDistinct (names_of jobs)
  pub fresh : (s : String) → contains known s ≡ true → contains (names_of jobs) s ≡ false
  pub trimmed : names_of jobs ≡ map (λ raw. trim_space raw.name) raws

trim_job-name : (raw : PipelineJob) → (trim_job raw).name ≡ trim_space raw.name
unfolding trim_job
trim_job-name raw = refl

pub check_jobs-Checked :
    (mode : String) (known : List String) (raws jobs : List PipelineJob)
    → check_jobs mode known raws ≡ returned jobs
    → Checked mode known raws jobs
unfolding check_jobs contains
check_jobs-Checked mode known [] jobs h =
    let same : [] ≡ jobs = ground arith in
    rw (← same) (record { jobs_fit = tt; distinct = tt; fresh = λ s k. refl; trimmed = refl })
check_jobs-Checked mode known (raw ∷ raws) jobs h =
    elim (Option-cases (job_error mode known (trim_job raw))) [
      | inr (e, p) ↦ ground arith
      | inl p ↦ elim (Outcome-cases (check_jobs mode ((trim_job raw).name ∷ known) raws)) [
        | inl (e, q) ↦ ground arith
        | inr (checked, q) ↦
            let same : trim_job raw ∷ checked ≡ jobs = ground arith in
            let (fits, absent) = job_error-IsJob mode known (trim_job raw) p in
            let rest = check_jobs-Checked mode ((trim_job raw).name ∷ known) raws checked q in
            rw (← same) (record {
              jobs_fit = (fits, rest.jobs_fit);
              distinct = (
                rest.fresh (trim_job raw).name (contains-cons_self (trim_job raw).name known),
                rest.distinct,
              );
              fresh = λ s k. elim (Bool-cases ((trim_job raw).name == s)) [
                | inl e ↦ cc ((eq_iff (trim_job raw).name s).0 e)
                | inr e ↦ rw e (rest.fresh s (rw e k))
              ];
              trimmed = cc (trim_job-name raw, rest.trimmed);
            })
      ]
    ]

by_name-all :
    (q : PipelineJob → Bool) (xs : List PipelineJob) (name : String) {job : PipelineJob}
    → any q xs ≡ false
    → by_name xs name ≡ some job
    → q job ≡ false
unfolding by_name
by_name-all q [] name h e = cc
by_name-all q (x ∷ xs) name {job} h e = elim (Option-cases (by_name xs name)) [
  | inl p ↦ ground arith
  | inr (later, p) ↦ ground (arith, by_name-all q xs name {job = job})
]

any-contains :
    (q : String → Bool) (xs : List String) (p : String)
    → any q xs ≡ false
    → contains xs p ≡ true
    → q p ≡ false
unfolding contains
any-contains q [] p h k = cc
any-contains q (x ∷ xs) p h k = elim (Bool-cases (x == p)) [
  | inl e ↦ rw (← (eq_iff x p).0 e) (ground arith)
  | inr e ↦ ground (arith, any-contains q xs p)
]

pub parents_closed :
    (jobs : List PipelineJob)
    → any (bad_dependency (names_of jobs)) jobs ≡ false
    → (n p : String) → contains (parents_in jobs n) p ≡ true
    → contains (names_of jobs) p ≡ true
unfolding parents_in bad_dependency contains
parents_closed jobs good n p k = elim (Option-cases (by_name jobs n)) [
  | inl e ↦ cc (rw (e, parents_in) at k)
  | inr (job, e) ↦
      let fine = by_name-all (bad_dependency (names_of jobs)) jobs n good e in
      let known =
        any-contains (λ d. d == job.name || not (contains (names_of jobs) d)) job.depends_on p fine
          (rw (e, parents_in) at k) in
      ground arith
]

pub not_nil :
    (jobs raws : List PipelineJob)
    → names_of jobs ≡ map (λ raw. trim_space raw.name) raws
    → is_nil raws ≡ false
    → is_nil jobs ≡ false
not_nil [] [] e h = h
not_nil [] (raw ∷ raws) e h = cc
not_nil (job ∷ jobs) raws e h = refl
