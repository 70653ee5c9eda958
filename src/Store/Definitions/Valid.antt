-- ===== src/Store/Definitions/Valid.antt =====
-- The pipeline definitions that `validatePipelineDefinition` lets through.
use mathlib.Core.Path.{subst}
use mlops.Base.{
  ◌≡◌, ◌≢◌, ◌↔◌, ◌⊎◌, refl, sym, ◌∙◌, String, Bool, true, false, List, [], ◌∷◌, Option, none, some,
  ◌==◌, ◌||◌, ◌&&◌, not, any, is_nil, length-map, map, inl, inr, Bool-cases, Option-cases, eq_iff,
  All, arith, if◌then◌else◌,
}
use mlops.Base.Int.{pos, ltb_ℤ}
use mlops.Base.Text.{is_empty, trim_space, contains}
use mlops.Base.Member.{IsDistinct, IsSubset}
use mlops.Api.Pipeline.{PipelineJob, UpsertPipelineDefinitionRequest}
use mlops.Store.{Outcome-cases, Error, refused, returned, message}
use mlops.Store.Definitions.{
  trim_job, resource_quantity, job_error, check_jobs, names_of, bad_dependency, parents_in, Marks,
  exhausted, cyclic, clear, walk_graph, validate_pipeline_definition,
}
use mlops.Store.Definitions.Jobs.{IsJob, check_jobs-Checked, parents_closed, not_nil}
use mlops.Store.Definitions.Search.{Walk-cases}
use mlops.Store.Definitions.Schedule.{IsSchedule, search-IsSchedule, search-ne-exhausted}

-- A pipeline definition that can be run.
pub record IsRunnable (req : UpsertPipelineDefinitionRequest) : Type 0 where
  pub project : is_empty req.project_id ≡ false
  pub named : is_empty req.name ≡ false
  pub versioned : is_empty req.version ≡ false
  pub some_job : is_nil req.jobs ≡ false
  pub mode : (req.execution_mode ≡ "prefect") ⊎ (req.execution_mode ≡ "functions")
  pub jobs_fit : All (IsJob req.execution_mode) req.jobs
  pub distinct : IsDistinct (names_of req.jobs)
  pub known :
      (n p : String)
      → contains (parents_in req.jobs n) p ≡ true
      → contains (names_of req.jobs) p ≡ true
  pub schedule :
      (xs : List String) × IsSchedule (parents_in req.jobs) xs × IsSubset (names_of req.jobs) xs

abbrev pub mode_of : UpsertPipelineDefinitionRequest → String
mode_of raw = if is_empty raw.execution_mode then "prefect" else raw.execution_mode

module _ (raw : UpsertPipelineDefinitionRequest) (jobs : List PipelineJob)
    (checked : check_jobs (mode_of raw) [] raw.jobs ≡ returned jobs)
    (good : any (bad_dependency (names_of jobs)) jobs ≡ false) (order : List String)
    (each : IsSubset (map (λ job. trim_space job.name) raw.jobs) order)
    (only : IsSubset order (map (λ job. trim_space job.name) raw.jobs)) where
  trimmed_names : names_of jobs ≡ map (λ job. trim_space job.name) raw.jobs
  trimmed_names = (check_jobs-Checked (mode_of raw) [] raw.jobs jobs checked).trimmed

  walk_lem :
      ((m : Marks) × (walk_graph jobs order ≡ clear m))
      ↔ ((xs : List String) × IsSchedule (parents_in jobs) xs × IsSubset (names_of jobs) xs)
  unfolding walk_graph
  walk_lem = rw (length-map (λ (job : PipelineJob). job.name) jobs) at (
      search-IsSchedule (parents_in jobs) (names_of jobs) order (parents_closed jobs good)
        (rw trimmed_names each) (rw trimmed_names only))

  walk_ends : walk_graph jobs order ≢ exhausted
  unfolding walk_graph
  walk_ends = rw (length-map (λ (job : PipelineJob). job.name) jobs) at (
      search-ne-exhausted (parents_in jobs) (names_of jobs) order (parents_closed jobs good)
        (rw trimmed_names each) (rw trimmed_names only))

abbrev no_head : UpsertPipelineDefinitionRequest → Bool
no_head raw =
    is_empty raw.project_id
    || is_empty (trim_space raw.name)
    || is_empty (trim_space raw.version)
    || is_nil raw.jobs

abbrev no_mode : UpsertPipelineDefinitionRequest → Bool
no_mode raw = not (mode_of raw == "prefect") && not (mode_of raw == "functions")

abbrev normalised :
    UpsertPipelineDefinitionRequest → List PipelineJob → UpsertPipelineDefinitionRequest
normalised raw jobs = record raw {
  name = trim_space raw.name;
  version = trim_space raw.version;
  execution_mode = mode_of raw;
  jobs = jobs;
}

-- The tests before the search are passed.
record Passed (raw : UpsertPipelineDefinitionRequest) (jobs : List PipelineJob) : Type 0 where
  pub head : no_head raw ≡ false
  pub mode : no_mode raw ≡ false
  pub checked : check_jobs (mode_of raw) [] raw.jobs ≡ returned jobs
  pub good : any (bad_dependency (names_of jobs)) jobs ≡ false

abbrev is_cycle : Error → Bool
is_cycle (message t) = t == "pipeline graph contains a cycle"
is_cycle _ = false

or_later :
    (b : Bool) (t : String) {rest : Option Error} {e : Error}
    → (t == "pipeline graph contains a cycle") ≡ false
    → (rest ≡ some e → is_cycle e ≡ false)
    → (if b then some (message t) else rest) ≡ some e
    → is_cycle e ≡ false
or_later true t {e = e} other later h =
    let same : message t ≡ e = ground arith in subst (λ e. is_cycle e ≡ false) same other
or_later false t other later h = later h

job_error-error :
    (mode : String) (known : List String) (job : PipelineJob) {e : Error}
    → job_error mode known job ≡ some e
    → is_cycle e ≡ false
unfolding job_error
job_error-error mode known job {e} =
    or_later (is_empty job.name || contains known job.name) "job names must be non-empty and unique"
      refl
      (or_later (not (job.kind == "function") && not (job.kind == "container"))
        "job kind must be function or container" refl
        (or_later (job.kind == "function" && is_empty (trim_space job.function))
          "function jobs require function" refl
          (or_later (job.kind == "container" && is_empty (trim_space job.image))
            "container jobs require image" refl
            (or_later (mode == "functions" && not (job.kind == "function"))
              "functions execution mode only accepts function jobs" refl
              (or_later
                (not (is_empty job.resources.cpu) && not (resource_quantity job.resources.cpu))
                "job CPU must be a Kubernetes quantity such as 500m or 2" refl
                (or_later
                  (not (is_empty job.resources.memory)
                    && not (resource_quantity job.resources.memory))
                  "job memory must be a quantity such as 512Mi or 2Gi" refl
                  (or_later (ltb_ℤ job.retries (pos 0) || ltb_ℤ job.resources.gpu (pos 0))
                    "job retries and GPU count cannot be negative" refl
                    (λ (h : none ≡ some e). cc))))))))

check_jobs-error :
    (mode : String) (known : List String) (raws : List PipelineJob) {e : Error}
    → check_jobs mode known raws ≡ refused e
    → is_cycle e ≡ false
unfolding check_jobs
check_jobs-error mode known [] h = cc
check_jobs-error mode known (raw ∷ raws) {e} h =
    elim (Option-cases (job_error mode known (trim_job raw))) [
      | inr (e', p) ↦
          let same : e' ≡ e = ground arith in
          rw same at (job_error-error mode known (trim_job raw) p)
      | inl p ↦ elim (Outcome-cases (check_jobs mode ((trim_job raw).name ∷ known) raws)) [
        | inl (e', q) ↦
            let same : e' ≡ e = ground arith in
            rw same at (check_jobs-error mode ((trim_job raw).name ∷ known) raws q)
        | inr (checked, q) ↦ ground arith
      ]
    ]

-- The outcome is an error that does not depend on the order, or it is that of the search.
validate-cases :
    (raw : UpsertPipelineDefinitionRequest)
    → ((e : Error) × (is_cycle e ≡ false)
        × ((order : List String) → validate_pipeline_definition order raw ≡ refused e))
      ⊎ ((jobs : List PipelineJob) × Passed raw jobs
          × ((order : List String)
              → validate_pipeline_definition order raw ≡ elim (walk_graph jobs order) [
                | clear _ ↦ returned (normalised raw jobs)
                | _ ↦ refused (message "pipeline graph contains a cycle")
              ]))
unfolding validate_pipeline_definition
validate-cases raw = elim (Bool-cases (no_head raw)) [
  | inl a ↦ inl (
    message "project_id, name, version and at least one job are required",
    refl,
    λ order. rw (a, validate_pipeline_definition),
  )
  | inr a ↦ elim (Bool-cases (no_mode raw)) [
    | inl b ↦ inl (
      message "execution_mode must be prefect or functions",
      refl,
      λ order. rw (a, validate_pipeline_definition, b),
    )
    | inr b ↦ elim (Outcome-cases (check_jobs (mode_of raw) [] raw.jobs)) [
      | inl (e, c) ↦ inl (
        e,
        check_jobs-error (mode_of raw) [] raw.jobs c,
        λ order. rw (a, validate_pipeline_definition, b, c),
      )
      | inr (jobs, c) ↦ elim (Bool-cases (any (bad_dependency (names_of jobs)) jobs)) [
        | inl d ↦ inl (
          message "job dependencies must reference another job",
          refl,
          λ order. rw (a, validate_pipeline_definition, b, c, d),
        )
        | inr d ↦ inr (
          jobs,
          record { head = a; mode = b; checked = c; good = d },
          λ order. rw (a, validate_pipeline_definition, b, c, d),
        )
      ]
    ]
  ]
]

module _ (raw : UpsertPipelineDefinitionRequest) where
  abbrev pub Lists : List String → Type 0
  Lists order =
      IsSubset (map (λ job. trim_space job.name) raw.jobs) order
      × IsSubset order (map (λ job. trim_space job.name) raw.jobs)

  search_ends :
      (jobs : List PipelineJob)
      → Passed raw jobs
      → (order : List String) → Lists order
      → ((walk_graph jobs order ≡ cyclic)
          × ((xs : List String) → IsSchedule (parents_in jobs) xs → ¬ IsSubset (names_of jobs) xs))
        ⊎ ((m : Marks) × (walk_graph jobs order ≡ clear m)
            × ((xs : List String) × IsSchedule (parents_in jobs) xs × IsSubset (names_of jobs) xs))
  search_ends jobs p order (each, only) =
      let meaning = walk_lem raw jobs p.checked p.good order each only in
      elim (Walk-cases (walk_graph jobs order)) [
        | inl e ↦ absurd (walk_ends raw jobs p.checked p.good order each only e)
        | inr (inl e) ↦ inl (e, λ xs o sub. cc ((meaning.1 (xs, o, sub)).1))
        | inr (inr (m, e)) ↦ inr (m, e, meaning.0 (m, e))
      ]

  -- The order in which the names of the jobs are iterated over does not matter: two orders that have
  -- exactly these names give the same outcome.
  pub validate_pipeline_definition_order :
      (order order' : List String)
      → Lists order
      → Lists order'
      → validate_pipeline_definition order raw ≡ validate_pipeline_definition order' raw
  validate_pipeline_definition_order order order' l l' = elim (validate-cases raw) [
    | inl (e, c, h) ↦ h order ∙ sym (h order')
    | inr (jobs, p, h) ↦ h order ∙ elim (search_ends jobs p order l) [
      | inl (w, never) ↦ elim (search_ends jobs p order' l') [
        | inl (w', never') ↦ rw w (sym (rw w' at (h order')))
        | inr (m', w', s) ↦ absurd (never s.0 s.1 s.2)
      ]
      | inr (m, w, s) ↦ elim (search_ends jobs p order' l') [
        | inl (w', never') ↦ absurd (never' s.0 s.1 s.2)
        | inr (m', w', s') ↦ rw w (sym (rw w' at (h order')))
      ]
    ]
  ]

  -- Where the iteration yields exactly the names of the jobs, a definition that the validation returns
  -- can be run: it has a project, a name, a version and jobs, which have distinct names, fit the
  -- execution mode, depend on jobs of the definition, and can be ordered with each after those that
  -- it depends on.
  pub validate_pipeline_definition-IsRunnable :
      (order : List String) {req : UpsertPipelineDefinitionRequest}
      → Lists order
      → validate_pipeline_definition order raw ≡ returned req
      → IsRunnable req
  validate_pipeline_definition-IsRunnable order {req} l v = elim (validate-cases raw) [
    | inl (e, c, h) ↦ cc (h order)
    | inr (jobs, p, h) ↦ elim (search_ends jobs p order l) [
      | inl (w, never) ↦ cc (rw w at (h order))
      | inr (m, w, s) ↦
          let same : normalised raw jobs ≡ req = cc (rw w at (h order)) in
          let checked = check_jobs-Checked (mode_of raw) [] raw.jobs jobs p.checked in
          rw (← same) (record {
            project = ground (arith, p);
            named = ground (arith, p);
            versioned = ground (arith, p);
            some_job = not_nil jobs raw.jobs checked.trimmed (ground (arith, p));
            mode = elim (Bool-cases (mode_of raw == "prefect")) [
              | inl e ↦ inl ((eq_iff (mode_of raw) "prefect").0 e)
              | inr e ↦ inr ((eq_iff (mode_of raw) "functions").0 (ground (arith, p)))
            ];
            jobs_fit = checked.jobs_fit;
            distinct = checked.distinct;
            known = parents_closed jobs p.good;
            schedule = s;
          })
    ]
  ]

  -- Where the iteration yields exactly the names of the jobs, a definition is refused for a cycle only
  -- if its jobs pass the tests of each job and no order has each after those that it depends on.
  pub validate_pipeline_definition_cycle :
      (order : List String)
      → Lists order
      → validate_pipeline_definition order raw ≡ refused (message "pipeline graph contains a cycle")
      → (jobs : List PipelineJob) × (check_jobs (mode_of raw) [] raw.jobs ≡ returned jobs)
        × ((xs : List String) → IsSchedule (parents_in jobs) xs → ¬ IsSubset (names_of jobs) xs)
  validate_pipeline_definition_cycle order l v = elim (validate-cases raw) [
    | inl (e, c, h) ↦
        let same : e ≡ message "pipeline graph contains a cycle" = cc (h order) in cc (rw same at c)
    | inr (jobs, p, h) ↦ elim (search_ends jobs p order l) [
      | inl (w, never) ↦ (jobs, p.checked, never)
      | inr (m, w, s) ↦ cc (rw w at (h order))
    ]
  ]
