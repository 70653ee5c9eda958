-- ===== src/Store/Definitions.antt =====
-- go/internal/store/workloads.go: pipeline definitions, their validation with the search for a cycle
-- among the jobs, and their upkeep.
pub mod Search
pub mod Schedule
pub mod Jobs
pub mod Valid
pub mod Kept
use Prim.Native.Char.{code}
use mlops.Base.{
  ℕ, zero, suc, String, Bool, true, false, List, [], ◌∷◌, Option, none, some, ◌==◌, ◌||◌, ◌&&◌, not,
  any, filter, is_nil, length, map, leb, if◌then◌else◌,
}
use mlops.Base.First.{find_first, update_first}
use mlops.Base.Int.{pos, ltb_ℤ}
use mlops.Base.Text.{is_empty, trim_space, contains}
use mlops.Api.Value.{Time}
use mlops.Api.Pipeline.{PipelineJob, PipelineDefinition, UpsertPipelineDefinitionRequest}
use mlops.Store.{
  State, Error, Outcome, refused, returned, not_found, message, Clock, id, record_event,
  has_project,
}

abbrev is_digit : ℕ → Bool
is_digit n = leb 48 n && leb n 57

-- `[0-9]*(m|Mi|Gi)?$`
quantity_tail : String → Bool
quantity_tail String.[] = true
quantity_tail (String.◌∷◌ c s) =
    let rest = quantity_tail s in
    if is_digit (code c)
    then rest
    else String.◌∷◌ c s == "m" || String.◌∷◌ c s == "Mi" || String.◌∷◌ c s == "Gi"

-- `resourceQuantity`, the pattern `^[1-9][0-9]*(m|Mi|Gi)?$`
unfoldable pub resource_quantity : String → Bool
unfolding quantity_tail
resource_quantity String.[] = false
resource_quantity (String.◌∷◌ c s) = leb 49 (code c) && leb (code c) 57 && quantity_tail s

unfoldable pub trim_job : PipelineJob → PipelineJob
trim_job job = record job { name = trim_space job.name; kind = trim_space job.kind }

-- The tests of the first loop of `validatePipelineDefinition`, on a job whose name and kind are
-- trimmed, with the names of the jobs before it.
unfoldable pub job_error : String → List String → PipelineJob → Option Error
job_error mode known job =
    if is_empty job.name || contains known job.name
    then some (message "job names must be non-empty and unique")
    else if not (job.kind == "function") && not (job.kind == "container")
    then some (message "job kind must be function or container")
    else if job.kind == "function" && is_empty (trim_space job.function)
    then some (message "function jobs require function")
    else if job.kind == "container" && is_empty (trim_space job.image)
    then some (message "container jobs require image")
    else if mode == "functions" && not (job.kind == "function")
    then some (message "functions execution mode only accepts function jobs")
    else if not (is_empty job.resources.cpu) && not (resource_quantity job.resources.cpu)
    then some (message "job CPU must be a Kubernetes quantity such as 500m or 2")
    else if not (is_empty job.resources.memory) && not (resource_quantity job.resources.memory)
    then some (message "job memory must be a quantity such as 512Mi or 2Gi")
    else if ltb_ℤ job.retries (pos 0) || ltb_ℤ job.resources.gpu (pos 0)
    then some (message "job retries and GPU count cannot be negative")
    else none

-- The first loop of `validatePipelineDefinition`.
unfoldable pub check_jobs : String → List String → List PipelineJob → Outcome (List PipelineJob)
check_jobs mode known [] = returned []
check_jobs mode known (raw ∷ jobs) =
    let job = trim_job raw in
    let rest = check_jobs mode (job.name ∷ known) jobs in
    elim (job_error mode known job) [
      | some e ↦ refused e
      | none ↦ elim rest [ refused e ↦ refused e | returned checked ↦ returned (job ∷ checked) ]
    ]

abbrev pub names_of : List PipelineJob → List String
names_of = map λ job. job.name

-- The second loop: some dependency is the job itself, or no job.
unfoldable pub bad_dependency : List String → PipelineJob → Bool
bad_dependency known job =
    any (λ dependency. dependency == job.name || not (contains known dependency)) job.depends_on

-- `byName[name].DependsOn`: a later job of a name overwrites an earlier one, and a missing name
-- gives a zero job, which depends on nothing.
unfoldable pub by_name : List PipelineJob → String → Option PipelineJob
by_name [] name = none
by_name (job ∷ jobs) name = elim (by_name jobs name) [
  | some later ↦ some later
  | none ↦ if job.name == name then some job else none
]

unfoldable pub parents_in : List PipelineJob → String → List String
parents_in jobs name = elim (by_name jobs name) [ none ↦ [] | some job ↦ job.depends_on ]

-- The maps `visiting` and `visited`: the names that they map to true.
pub record Marks : Type 0 where
  pub visiting : List String
  pub visited : List String

-- What a call of `visit` does: it returns false, or true with the maps that it leaves. It is
-- exhausted where the fuel of the model ends the recursion.
pub data Walk : Type 0 where
  exhausted cyclic : Walk
  clear : Marks → Walk

-- A loop of calls that stops at the first that returns false.
unfoldable pub visit_all : (String → Marks → Walk) → List String → Marks → Walk
visit_all call [] m = clear m
visit_all call (name ∷ names) m = elim (call name m) [
  | exhausted ↦ exhausted
  | cyclic ↦ cyclic
  | clear m' ↦ visit_all call names m'
]

unfoldable pub enter : String → Marks → Marks
enter name m = record m { visiting = name ∷ m.visiting }

unfoldable pub leave : String → Marks → Marks
leave name m = record {
  visiting = filter (λ other. not (other == name)) m.visiting;
  visited = name ∷ m.visited;
}

-- The function `visit`, with the fuel of the model first.
unfoldable pub visit : (String → List String) → ℕ → String → Marks → Walk
visit parents zero name m = exhausted
visit parents (suc fuel) name m =
    if contains m.visiting name
    then cyclic
    else if contains m.visited name
    then clear m
    else elim (visit_all (visit parents fuel) (parents name) (enter name m)) [
      | exhausted ↦ exhausted
      | cyclic ↦ cyclic
      | clear m' ↦ clear (leave name m')
    ]

abbrev pub no_marks : Marks
no_marks = record { visiting = []; visited = [] }

-- The loop over `byName`. `order` is the order in which the iteration yields the names. The fuel is
-- one more than there are jobs.
unfoldable pub walk_graph : List PipelineJob → List String → Walk
walk_graph jobs order = visit_all (visit (parents_in jobs) (suc (length jobs))) order no_marks

-- `validatePipelineDefinition`
unfoldable pub validate_pipeline_definition :
    List String → UpsertPipelineDefinitionRequest → Outcome UpsertPipelineDefinitionRequest
validate_pipeline_definition order raw =
    let name = trim_space raw.name in
    let version = trim_space raw.version in
    let mode = if is_empty raw.execution_mode then "prefect" else raw.execution_mode in
    if is_empty raw.project_id || is_empty name || is_empty version || is_nil raw.jobs
    then refused (message "project_id, name, version and at least one job are required")
    else if not (mode == "prefect") && not (mode == "functions")
    then refused (message "execution_mode must be prefect or functions")
    else elim (check_jobs mode [] raw.jobs) [
      | refused e ↦ refused e
      | returned jobs ↦
          if any (bad_dependency (names_of jobs)) jobs
          then refused (message "job dependencies must reference another job")
          else elim (walk_graph jobs order) [
            | clear _ ↦
                returned (record raw {
                  name = name;
                  version = version;
                  execution_mode = mode;
                  jobs = jobs;
                })
            | _ ↦ refused (message "pipeline graph contains a cycle")
          ]
    ]

-- The test of the loop in `UpsertPipelineDefinition`.
abbrev pub is_definition : String → UpsertPipelineDefinitionRequest → PipelineDefinition → Bool
is_definition definition_id req d =
    d.id == definition_id
    || (is_empty definition_id
        && d.project_id == req.project_id
        && d.name == req.name
        && d.version == req.version)

-- What `UpsertPipelineDefinition` does to the definition that it finds.
unfoldable pub redefine :
    Time → UpsertPipelineDefinitionRequest → PipelineDefinition → PipelineDefinition
redefine now req d = record d {
  name = req.name;
  version = req.version;
  execution_mode = req.execution_mode;
  jobs = req.jobs;
  repository_url = req.repository_url;
  commit_sha = req.commit_sha;
  updated_at = now;
}

-- The definition that `UpsertPipelineDefinition` makes.
unfoldable pub defined : Clock → UpsertPipelineDefinitionRequest → PipelineDefinition
defined clock req = record {
  id = id "pipe" (clock 1);
  project_id = req.project_id;
  name = req.name;
  version = req.version;
  execution_mode = req.execution_mode;
  jobs = req.jobs;
  repository_url = req.repository_url;
  commit_sha = req.commit_sha;
  created_at = clock 0;
  updated_at = clock 0;
}

-- `UpsertPipelineDefinition`
unfoldable pub upsert_pipeline_definition :
    Clock
    → List String
    → String
    → UpsertPipelineDefinitionRequest
    → String
    → State
    → State × Outcome PipelineDefinition
upsert_pipeline_definition clock order definition_id raw actor s =
    elim (validate_pipeline_definition order raw) [
      | refused e ↦ (s, refused e)
      | returned req ↦
          if not (has_project s.projects req.project_id)
          then (s, refused not_found)
          else elim (find_first (is_definition definition_id req) s.definitions) [
            | some found ↦
                let change = redefine (clock 0) req in
                (
                  record_event (clock 1) (clock 2) "pipeline_definition.updated"
                      "pipeline_definition" found.id actor []
                      (record s {
                        definitions =
                            update_first (is_definition definition_id req) change s.definitions;
                      }),
                  returned (change found),
                )
            | none ↦
                let definition = defined clock req in
                (
                  record_event (clock 2) (clock 3) "pipeline_definition.created"
                      "pipeline_definition" definition.id actor []
                      (record s { definitions = definition ∷ s.definitions }),
                  returned definition,
                )
          ]
    ]
