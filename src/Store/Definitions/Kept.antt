-- ===== src/Store/Definitions/Kept.antt =====
-- The pipeline definitions of a store under `UpsertPipelineDefinition`.
use mlops.Base.{String, List, inl, inr, Bool-cases, Option-cases, All}
use mlops.Base.First.{find_first, All-update_found}
use mlops.Api.Pipeline.{PipelineDefinition, UpsertPipelineDefinitionRequest}
use mlops.Store.{State, Clock, Outcome-cases, record_event, has_project}
use mlops.Store.Definitions.{
  validate_pipeline_definition, is_definition, redefine, defined, upsert_pipeline_definition,
}
use mlops.Store.Definitions.Valid.{IsRunnable, Lists, validate_pipeline_definition-IsRunnable}

-- The part of a definition that a request gives.
abbrev pub request_of : PipelineDefinition → UpsertPipelineDefinitionRequest
request_of d = record {
  project_id = d.project_id;
  name = d.name;
  version = d.version;
  execution_mode = d.execution_mode;
  jobs = d.jobs;
  repository_url = d.repository_url;
  commit_sha = d.commit_sha;
}

abbrev pub DefinitionsRun : State → Type 0
DefinitionsRun s = All (λ d. IsRunnable (request_of d)) s.definitions

redefine-IsRunnable :
    (clock : Clock) (req : UpsertPipelineDefinitionRequest) (d : PipelineDefinition)
    → IsRunnable req
    → IsRunnable (request_of d)
    → IsRunnable (request_of (redefine (clock 0) req d))
unfolding redefine
redefine-IsRunnable clock req d r old = record {
  project = old.project;
  named = r.named;
  versioned = r.versioned;
  some_job = r.some_job;
  mode = r.mode;
  jobs_fit = r.jobs_fit;
  distinct = r.distinct;
  known = r.known;
  schedule = r.schedule;
}

defined-IsRunnable :
    (clock : Clock) (req : UpsertPipelineDefinitionRequest)
    → IsRunnable req
    → IsRunnable (request_of (defined clock req))
unfolding defined
defined-IsRunnable clock req r = r

-- Where every definition of a store can be run, this stays so, whatever is asked for, under
-- whichever id, and in whatever order the validation iterates over the names of the jobs.
pub upsert_pipeline_definition-DefinitionsRun :
    (clock : Clock) (order : List String) (definition_id : String)
    (raw : UpsertPipelineDefinitionRequest) (actor : String) (s : State)
    → Lists raw order
    → DefinitionsRun s
    → DefinitionsRun (upsert_pipeline_definition clock order definition_id raw actor s).0
unfolding upsert_pipeline_definition record_event
upsert_pipeline_definition-DefinitionsRun clock order definition_id raw actor s l h =
    elim (Outcome-cases (validate_pipeline_definition order raw)) [
      | inl (e, p) ↦ rw (p, upsert_pipeline_definition) h
      | inr (req, p) ↦
          let runs = validate_pipeline_definition-IsRunnable raw order l p in
          elim (Bool-cases (has_project s.projects req.project_id)) [
            | inr q ↦ rw (p, upsert_pipeline_definition, q) h
            | inl q ↦
                elim (Option-cases (find_first (is_definition definition_id req) s.definitions)) [
                  | inl f ↦
                      rw (p, upsert_pipeline_definition, q, f)
                        (defined-IsRunnable clock req runs, h)
                  | inr (found, f) ↦
                      rw (p, upsert_pipeline_definition, q, f)
                        (All-update_found (λ d. IsRunnable (request_of d))
                          (is_definition definition_id req) (redefine (clock 0) req) s.definitions f
                          (redefine-IsRunnable clock req found runs) h)
                ]
          ]
    ]
