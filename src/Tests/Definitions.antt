-- ===== src/Tests/Definitions.antt =====
-- A pipeline of three jobs, in an order and with a cycle.
use mlops.Base.{
  ◌≡◌, refl, ◌+◌, String, List, [], ◌∷◌, true, ◌==◌, arith, Bool-cases, inl, inr, if◌then◌else◌,
}
use mlops.Base.Int.{pos}
use mlops.Base.Text.{contains, trim_space}
use mlops.Api.Pipeline.{PipelineJob, UpsertPipelineDefinitionRequest}
use mlops.Store.{zero_state, Clock, refused, returned, message, record_event, has_project}
use mlops.Store.Seed.{new}
use mlops.Store.Definitions.{
  resource_quantity, trim_job, job_error, check_jobs, bad_dependency, by_name, parents_in,
  visit_all, enter, leave, visit, walk_graph, validate_pipeline_definition, redefine, defined,
  upsert_pipeline_definition,
}
use mlops.Store.Definitions.Valid.{
  IsRunnable, Lists, validate_pipeline_definition-IsRunnable, validate_pipeline_definition_order,
}
use mlops.Store.Definitions.Kept.{DefinitionsRun, upsert_pipeline_definition-DefinitionsRun}

definition_code : Unit {0}
unfolding contains trim_space resource_quantity trim_job job_error check_jobs bad_dependency by_name
    parents_in visit_all enter leave visit walk_graph validate_pipeline_definition redefine defined
    upsert_pipeline_definition has_project record_event
definition_code = tt

abbrev job : String → List String → PipelineJob
job name depends_on = record {
  name = name;
  kind = "container";
  function = "";
  image = "img";
  command = [];
  depends_on = depends_on;
  environment = [];
  resources = record { cpu = "500m"; memory = "2Gi"; gpu = pos 0 };
  retries = pos 1;
}

abbrev pipeline : List PipelineJob → UpsertPipelineDefinitionRequest
pipeline jobs = record {
  project_id = "prj-demo";
  name = " daily ";
  version = "1";
  execution_mode = "";
  jobs = jobs;
  repository_url = "";
  commit_sha = "";
}

abbrev good : UpsertPipelineDefinitionRequest
good = pipeline (job "c" ("a" ∷ "b" ∷ []) ∷ job "b" ("a" ∷ []) ∷ job " a" [] ∷ [])

abbrev bad : UpsertPipelineDefinitionRequest
bad = pipeline (job "a" ("c" ∷ []) ∷ job "b" ("a" ∷ []) ∷ job "c" ("b" ∷ []) ∷ [])

abbrev abc : List String
abc = "a" ∷ "b" ∷ "c" ∷ []

abbrev cba : List String
cba = "c" ∷ "b" ∷ "a" ∷ []

-- Both lists hold the same three names.
three :
    (s : String)
    → (contains abc s ≡ true → contains cba s ≡ true)
      × (contains cba s ≡ true → contains abc s ≡ true)
unfolding contains
three s = (λ h. ground arith, λ h. ground arith)

good-Lists : Lists good abc
unfolding trim_space
good-Lists = (λ s h. (three s).1 h, λ s h. (three s).0 h)

good-Lists_reversed : Lists good cba
unfolding trim_space
good-Lists_reversed = (λ s h. h, λ s h. h)

bad-Lists : Lists bad abc
unfolding trim_space
bad-Lists = (λ s h. h, λ s h. h)

abbrev accepted : UpsertPipelineDefinitionRequest
accepted = record good {
  name = "daily";
  execution_mode = "prefect";
  jobs = job "c" ("a" ∷ "b" ∷ []) ∷ job "b" ("a" ∷ []) ∷ job "a" [] ∷ [];
}

good_accepted : validate_pipeline_definition abc good ≡ returned accepted
unfolding definition_code
good_accepted = refl

bad_refused :
    validate_pipeline_definition abc bad ≡ refused (message "pipeline graph contains a cycle")
unfolding definition_code
bad_refused = refl

validate_pipeline_definition-IsRunnable_example : IsRunnable accepted
validate_pipeline_definition-IsRunnable_example =
    validate_pipeline_definition-IsRunnable good abc good-Lists good_accepted

validate_pipeline_definition_order_example :
    validate_pipeline_definition abc good ≡ validate_pipeline_definition cba good
validate_pipeline_definition_order_example =
    validate_pipeline_definition_order good abc cba good-Lists good-Lists_reversed

abbrev parents : String → List String
parents s = if s == "b" then "a" ∷ [] else []

parents-closed : (n p : String) → contains (parents n) p ≡ true → contains abc p ≡ true
unfolding contains
parents-closed n p h = elim (Bool-cases (n == "b")) [ inl e ↦ ground arith | inr e ↦ ground arith ]

abbrev clock : Clock
clock n = 10 + n

upsert_pipeline_definition-DefinitionsRun_example :
    DefinitionsRun (upsert_pipeline_definition clock abc "" good "ann" (new 5 zero_state)).0
unfolding new
upsert_pipeline_definition-DefinitionsRun_example =
    upsert_pipeline_definition-DefinitionsRun clock abc "" good "ann" (new 5 zero_state) good-Lists
      tt
