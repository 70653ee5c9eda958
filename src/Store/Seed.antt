-- ===== src/Store/Seed.antt =====
-- go/internal/store/store.go: the data that `New` puts into a store with no project.
use mlops.Base.{List, [], ◌∷◌, none}
use mlops.Base.Int.{pos}
use mlops.Api.Value.{Time}
use mlops.Api.Project.{Project}
use mlops.Api.Pipeline.{PipelineRun}
use mlops.Store.{State}
use mlops.Store.Steps.{default_steps}

abbrev demo_project : Time → Project
demo_project now = record {
  id = "prj-demo";
  name = "Fraud detection starter";
  description = "A guided tabular ML project";
  template = "tabular-classification";
  namespace = "team-demo";
  status = "ready";
  created_at = now;
  owner_subject = "";
  repository = none;
}

abbrev pub demo_run : Time → PipelineRun
demo_run now = record {
  id = "run-demo";
  project_id = "prj-demo";
  name = "training-pipeline";
  status = "succeeded";
  progress = pos 100;
  created_at = now;
  updated_at = now;
  parent_run_id = "";
  engine_run_id = "";
  definition_id = "";
  execution_mode = "";
  parameters = [];
  steps = default_steps "succeeded";
  logs = [];
}

-- The branch of `New` for a store without projects, after `load`.
seed_projects : Time → List Project → State → State
seed_projects now (_ ∷ _) s = s
seed_projects now [] s = record s { projects = demo_project now ∷ []; runs = demo_run now ∷ [] }

-- `New`, on the data that `load` has read, or the zero state where there is no file.
unfoldable pub new : Time → State → State
unfolding seed_projects
new now s = seed_projects now s.projects s
