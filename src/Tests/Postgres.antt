-- ===== src/Tests/Postgres.antt =====
-- The Postgres repository on a table of runs whose payloads are the runs themselves.
use mlops.Base.{◌≡◌, refl, ◌+◌, String, List, [], ◌∷◌, none, some, map}
use mlops.Base.Decimal.{decimal}
use mlops.Base.Int.{pos}
use mlops.Base.Text.{has_prefix}
use mlops.Api.Pipeline.{PipelineRun}
use mlops.Store.{State, zero_state, Clock, message, id}
use mlops.Store.Postgres.{
  list, Codec, Db, Faults, no_faults, commit, actor_or_anonymous, topic_for_action, put, with_event,
  with_command, write, get,
}
use mlops.Store.Postgres.Outbox.{Writing, operations, perform_all, write_all-operations}
use mlops.Store.Postgres.Rows.{Represents}
use mlops.Store.Postgres.Refines.{again, perform, perform_stored, IsFree, perform_stored-Represents}

abbrev clock : Clock
clock n = 40 + n

abbrev plain : Codec PipelineRun PipelineRun
plain = record { encode = λ r. r; decode = λ r. some r; decode-encode = λ r. refl }

abbrev queued_run : String → PipelineRun
queued_run run_id = record {
  id = run_id;
  project_id = "prj-demo";
  name = "daily";
  status = "running";
  progress = pos 0;
  created_at = 1;
  updated_at = 1;
  parent_run_id = "";
  engine_run_id = "";
  definition_id = "";
  execution_mode = "prefect";
  parameters = [];
  steps = [];
  logs = [];
}

abbrev empty_db : Db PipelineRun
empty_db = record { resources = []; audit = []; outbox = [] }

abbrev lost_commit : Faults
lost_commit commit = some (message "connection reset")
lost_commit _ = none

abbrev writing : Faults → String → String → Writing PipelineRun
writing faults tenant action = record {
  tenant = tenant;
  faults = faults;
  clock = clock;
  kind = "pipeline_run";
  resource_id = "run-1";
  payload = queued_run "run-1";
  action = action;
  actor = "";
  metadata = [];
}

abbrev writings : List (Writing PipelineRun)
writings =
    writing no_faults "acme" "pipeline.submitted"
    ∷ writing lost_commit "acme" "pipeline.cancelled"
    ∷ writing no_faults "acme" "pipeline.step_reported"
    ∷ []

write_code : Unit {0}
unfolding actor_or_anonymous topic_for_action has_prefix put with_event with_command write get
    perform_all id decimal
write_code = tt

-- The write that fails leaves nothing behind.
writings_done :
    (map (λ a. a.event.action) (perform_all writings empty_db).audit
      ≡ "pipeline.step_reported" ∷ "pipeline.submitted" ∷ [])
    × (map (λ o. o.topic) (perform_all writings empty_db).outbox
        ≡ "mlaiops.pipeline.commands" ∷ "mlaiops.audit.operations" ∷ "mlaiops.pipeline.commands"
          ∷ "mlaiops.audit.operations" ∷ [])
    × (map (λ r. r.id) (perform_all writings empty_db).resources ≡ "run-1" ∷ [])
unfolding write_code
writings_done = (refl, refl, refl)

write_all-operations_example :
    operations (perform_all writings empty_db).outbox ≡ (perform_all writings empty_db).audit
write_all-operations_example = write_all-operations writings empty_db refl

abbrev local : State
local = record zero_state { runs = queued_run "run-2" ∷ queued_run "run-1" ∷ [] }

abbrev stored : Db PipelineRun
stored = record {
  resources =
      record { tenant = "acme"; kind = "pipeline_run"; id = "run-2"; payload = queued_run "run-2" }
      ∷ record { tenant = "acme"; kind = "model"; id = "mdl-1"; payload = queued_run "" }
      ∷ record {
        tenant = "other";
        kind = "pipeline_run";
        id = "run-1";
        payload = queued_run "run-9";
      }
      ∷ record {
        tenant = "acme";
        kind = "pipeline_run";
        id = "run-1";
        payload = queued_run "run-1";
      }
      ∷ [];
  audit = [];
  outbox = [];
}

local-stored : Represents plain "acme" "pipeline_run" (λ r. r.id) stored local.runs
local-stored = refl

retry-IsFree : IsFree (again clock "run-1" "ann") local
unfolding id decimal
retry-IsFree = refl

perform_stored-Represents_example :
    let c = again clock "run-1" "ann" in
    ((perform_stored plain "acme" c stored).1 ≡ (perform c local).1)
    × Represents plain "acme" "pipeline_run"
        (λ r. r.id)
        (perform_stored plain "acme" c stored).0
        (perform c local).0.runs
    × (list plain "acme" no_faults "pipeline_run" (perform_stored plain "acme" c stored).0
        ≡ (perform c local).0.runs)
perform_stored-Represents_example =
    perform_stored-Represents plain "acme" (again clock "run-1" "ann") local stored local-stored
      retry-IsFree
