-- ===== src/Tests/StoredModels.antt =====
-- A model that the Postgres repository promotes, on a table whose payloads are the models themselves.
use mlops.Base.{◌≡◌, refl, ◌+◌, [], ◌∷◌, some}
use mlops.Base.Int.{pos}
use mlops.Api.Model.{Model}
use mlops.Store.{State, zero_state, Clock}
use mlops.Store.Postgres.{list, Codec, Db, no_faults}
use mlops.Store.Postgres.ModelRefines.{
  Call, promoting, perform, perform_stored, Stores, perform_stored-Stores,
}

abbrev clock : Clock
clock n = 60 + n

abbrev plain : Codec Model Model
plain = record { encode = λ m. m; decode = λ m. some m; decode-encode = λ m. refl }

abbrev model : Model
model = record {
  id = "mdl-1";
  project_id = "prj-demo";
  name = "churn";
  version = "1";
  stage = "candidate";
  previous_stage = "";
  artifact_uri = "s3://models/churn";
  metrics = [];
  gate_status = "passed";
  deployment_status = "not_deployed";
  canary_weight = pos 0;
  endpoint_url = "";
  created_at = 1;
}

abbrev local : State
local = record zero_state { models = model ∷ [] }

abbrev stored : Db Model
stored = record {
  resources = record { tenant = "acme"; kind = "model"; id = "mdl-1"; payload = model } ∷ [];
  audit = [];
  outbox = [];
}

abbrev call : Call
call = promoting clock "mdl-1" "production" "ann"

perform_stored-Stores_example :
    ((perform_stored plain "acme" call stored).1 ≡ (perform call local).1)
    × Stores plain "acme" (perform_stored plain "acme" call stored).0 (perform call local).0.models
    × (list plain "acme" no_faults "model" (perform_stored plain "acme" call stored).0
        ≡ (perform call local).0.models)
perform_stored-Stores_example = perform_stored-Stores plain "acme" call local stored refl
