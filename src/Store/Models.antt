-- ===== src/Store/Models.antt =====
-- go/internal/store/store.go: the model registry.
pub mod Gates
pub mod Rollback
use Prim.Native.String.{◌++◌}
use mlops.Base.{
  ℕ, ◌^◌, ◌/◌, ◌%◌, String, Bool, true, false, List, [], ◌∷◌, Option, none, some, ◌==◌, ◌||◌, ◌&&◌,
  not, ltb, leb, eqb, any, if◌then◌else◌,
}
use mlops.Base.First.{find_first, update_first}
use mlops.Base.Int.{ℤ, pos, ltb_ℤ}
use mlops.Base.Text.{is_empty, contains}
use mlops.Api.Value.{Float64}
use mlops.Api.Value.Any.{text, int}
use mlops.Api.Model.{Model, RegisterModelRequest}
use mlops.Store.{
  State, Outcome, refused, returned, not_found, conflict, message, Clock, id, record_event,
  has_project,
}

-- `x < .8` on the bits of a float64. The bits of .8 are 0x3FE999999999999A; a NaN is below nothing;
-- with the sign bit set a number is below .8; and the bits of the others are in their order.
unfoldable pub below_gate : Float64 → Bool
below_gate bits =
    let magnitude = bits % 2 ^ 63 in
    if ltb 0x7FF0000000000000 magnitude
    then false
    else leb (2 ^ 63) bits || ltb bits 0x3FE999999999999A

-- `metrics[key]`
unfoldable pub metric : String → List (String × Float64) → Option Float64
metric key [] = none
metric key ((k, value) ∷ metrics) = if k == key then some value else metric key metrics

-- The variable `gate` of `RegisterModel`.
unfoldable pub gate_of : List (String × Float64) → String
gate_of metrics = elim (metric "accuracy" metrics) [
  | none ↦ "passed"
  | some accuracy ↦ if below_gate accuracy then "failed" else "passed"
]

-- The model that `RegisterModel` makes of a request.
unfoldable pub registered : Clock → RegisterModelRequest → Model
registered clock req = record {
  id = id "mdl" (clock 0);
  project_id = req.project_id;
  name = req.name;
  version = req.version;
  stage = "candidate";
  artifact_uri = req.artifact_uri;
  metrics = req.metrics;
  created_at = clock 1;
  gate_status = gate_of req.metrics;
  deployment_status = "not_deployed";
  canary_weight = pos 0;
  endpoint_url = "";
  previous_stage = "";
}

-- `RegisterModel`
unfoldable pub register_model :
    Clock → RegisterModelRequest → String → State → State × Outcome Model
register_model clock req actor s =
    if not (has_project s.projects req.project_id)
    then (s, refused not_found)
    else if is_empty req.name || is_empty req.version || is_empty req.artifact_uri
    then (s, refused (message "name, version and artifact_uri are required"))
    else if any (λ v. v.name == req.name && v.version == req.version) s.models
    then (s, refused conflict)
    else let m = registered clock req in
      (
        record_event (clock 2) (clock 3) "model.registered" "model" m.id actor []
            (record s { models = m ∷ s.models }),
        returned m,
      )

abbrev pub is_model : String → Model → Bool
is_model model_id m = m.id == model_id

-- What `PromoteModel` does to the model that it finds.
unfoldable pub promote : String → Model → Model
promote stage m = record m { previous_stage = m.stage; stage = stage }

-- `PromoteModel`
unfoldable pub promote_model : Clock → String → String → String → State → State × Outcome Model
promote_model clock model_id stage actor s =
    if not (contains ("staging" ∷ "production" ∷ "archived" ∷ []) stage)
    then (s, refused (message "stage must be staging, production or archived"))
    else elim (find_first (is_model model_id) s.models) [
      | none ↦ (s, refused not_found)
      | some found ↦
          if stage == "production" && found.gate_status == "failed"
          then (s, refused (message "model evaluation gates have not passed"))
          else (
            record_event (clock 0) (clock 1) "model.promoted" "model" model_id actor
                (("stage", text stage) ∷ [])
                (record s { models = update_first (is_model model_id) (promote stage) s.models }),
            returned (promote stage found),
          )
    ]

-- What `DeployModel` does to the model that it finds.
unfoldable pub deploy : ℤ → Model → Model
deploy weight m = record m {
  deployment_status = "deploying";
  canary_weight = weight;
  endpoint_url = "/v1/models/" ++ m.name ++ ":predict";
}

-- `DeployModel`
unfoldable pub deploy_model : Clock → String → ℤ → String → State → State × Outcome Model
deploy_model clock model_id weight actor s =
    if ltb_ℤ weight (pos 0) || ltb_ℤ (pos 100) weight
    then (s, refused (message "canary_weight must be between 0 and 100"))
    else elim (find_first (is_model model_id) s.models) [
      | none ↦ (s, refused not_found)
      | some found ↦
          if not (found.gate_status == "passed")
          then (s, refused (message "model evaluation gates have not passed"))
          else (
            record_event (clock 0) (clock 1) "model.deployed" "model" model_id actor
                (("canary_weight", int weight) ∷ [])
                (record s { models = update_first (is_model model_id) (deploy weight) s.models }),
            returned (deploy weight found),
          )
    ]

unfoldable pub set_endpoint : String → String → Model → Model
set_endpoint endpoint status m = record m { endpoint_url = endpoint; deployment_status = status }

-- `SetModelEndpoint`
unfoldable pub set_model_endpoint : String → String → String → State → State × Outcome Model
set_model_endpoint model_id endpoint status s = elim (find_first (is_model model_id) s.models) [
  | none ↦ (s, refused not_found)
  | some found ↦ (
    record s { models = update_first (is_model model_id) (set_endpoint endpoint status) s.models },
    returned (set_endpoint endpoint status found),
  )
]

-- What `RollbackModel` does to the model that it finds.
unfoldable pub roll_back : Model → Model
roll_back m = record m {
  stage = m.previous_stage;
  previous_stage = m.stage;
  deployment_status = "rolled_back";
  canary_weight = pos 0;
}

-- `RollbackModel`
unfoldable pub rollback_model : Clock → String → String → State → State × Outcome Model
rollback_model clock model_id actor s = elim (find_first (is_model model_id) s.models) [
  | none ↦ (s, refused not_found)
  | some found ↦
      if is_empty found.previous_stage
      then (s, refused (message "no previous stage is available"))
      else (
        record_event (clock 0) (clock 1) "model.rolled_back" "model" model_id actor []
            (record s { models = update_first (is_model model_id) roll_back s.models }),
        returned (roll_back found),
      )
]
