-- ===== src/Tests/Models.antt =====
-- A model that fails its gate, and one that passes and is rolled back.
use mlops.Base.{◌≡◌, refl, ℕ, ◌+◌, String, List, [], ◌∷◌, true, false, map}
use mlops.Base.Int.{pos}
use mlops.Base.Text.{contains}
use mlops.Api.Model.{Model, RegisterModelRequest}
use mlops.Store.{State, Clock, zero_state, returned, record_event, has_project, id}
use mlops.Store.Seed.{new}
use mlops.Store.Models.{
  is_model, below_gate, metric, gate_of, registered, register_model, promote, promote_model, deploy,
  deploy_model, roll_back, rollback_model, set_endpoint, set_model_endpoint,
}
use mlops.Store.Models.Gates.{
  Call, register, promote_to, deploy_at, serve_at, rollback, perform, perform_all, ModelsSound,
  perform_all-ModelsSound,
}
use mlops.Store.Models.Rollback.{withdrawn, reinstated, promote_model-rollback_model}
use mlops.Base.First.{update_first}

model_code : Unit {0}
unfolding below_gate metric gate_of registered register_model promote promote_model deploy
    deploy_model roll_back rollback_model set_endpoint set_model_endpoint perform perform_all new
    record_event has_project id contains
model_code = tt

abbrev clock : ℕ → Clock
clock base i = base + i

-- 0.79 and 0.8 as float64.
gate_tests :
    (below_gate 0x3FE947AE147AE148 ≡ true)
    × (below_gate 0x3FE999999999999A ≡ false)
    × (below_gate 0xBFF0000000000000 ≡ true)
    × (below_gate 0x7FF8000000000000 ≡ false)
unfolding model_code
gate_tests = (refl, refl, refl, refl)

abbrev model : String → ℕ → RegisterModelRequest
model version accuracy = record {
  project_id = "prj-demo";
  name = "fraud";
  version = version;
  artifact_uri = "s3://models/fraud";
  metrics = ("accuracy", accuracy) ∷ [];
}

abbrev start : State
unfolding new
start = new 5 zero_state

abbrev calls : List Call
calls =
    register (clock 10) (model "1" 0x3FE947AE147AE148) "ann"
    ∷ register (clock 20) (model "2" 0x3FE999999999999A) "ann"
    ∷ promote_to (clock 30) "mdl-10" "production" "ann"
    ∷ promote_to (clock 40) "mdl-20" "production" "ann"
    ∷ deploy_at (clock 50) "mdl-20" (pos 10) "ann"
    ∷ serve_at "mdl-20" "http://fraud" "ready"
    ∷ rollback (clock 60) "mdl-20" "ann"
    ∷ []

model_calls :
    let s = perform_all calls start in
    (map (λ (m : Model). m.stage) s.models ≡ "candidate" ∷ "candidate" ∷ [])
    × (map (λ (m : Model). m.previous_stage) s.models ≡ "production" ∷ "" ∷ [])
    × (map (λ (m : Model). m.gate_status) s.models ≡ "passed" ∷ "failed" ∷ [])
unfolding model_code
model_calls = (refl, refl, refl)

no_models : ModelsSound start
unfolding new
no_models = tt

perform_all-ModelsSound_example : ModelsSound (perform_all calls start)
perform_all-ModelsSound_example = perform_all-ModelsSound calls start no_models

abbrev passing : Model
unfolding id gate_of metric below_gate registered
passing = registered (clock 20) (model "2" 0x3FE999999999999A)

abbrev holding : State
unfolding id gate_of metric below_gate registered
holding = record zero_state { models = passing ∷ [] }

promote_model-rollback_model_example :
    let s' = (promote_model (clock 30) "mdl-20" "production" "ann" holding).0 in
    let s'' = (rollback_model (clock 40) "mdl-20" "ann" s').0 in
    ((rollback_model (clock 40) "mdl-20" "ann" s').1 ≡ returned (withdrawn "production" passing))
    × (s''.models ≡ update_first (is_model "mdl-20") (withdrawn "production") holding.models)
    × ((rollback_model (clock 50) "mdl-20" "ann" s'').0.models
        ≡ update_first (is_model "mdl-20") (reinstated "production") holding.models)
unfolding model_code
promote_model-rollback_model_example =
    promote_model-rollback_model (clock 30) "mdl-20" "production" "ann" holding passing refl refl
      refl (clock 40) (clock 50) "ann" refl
