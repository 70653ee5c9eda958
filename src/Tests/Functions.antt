-- ===== src/Tests/Functions.antt =====
-- A function that is deployed twice by its project and once by another.
use mlops.Base.{◌≡◌, refl, ◌+◌, String, List, [], ◌∷◌, some, map}
use mlops.Base.First.{find_first}
use mlops.Base.Int.{pos}
use mlops.Base.Text.{trim_space, has_part, byte_length, count_fields, split}
use mlops.Api.Pipeline.{Function, DeployFunctionRequest}
use mlops.Store.{State, zero_state, Clock, record_event, has_project}
use mlops.Store.Seed.{new}
use mlops.Store.Definitions.{resource_quantity}
use mlops.Store.Functions.{
  is_function_name, value_at, validate_function_request, is_function, redeploy, deployed,
  upsert_function, delete_function,
}
use mlops.Store.Functions.Owners.{Deployment, deploy_all, KeepsOwner, deploy_all-KeepsOwner}

abbrev clock : Clock
clock n = 80 + n

abbrev request : String → DeployFunctionRequest
request image = record {
  project_id = "prj-demo";
  name = "score-loan";
  image = image;
  env_vars = [];
  labels = [];
  annotations = ("topic", "cron-function") ∷ ("schedule", "0 3 * * *;5 4 * * 1") ∷ [];
  cpu = "500m";
  memory = "";
}

abbrev deployment : String → String → Deployment
deployment image owner = record { clock = clock; req = request image; owner = owner; actor = owner }

function_code : Unit {0}
unfolding deploy_all upsert_function delete_function validate_function_request is_function_name
    value_at redeploy deployed resource_quantity record_event has_project trim_space has_part
    byte_length count_fields split new
function_code = tt

abbrev deployed_once : State
deployed_once = deploy_all (deployment "img:1" "ann" ∷ []) (new 5 zero_state)

abbrev function : Function
function = record {
  name = "score-loan";
  project_id = "prj-demo";
  image = "img:1";
  status = "deployed";
  replicas = pos 0;
  env_vars = [];
  labels = [];
  annotations = ("topic", "cron-function") ∷ ("schedule", "0 3 * * *;5 4 * * 1") ∷ [];
  cpu = "500m";
  memory = "";
  owner_subject = "ann";
  created_at = 80;
  updated_at = 80;
}

once_found : find_first (is_function "score-loan") deployed_once.functions ≡ some function
unfolding function_code
once_found = refl

abbrev later : List Deployment
later = deployment "img:2" "eve" ∷ deployment "" "eve" ∷ []

later_images :
    map {B = String × String}
      (λ f. (f.image, f.owner_subject))
      (deploy_all later deployed_once).functions
    ≡ ("img:2", "ann") ∷ []
unfolding function_code
later_images = refl

deleted : (delete_function clock "score-loan" "ann" deployed_once).0.functions ≡ []
unfolding function_code
deleted = refl

deploy_all-KeepsOwner_example :
    KeepsOwner "score-loan" function (deploy_all later deployed_once).functions
deploy_all-KeepsOwner_example =
    deploy_all-KeepsOwner later "score-loan" function deployed_once once_found
