-- ===== src/Store/Functions.antt =====
-- go/internal/store/workloads.go: serverless functions.
pub mod Owners
use Prim.Native.Char.{code}
use mlops.Base.{
  ℕ, suc, String, Bool, true, false, List, [], ◌∷◌, Option, none, some, ◌==◌, ◌||◌, ◌&&◌, not, any,
  leb, eqb, if◌then◌else◌,
}
use mlops.Base.First.{find_first, update_first, remove_first}
use mlops.Base.Int.{pos}
use mlops.Base.Slug.{is_plain}
use mlops.Base.Text.{is_empty, trim_space, has_part, byte_length, count_fields, split}
use mlops.Api.Value.{Time}
use mlops.Api.Pipeline.{Function, DeployFunctionRequest}
use mlops.Store.{
  State, Outcome, refused, returned, not_found, conflict, message, Clock, record_event, has_project,
}
use mlops.Store.Definitions.{resource_quantity}

-- Plain characters and dashes, with a plain character at the end.
label_tail : String → Bool
label_tail String.[] = true
label_tail (String.◌∷◌ c String.[]) = is_plain (code c)
label_tail (String.◌∷◌ c (String.◌∷◌ d s)) =
    (is_plain (code c) || eqb (code c) 45) && label_tail (String.◌∷◌ d s)

-- `functionName`, the pattern `^[a-z0-9](?:[a-z0-9-]{0,61}[a-z0-9])?$`
unfoldable pub is_function_name : String → Bool
unfolding label_tail
is_function_name String.[] = false
is_function_name (String.◌∷◌ c s) =
    is_plain (code c) && label_tail s && leb (byte_length (String.◌∷◌ c s)) 63

-- `m[key]`, the empty text where the key is missing.
unfoldable pub value_at : String → List (String × String) → String
value_at key [] = ""
value_at key ((k, value) ∷ m) = if k == key then value else value_at key m

-- `ValidateFunctionRequest`
unfoldable pub validate_function_request : DeployFunctionRequest → Option String
validate_function_request req =
    let mode = value_at "com.nexus.invocation" req.annotations in
    let schedule = trim_space (value_at "schedule" req.annotations) in
    if is_empty req.project_id || is_empty (trim_space req.name) || is_empty (trim_space req.image)
    then some "project_id, name and image are required"
    else if not (is_function_name req.name)
    then some "function name must be a lowercase DNS label"
    else if not (is_empty req.cpu) && not (resource_quantity req.cpu)
    then some "CPU must be a quantity such as 500m or 2"
    else if not (is_empty req.memory) && not (resource_quantity req.memory)
    then some "memory must be a quantity such as 512Mi or 2Gi"
    else if not (is_empty mode) && not (mode == "sync") && not (mode == "async")
    then some "com.nexus.invocation must be sync or async"
    else if is_empty schedule
    then none
    else if not (has_part (value_at "topic" req.annotations) "cron-function")
    then some "scheduled functions must subscribe to the cron-function topic"
    else if any (λ expression. not (eqb (count_fields expression) 5)) (split 59 schedule)
    then some "schedule must contain five-field cron expressions"
    else none

abbrev pub is_function : String → Function → Bool
is_function name fn = fn.name == name

-- What `UpsertFunction` does to the function that it finds.
unfoldable pub redeploy : Time → DeployFunctionRequest → Function → Function
redeploy now req fn = record fn {
  image = req.image;
  env_vars = req.env_vars;
  labels = req.labels;
  annotations = req.annotations;
  cpu = req.cpu;
  memory = req.memory;
  status = "deployed";
  updated_at = now;
}

-- The function that `UpsertFunction` makes.
unfoldable pub deployed : Time → DeployFunctionRequest → String → Function
deployed now req owner = record {
  name = req.name;
  project_id = req.project_id;
  image = req.image;
  status = "deployed";
  replicas = pos 0;
  env_vars = req.env_vars;
  labels = req.labels;
  annotations = req.annotations;
  cpu = req.cpu;
  memory = req.memory;
  owner_subject = owner;
  created_at = now;
  updated_at = now;
}

-- `UpsertFunction`
unfoldable pub upsert_function :
    Clock → DeployFunctionRequest → String → String → State → State × Outcome Function
upsert_function clock req owner actor s = elim (validate_function_request req) [
  | some e ↦ (s, refused (message e))
  | none ↦
      if not (has_project s.projects req.project_id)
      then (s, refused not_found)
      else elim (find_first (is_function req.name) s.functions) [
        | some found ↦
            if not (found.project_id == req.project_id)
            then (s, refused conflict)
            else let change = redeploy (clock 0) req in
              (
                record_event (clock 1) (clock 2) "function.updated" "function" found.name actor []
                    (record s {
                      functions = update_first (is_function req.name) change s.functions;
                    }),
                returned (change found),
              )
        | none ↦
            let fn = deployed (clock 0) req owner in
            (
              record_event (clock 1) (clock 2) "function.deployed" "function" fn.name actor []
                  (record s { functions = fn ∷ s.functions }),
              returned fn,
            )
      ]
]

-- `DeleteFunction`
unfoldable pub delete_function : Clock → String → String → State → State × Outcome (Unit {0})
delete_function clock name actor s = elim (find_first (is_function name) s.functions) [
  | none ↦ (s, refused not_found)
  | some _ ↦ (
    record_event (clock 0) (clock 1) "function.deleted" "function" name actor []
        (record s { functions = remove_first (is_function name) s.functions }),
    returned tt,
  )
]
