-- ===== src/Http/Handlers/Models.antt =====
-- go/internal/httpapi/server.go: the handlers of models. A request to the serving manager goes through
-- Go's net/http, which the environment stands for.
use mlops.Base.{String, List, none, some, not, inl, inr, leb, if◌then◌else◌, ◌⊎◌}
use mlops.Base.Int.{ℤ}
use mlops.Api.Model.{Model, RegisterModelRequest}
use mlops.Store.{State, Outcome, refused, returned}
use mlops.Store.Models.{
  register_model, promote_model, deploy_model, set_model_endpoint, rollback_model,
}
use mlops.Http.Access.{allowed_project_ids, project_allowed, model_allowed, filter_models}
use mlops.Http.Handlers.{
  Request, Env, Served, Body, text_of, Reply, problem, json, principal, actor, commit, answer,
  write_mutation, decode,
}
use Prim.Native.String.{◌++◌}

-- `requestServing`, by what `client.Do` gives for the model.
unfoldable pub request_serving : (Model → String ⊎ Served) → Model → String ⊎ String
request_serving send model = elim (send model) [
  | inl e ↦ inl e
  | inr response ↦
      if leb 300 response.status
      then inl ("serving manager: " ++ response.said)
      else response.endpoint
]

-- The end of `deployModel`, where the model has been marked as deploying.
unfoldable pub serve_model : Env → Model → State → State × Reply Model
serve_model env item s = elim env.serving [
  | none ↦ (s, json 202 item)
  | some send ↦ elim (request_serving send item) [
    | inl e ↦
        ((set_model_endpoint item.id "" "failed" s).0, problem 502 "serving_failed" (text_of e))
    | inr endpoint ↦
        let updated = commit env (set_model_endpoint item.id endpoint "serving" s) in
        (updated.0, json 202 (elim updated.1 [ refused _ ↦ item | returned value ↦ value ]))
  ]
]

-- What `deployModel` answers to the result of `DeployModel`.
unfoldable pub answer_deployed : Env → State × Outcome Model → State × Reply Model
answer_deployed env (s, refused e) = (s, write_mutation (refused e) 202)
answer_deployed env (s, returned item) = serve_model env item s

module _ (env : Env) (request : Request) where
  -- `models`
  unfoldable handle_models : State → Reply (List Model)
  handle_models s = json 200 (filter_models s.models (allowed_project_ids s (principal request)))

  -- What `registerModel` does with a request that it has read.
  unfoldable pub register_request : RegisterModelRequest → State → State × Reply Model
  register_request req s =
      if not (project_allowed s (principal request) req.project_id)
      then (s, problem 403 "access_denied" (text_of "project is not assigned to this user"))
      else answer env 201 (register_model env.clock req (actor request) s)

  -- `registerModel`
  unfoldable pub handle_register_model : Body RegisterModelRequest → State → State × Reply Model
  handle_register_model body s = decode body s λ req. register_request req s

  -- `promoteModel`. The body is the stage that it asks for.
  unfoldable pub handle_promote_model : String → Body String → State → State × Reply Model
  handle_promote_model model_id body s =
      if not (model_allowed s (principal request) model_id)
      then (s, problem 404 "not_found" (text_of "model not found"))
      else decode body s
          λ stage. answer env 200 (promote_model env.clock model_id stage (actor request) s)

  -- `deployModel`. The body is the weight of the canary.
  unfoldable pub handle_deploy_model : String → Body ℤ → State → State × Reply Model
  handle_deploy_model model_id body s =
      if not (model_allowed s (principal request) model_id)
      then (s, problem 404 "not_found" (text_of "model not found"))
      else decode body s λ weight.
        answer_deployed env (commit env (deploy_model env.clock model_id weight (actor request) s))

  -- `rollbackModel`. That it then removes the serving container changes nothing here.
  unfoldable pub handle_rollback_model : String → State → State × Reply Model
  handle_rollback_model model_id s =
      if not (model_allowed s (principal request) model_id)
      then (s, problem 404 "not_found" (text_of "model not found"))
      else answer env 200 (rollback_model env.clock model_id (actor request) s)
