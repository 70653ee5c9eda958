-- ===== src/Http/Handlers/Functions.antt =====
-- go/internal/httpapi/server.go: the handlers of functions and of pipeline definitions.
pub mod Reach
use mlops.Base.{
  String, Bool, List, [], ◌∷◌, ◌++◌ as append, Option, none, some, ◌==◌, ◌&&◌, not, any,
  if◌then◌else◌,
}
use mlops.Base.First.{find_first}
use mlops.Base.Text.{is_empty}
use mlops.Api.Pipeline.{
  Function, DeployFunctionRequest, PipelineJob, PipelineDefinition, UpsertPipelineDefinitionRequest,
}
use mlops.Store.{State, not_found, refused, returned}
use mlops.Store.Functions.{validate_function_request, upsert_function, delete_function}
use mlops.Store.Definitions.{upsert_pipeline_definition}
use mlops.Store.Runs.{pipeline_definition_from}
use mlops.Http.Access.{
  Denial, privileged, allowed_project_ids, project_allowed, function_allowed,
  enforce_function_quota, filter_pipeline_definitions,
}
use mlops.Http.Handlers.{
  Request, Env, OpenFaas, Deployment, Body, text_of, denied_by, Reply, problem, json, principal,
  actor, answer, answer_deleted, write_mutation, decode,
}
use Prim.Native.String.{◌++◌}

-- A limit of a deployment, where the request gives one.
abbrev limit : String → String → List (String × String)
limit key value = if is_empty value then [] else (key, value) ∷ []

-- The deployment of a request. CPU and memory are limits and requests alike.
unfoldable pub deployment_of : DeployFunctionRequest → Deployment
deployment_of req = record {
  name = req.name;
  image = req.image;
  env_vars = req.env_vars;
  labels = req.labels;
  annotations = req.annotations;
  limits = append (limit "cpu" req.cpu) (limit "memory" req.memory);
  requests = append (limit "cpu" req.cpu) (limit "memory" req.memory);
}

-- The project of a request of `deployFunction`: that of a privileged caller has a default.
unfoldable pub with_project : Request → DeployFunctionRequest → DeployFunctionRequest
with_project request req =
    if is_empty req.project_id && privileged (principal request)
    then record req { project_id = "prj-demo" }
    else req

-- The job of a function that the project has not deployed.
abbrev is_undeployed : String → List Function → PipelineJob → Bool
is_undeployed project_id functions job =
    job.kind == "function"
    && not (any (λ f. f.project_id == project_id && f.name == job.function) functions)

module _ (env : Env) (request : Request) where
  -- The quota check of `deployFunction`, made for a function that the caller may not access.
  unfoldable pub function_quota : String → State → Option Denial
  function_quota name s =
      if function_allowed s (principal request) name
      then none
      else enforce_function_quota s (principal request)

  -- What `deployFunction` does with a request whose project is set.
  unfoldable pub deploy_function_request :
      OpenFaas → DeployFunctionRequest → State → State × Reply Function
  deploy_function_request client req s =
      if not (project_allowed s (principal request) req.project_id)
      then (s, problem 403 "access_denied" (text_of "project is not assigned to this user"))
      else elim (validate_function_request req) [
        | some e ↦ (s, problem 400 "invalid_request" (text_of e))
        | none ↦ elim (function_quota req.name s) [
          | some denial ↦ (s, problem 403 "quota_exceeded" (denied_by denial))
          | none ↦ elim (client.deploy (deployment_of req)) [
            | some e ↦ (s, problem 502 "deploy_failed" (text_of e))
            | none ↦
                answer env 202
                  (upsert_function env.clock req (principal request).subject (actor request) s)
          ]
        ]
      ]

  -- `deployFunction`
  unfoldable pub handle_deploy_function :
      Body DeployFunctionRequest → State → State × Reply Function
  handle_deploy_function body s = elim env.openfaas [
    | none ↦ (s, problem 409 "not_configured" (text_of "OPENFAAS_URL is not configured"))
    | some client ↦ decode body s λ req. deploy_function_request client (with_project request req) s
  ]

  -- `deleteFunction`
  unfoldable pub handle_delete_function : String → State → State × Reply (Unit {0})
  handle_delete_function name s =
      if not (function_allowed s (principal request) name)
      then (s, problem 404 "not_found" (text_of "function not found"))
      else elim env.openfaas [
        | none ↦ (s, problem 409 "not_configured" (text_of "OPENFAAS_URL is not configured"))
        | some client ↦ elim (client.delete name) [
          | some e ↦ (s, problem 502 "delete_failed" (text_of e))
          | none ↦ answer_deleted env (delete_function env.clock name (actor request) s)
        ]
      ]

  -- `pipelineDefinitions`
  unfoldable handle_pipeline_definitions : State → Reply (List PipelineDefinition)
  handle_pipeline_definitions s =
      json 200
        (filter_pipeline_definitions s.definitions (allowed_project_ids s (principal request)))

  -- `pipelineDefinition`
  unfoldable handle_pipeline_definition : String → State → Reply PipelineDefinition
  handle_pipeline_definition definition_id s =
      elim (pipeline_definition_from s.definitions definition_id) [
        | none ↦ write_mutation (refused not_found) 200
        | some item ↦
            if project_allowed s (principal request) item.project_id
            then write_mutation (returned item) 200
            else write_mutation (refused not_found) 200
      ]

  -- What `upsertPipelineDefinition` does with a request that it has read. `order` is the order in
  -- which the store's check ranges over a Go map.
  unfoldable pub define_request :
      List String
      → String
      → UpsertPipelineDefinitionRequest
      → State
      → State × Reply PipelineDefinition
  define_request order definition_id req s =
      if not (project_allowed s (principal request) req.project_id)
      then (s, problem 403 "access_denied" (text_of "project is not assigned to this user"))
      else elim (find_first (is_undeployed req.project_id s.functions) req.jobs) [
        | some job ↦ (
          s,
          problem 422 "validation_error" (
              text_of ("function job references an undeployed project function: " ++ job.function)),
        )
        | none ↦
            answer env (if is_empty definition_id then 201 else 200)
              (upsert_pipeline_definition env.clock order definition_id req (actor request) s)
      ]

  -- `upsertPipelineDefinition`, with the empty id where the path has none.
  unfoldable handle_upsert_pipeline_definition :
      List String
      → String
      → Body UpsertPipelineDefinitionRequest
      → State
      → State × Reply PipelineDefinition
  handle_upsert_pipeline_definition order definition_id body s =
      decode body s λ req. define_request order definition_id req s
