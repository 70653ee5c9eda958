-- ===== src/Http/Handlers/Isolation/Calls.antt =====
-- Sequences of requests of one caller to the handlers that change what stands in projects.
use mlops.Base.{String, List, [], ◌∷◌, Bool-cases, inl, inr}
use mlops.Base.Int.{ℤ}
use mlops.Api.Pipeline.{SubmitPipelineRequest, DeployFunctionRequest}
use mlops.Api.Model.{RegisterModelRequest}
use mlops.Api.Agent.{DeployAgentRequest}
use mlops.Api.Project.{SetProjectRepositoryRequest}
use mlops.Auth.{Principal}
use mlops.Store.{State}
use mlops.Store.Projects.{Library}
use mlops.Store.Projects as Stored_projects
use mlops.Http.Access.{project_allowed, allowed_project_ids, permits}
use mlops.Http.Handlers.{Request, Env, Body, principal, actor}
use mlops.Http.Handlers.Runs.{handle_cancel_run, handle_retry_run, handle_submit_pipeline}
use mlops.Http.Handlers.Models.{
  handle_register_model, handle_promote_model, handle_deploy_model, handle_rollback_model,
}
use mlops.Http.Handlers.Agents.{handle_deploy_agent, handle_agent_traffic}
use mlops.Http.Handlers.Functions.{handle_deploy_function, handle_delete_function}
use mlops.Http.Handlers.Projects.{handle_set_project_repository}
use mlops.Http.Handlers.Isolation.{IsIsolated, IsIsolated-refl, IsIsolated-trans}
use mlops.Http.Handlers.Isolation.Dispatch.{answer-IsIsolated, decode-IsIsolated}
use mlops.Http.Handlers.Isolation.Projects.{set_project_repository-IsIsolated}
use mlops.Http.Handlers.Isolation.Runs.{
  handle_cancel_run-IsIsolated, handle_retry_run-IsIsolated, submit_request-IsIsolated,
}
use mlops.Http.Handlers.Isolation.Models.{
  register_request-IsIsolated, handle_promote_model-IsIsolated, handle_deploy_model-IsIsolated,
  handle_rollback_model-IsIsolated,
}
use mlops.Http.Handlers.Isolation.Workloads.{
  deploy_agent_request-IsIsolated, handle_agent_traffic-IsIsolated,
  handle_deploy_function-IsIsolated, handle_delete_function-IsIsolated,
}

-- A request to a handler that tests the project of what it changes, by the path and the body.
pub data Call : Type 0 where
  cancel_run retry_run rollback_model delete_function : String → Call
  submit_pipeline : Body SubmitPipelineRequest → Call
  register_model : Body RegisterModelRequest → Call
  promote_model : String → Body String → Call
  deploy_model agent_traffic : String → Body ℤ → Call
  deploy_agent : Body DeployAgentRequest → Call
  deploy_function : Body DeployFunctionRequest → Call
  set_project_repository : String → Body SetProjectRepositoryRequest → Call

module _ (lib : Library) (request : Request) where
  -- The state after a request, in an environment of its own.
  unfoldable pub serve : Env × Call → State → State
  serve (env, cancel_run run_id) s = (handle_cancel_run env request run_id s).0
  serve (env, retry_run run_id) s = (handle_retry_run env request run_id s).0
  serve (env, submit_pipeline body) s = (handle_submit_pipeline env request body s).0
  serve (env, register_model body) s = (handle_register_model env request body s).0
  serve (env, promote_model model_id body) s = (handle_promote_model env request model_id body s).0
  serve (env, deploy_model model_id body) s = (handle_deploy_model env request model_id body s).0
  serve (env, rollback_model model_id) s = (handle_rollback_model env request model_id s).0
  serve (env, deploy_agent body) s = (handle_deploy_agent env request body s).0
  serve (env, agent_traffic agent_id body) s = (handle_agent_traffic env request agent_id body s).0
  serve (env, deploy_function body) s = (handle_deploy_function env request body s).0
  serve (env, delete_function name) s = (handle_delete_function env request name s).0
  serve (env, set_project_repository project_id body) s =
      (handle_set_project_repository lib env request project_id body s).0

  -- The state after requests in turn.
  unfoldable pub serve_all : List (Env × Call) → State → State
  serve_all [] s = s
  serve_all (c ∷ cs) s = serve_all cs (serve c s)

  abbrev me : Principal
  me = principal request

  handle_set_project_repository-IsIsolated :
      (env : Env) (project_id : String) (body : Body SetProjectRepositoryRequest) (s : State)
      → IsIsolated me s (handle_set_project_repository lib env request project_id body s).0
  unfolding handle_set_project_repository project_allowed
  handle_set_project_repository-IsIsolated env project_id body s =
      elim (Bool-cases (permits (allowed_project_ids s me) project_id)) [
        | inr shut ↦ rw shut (IsIsolated-refl me s)
        | inl fine ↦ rw fine (
            decode-IsIsolated me s env body _ λ req.
              answer-IsIsolated me s env 200
                (Stored_projects.set_project_repository lib env.clock project_id req (actor request)
                  s)
                (set_project_repository-IsIsolated lib me s env.clock project_id req (actor request)
                  fine))
      ]

  serve-IsIsolated : (c : Env × Call) (s : State) → IsIsolated me s (serve c s)
  unfolding serve handle_submit_pipeline handle_register_model handle_deploy_agent
  serve-IsIsolated (env, cancel_run run_id) s = handle_cancel_run-IsIsolated request env run_id s
  serve-IsIsolated (env, retry_run run_id) s = handle_retry_run-IsIsolated request env run_id s
  serve-IsIsolated (env, submit_pipeline body) s =
      decode-IsIsolated me s env body _ λ req. submit_request-IsIsolated request env req s
  serve-IsIsolated (env, register_model body) s =
      decode-IsIsolated me s env body _ λ req. register_request-IsIsolated request env req s
  serve-IsIsolated (env, promote_model model_id body) s =
      handle_promote_model-IsIsolated request env model_id body s
  serve-IsIsolated (env, deploy_model model_id body) s =
      handle_deploy_model-IsIsolated request env model_id body s
  serve-IsIsolated (env, rollback_model model_id) s =
      handle_rollback_model-IsIsolated request env model_id s
  serve-IsIsolated (env, deploy_agent body) s =
      decode-IsIsolated me s env body _ λ req. deploy_agent_request-IsIsolated request env req s
  serve-IsIsolated (env, agent_traffic agent_id body) s =
      handle_agent_traffic-IsIsolated request env agent_id body s
  serve-IsIsolated (env, deploy_function body) s =
      handle_deploy_function-IsIsolated request env body s
  serve-IsIsolated (env, delete_function name) s =
      handle_delete_function-IsIsolated request env name s
  serve-IsIsolated (env, set_project_repository project_id body) s =
      handle_set_project_repository-IsIsolated env project_id body s

  -- Whatever a caller asks of the handlers that cancel, retry and submit runs, that register, promote,
  -- deploy and roll back models, that deploy agents and set their traffic, that deploy and delete
  -- functions, and that set the repository of a project, in whatever order, with whatever results of
  -- the file, of OpenFaaS, of Prefect and of the serving manager: the caller may access the same
  -- projects after it as before, and the runs, models, agents, functions and pipeline definitions of
  -- all other projects, and those projects, stay as they are, in their order.
  pub serve_all-IsIsolated :
      (calls : List (Env × Call)) (s : State) → IsIsolated (principal request) s (serve_all calls s)
  unfolding serve_all
  serve_all-IsIsolated [] s = IsIsolated-refl me s
  serve_all-IsIsolated (c ∷ cs) s =
      IsIsolated-trans me s (serve c s) (serve_all cs (serve c s)) (serve-IsIsolated c s)
        (serve_all-IsIsolated cs (serve c s))
