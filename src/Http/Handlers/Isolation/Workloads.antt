-- ===== src/Http/Handlers/Isolation/Workloads.antt =====
-- The handlers of agents and functions.
use mlops.Base.{◌≡◌, String, true, some, inl, inr, Bool-cases, Option-cases}
use mlops.Base.First.{find_first}
use mlops.Base.Int.{ℤ}
use mlops.Api.Pipeline.{DeployFunctionRequest}
use mlops.Api.Agent.{Agent, DeployAgentRequest}
use mlops.Auth.{Principal}
use mlops.Store.{State}
use mlops.Store.Agents.{is_agent}
use mlops.Store.Functions.{is_function, validate_function_request}
use mlops.Http.Access.{
  allowed_project_ids, permits, project_allowed, agent_allowed, function_allowed,
}
use mlops.Http.Handlers.{Request, Env, Body, OpenFaas, principal, actor}
use mlops.Http.Handlers.Agents.{deploy_agent_request, handle_agent_traffic}
use mlops.Http.Handlers.Functions.{
  handle_deploy_function, deploy_function_request, with_project, function_quota, deployment_of,
  handle_delete_function,
}
use mlops.Http.Handlers.Isolation.{IsIsolated, IsIsolated-refl}
use mlops.Http.Handlers.Isolation.Resources.{
  deploy_agent-IsIsolated, set_agent_traffic-IsIsolated, upsert_function-IsIsolated,
  delete_function-IsIsolated,
}
use mlops.Store.Agents.{deploy_agent, set_agent_traffic}
use mlops.Store.Functions.{upsert_function, delete_function}
use mlops.Http.Handlers.Isolation.Dispatch.{
  answer-IsIsolated, answer_deleted-IsIsolated, decode-IsIsolated,
}

module _ (request : Request) where
  abbrev me : Principal
  me = principal request

  agent_allowed-found :
      (s : State) (agent_id : String)
      → agent_allowed s me agent_id ≡ true
      → (found : Agent) × (find_first (is_agent agent_id) s.agents ≡ some found)
        × (permits (allowed_project_ids s me) found.project_id ≡ true)
  unfolding agent_allowed project_allowed
  agent_allowed-found s agent_id h = elim (Option-cases (find_first (is_agent agent_id) s.agents)) [
    | inl e ↦ let h' = rw (e, agent_allowed) at h in cc
    | inr (found, e) ↦ (found, e, rw (e, agent_allowed) at h)
  ]

  pub deploy_agent_request-IsIsolated :
      (env : Env) (req : DeployAgentRequest) (s : State)
      → IsIsolated me s (deploy_agent_request env request req s).0
  unfolding deploy_agent_request project_allowed
  deploy_agent_request-IsIsolated env req s =
      elim (Bool-cases (permits (allowed_project_ids s me) req.project_id)) [
        | inr shut ↦ rw shut (IsIsolated-refl me s)
        | inl fine ↦ rw fine (
            answer-IsIsolated me s env 202 (deploy_agent env.clock req (actor request) s)
              (deploy_agent-IsIsolated me s env.clock req (actor request) fine))
      ]

  pub handle_agent_traffic-IsIsolated :
      (env : Env) (agent_id : String) (body : Body ℤ) (s : State)
      → IsIsolated me s (handle_agent_traffic env request agent_id body s).0
  unfolding handle_agent_traffic
  handle_agent_traffic-IsIsolated env agent_id body s =
      elim (Bool-cases (agent_allowed s me agent_id)) [
        | inr shut ↦ rw shut (IsIsolated-refl me s)
        | inl fine ↦
            let (found, e, h) = agent_allowed-found s agent_id fine in
            rw fine (
              decode-IsIsolated me s env body _ λ weight.
                answer-IsIsolated me s env 200
                  (set_agent_traffic env.clock agent_id weight (actor request) s)
                  (set_agent_traffic-IsIsolated me s env.clock agent_id weight (actor request) e h))
      ]

  deploy_function_request-IsIsolated :
      (env : Env) (client : OpenFaas) (req : DeployFunctionRequest) (s : State)
      → IsIsolated me s (deploy_function_request env request client req s).0
  unfolding deploy_function_request project_allowed
  deploy_function_request-IsIsolated env client req s =
      elim (Bool-cases (permits (allowed_project_ids s me) req.project_id)) [
        | inr shut ↦ rw shut (IsIsolated-refl me s)
        | inl fine ↦ elim (Option-cases (validate_function_request req)) [
          | inr (_, a) ↦ rw (fine, a, deploy_function_request) (IsIsolated-refl me s)
          | inl a ↦ elim (Option-cases (function_quota env request req.name s)) [
            | inr (_, b) ↦ rw (fine, a, b, deploy_function_request) (IsIsolated-refl me s)
            | inl b ↦ elim (Option-cases (client.deploy (deployment_of req))) [
              | inr (_, c) ↦ rw (fine, a, b, c, deploy_function_request) (IsIsolated-refl me s)
              | inl c ↦
                  rw (fine, a, b, c, deploy_function_request)
                    (answer-IsIsolated me s env 202
                      (upsert_function env.clock req me.subject (actor request) s)
                      (upsert_function-IsIsolated me s env.clock req me.subject (actor request)
                        fine))
            ]
          ]
        ]
      ]

  pub handle_deploy_function-IsIsolated :
      (env : Env) (body : Body DeployFunctionRequest) (s : State)
      → IsIsolated me s (handle_deploy_function env request body s).0
  unfolding handle_deploy_function
  handle_deploy_function-IsIsolated env body s = elim (Option-cases env.openfaas) [
    | inl o ↦ rw (o, handle_deploy_function) (IsIsolated-refl me s)
    | inr (client, o) ↦
        rw (o, handle_deploy_function)
          (decode-IsIsolated me s env body _
            λ req. deploy_function_request-IsIsolated env client (with_project request req) s)
  ]

  delete_function-allowed :
      (env : Env) (name who : String) (s : State)
      → function_allowed s me name ≡ true
      → IsIsolated me s (delete_function env.clock name who s).0
  unfolding function_allowed project_allowed delete_function
  delete_function-allowed env name who s h =
      elim (Option-cases (find_first (is_function name) s.functions)) [
        | inl e ↦ rw (e, delete_function) (IsIsolated-refl me s)
        | inr (found, e) ↦
            delete_function-IsIsolated me s env.clock name who e (rw (e, function_allowed) at h)
      ]

  pub handle_delete_function-IsIsolated :
      (env : Env) (name : String) (s : State)
      → IsIsolated me s (handle_delete_function env request name s).0
  unfolding handle_delete_function
  handle_delete_function-IsIsolated env name s = elim (Bool-cases (function_allowed s me name)) [
    | inr shut ↦ rw shut (IsIsolated-refl me s)
    | inl fine ↦ elim (Option-cases env.openfaas) [
      | inl o ↦ rw (fine, o, handle_delete_function) (IsIsolated-refl me s)
      | inr (client, o) ↦ elim (Option-cases (client.delete name)) [
        | inr (_, c) ↦ rw (fine, o, c, handle_delete_function) (IsIsolated-refl me s)
        | inl c ↦
            rw (fine, o, c, handle_delete_function)
              (answer_deleted-IsIsolated me s env (delete_function env.clock name (actor request) s)
                (delete_function-allowed env name (actor request) s fine))
      ]
    ]
  ]
