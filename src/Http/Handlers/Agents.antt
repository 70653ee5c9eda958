-- ===== src/Http/Handlers/Agents.antt =====
-- go/internal/httpapi/server.go: the handlers of agents, of their sessions and traces, and of what
-- the agents use.
use mlops.Base.{
  ℕ, String, List, [], ◌∷◌, map, ◌==◌, ◌||◌, not, filter, count, length, if◌then◌else◌,
}
use mlops.Base.Int.{ℤ, pos, ◌+ℤ◌}
use mlops.Base.Text.{is_empty}
use mlops.Api.Value.{Float64}
use mlops.Api.Agent.{Agent, AgentSession, AgentTrace, DeployAgentRequest, RecordTraceRequest}
use mlops.Store.{State}
use mlops.Store.Agents.{deploy_agent, set_agent_traffic, record_trace}
use mlops.Http.Access.{allowed_project_ids, project_allowed, agent_allowed, filter_agents}
use mlops.Http.Handlers.{
  Request, Env, Body, text_of, Reply, problem, json, principal, actor, answer, decode,
}

-- `AgentUsage`
pub record AgentUsage : Type 0 where
  pub sessions : ℕ
  pub active : ℕ
  pub input_tokens : ℤ
  pub output_tokens : ℤ
  pub cost_usd : Float64

-- `AgentSessions`, `AgentTraces`
unfoldable agent_sessions : String → State → List AgentSession
agent_sessions agent_id s = filter (λ v. v.agent_id == agent_id || is_empty agent_id) s.sessions

unfoldable agent_traces : String → State → List AgentTrace
agent_traces agent_id s = filter (λ v. v.agent_id == agent_id || is_empty agent_id) s.traces

-- `usage.InputTokens += ...`, in the order of the sessions.
abbrev sum_from : ℤ → List ℤ → ℤ
sum_from total [] = total
sum_from total (n ∷ ns) = sum_from (total +ℤ n) ns

-- `usage.CostUSD += session.CostUSD`, in the order of the sessions.
abbrev sum_costs : (Float64 → Float64 → Float64) → Float64 → List AgentSession → Float64
sum_costs add total [] = total
sum_costs add total (v ∷ vs) = sum_costs add (add total v.cost_usd) vs

-- The loop of `agentUsage`, with `add` for the addition of two floats. The bits of 0.0 are 0.
unfoldable usage_of : (Float64 → Float64 → Float64) → List AgentSession → AgentUsage
usage_of add sessions = record {
  sessions = length sessions;
  active = count (λ v. v.status == "running") sessions;
  input_tokens = sum_from (pos 0) (map (λ v. v.input_tokens) sessions);
  output_tokens = sum_from (pos 0) (map (λ v. v.output_tokens) sessions);
  cost_usd = sum_costs add 0 sessions;
}

module _ (env : Env) (request : Request) where
  -- `agents`
  unfoldable handle_agents : State → Reply (List Agent)
  handle_agents s = json 200 (filter_agents s.agents (allowed_project_ids s (principal request)))

  -- What `deployAgent` does with a request that it has read.
  unfoldable pub deploy_agent_request : DeployAgentRequest → State → State × Reply Agent
  deploy_agent_request req s =
      if not (project_allowed s (principal request) req.project_id)
      then (s, problem 403 "access_denied" (text_of "project is not assigned to this user"))
      else answer env 202 (deploy_agent env.clock req (actor request) s)

  -- `deployAgent`
  unfoldable pub handle_deploy_agent : Body DeployAgentRequest → State → State × Reply Agent
  handle_deploy_agent body s = decode body s λ req. deploy_agent_request req s

  -- `agentTraffic`. The body is the weight of the canary.
  unfoldable pub handle_agent_traffic : String → Body ℤ → State → State × Reply Agent
  handle_agent_traffic agent_id body s =
      if not (agent_allowed s (principal request) agent_id)
      then (s, problem 404 "not_found" (text_of "agent not found"))
      else decode body s
          λ weight. answer env 200 (set_agent_traffic env.clock agent_id weight (actor request) s)

  -- `agentSessions`
  unfoldable handle_agent_sessions : String → State → Reply (List AgentSession)
  handle_agent_sessions agent_id s =
      if not (agent_allowed s (principal request) agent_id)
      then problem 404 "not_found" (text_of "agent not found")
      else json 200 (agent_sessions agent_id s)

  -- `agentTraces`
  unfoldable handle_agent_traces : String → State → Reply (List AgentTrace)
  handle_agent_traces agent_id s =
      if not (agent_allowed s (principal request) agent_id)
      then problem 404 "not_found" (text_of "agent not found")
      else json 200 (agent_traces agent_id s)

  -- `agentUsage`
  unfoldable handle_agent_usage : (Float64 → Float64 → Float64) → String → State → Reply AgentUsage
  handle_agent_usage add agent_id s =
      if not (agent_allowed s (principal request) agent_id)
      then problem 404 "not_found" (text_of "agent not found")
      else json 200 (usage_of add (agent_sessions agent_id s))

  -- `recordTrace`
  unfoldable handle_record_trace :
      (Float64 → Float64 → Float64) → Body RecordTraceRequest → State → State × Reply AgentTrace
  handle_record_trace add body s =
      decode body s λ req. answer env 201 (record_trace add env.clock req s)
