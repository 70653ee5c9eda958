-- ===== src/Store/Agents.antt =====
-- go/internal/store/store.go: agents, and the traces and sessions that they report.
pub mod Turns
use mlops.Base.{
  ℕ, String, Bool, true, false, List, [], ◌∷◌, none, some, ◌==◌, ◌||◌, ◌&&◌, not, any, map,
  if◌then◌else◌,
}
use mlops.Base.First.{find_first, update_first}
use mlops.Base.Int.{ℤ, pos, ltb_ℤ, ◌+ℤ◌}
use mlops.Base.Text.{is_empty}
use mlops.Api.Value.{Time, Float64, int}
use mlops.Api.Agent.{Agent, DeployAgentRequest, AgentSession, AgentTrace, RecordTraceRequest}
use mlops.Store.{
  State, Outcome, refused, returned, not_found, message, Clock, id, record_event, has_project,
}

-- The agent that `DeployAgent` makes.
unfoldable pub new_agent : Clock → DeployAgentRequest → Agent
new_agent clock req = record {
  id = id "agt" (clock 0);
  project_id = req.project_id;
  name = req.name;
  version = req.version;
  image = req.image;
  graph_module = req.graph_module;
  llm_backend = req.llm_backend;
  status = "pending";
  replicas = if ltb_ℤ req.replicas (pos 1) then pos 1 else req.replicas;
  canary_weight = pos 0;
  tools = req.tools;
  created_at = clock 1;
}

-- `DeployAgent`
unfoldable pub deploy_agent : Clock → DeployAgentRequest → String → State → State × Outcome Agent
deploy_agent clock req actor s =
    if not (has_project s.projects req.project_id)
    then (s, refused not_found)
    else if is_empty req.name
        || is_empty req.version
        || is_empty req.image
        || is_empty req.graph_module
    then (s, refused (message "name, version, image and graph_module are required"))
    else let a = new_agent clock req in
      (
        record_event (clock 2) (clock 3) "agent.deployed" "agent" a.id actor []
            (record s { agents = a ∷ s.agents }),
        returned a,
      )

abbrev pub is_agent : String → Agent → Bool
is_agent agent_id a = a.id == agent_id

unfoldable pub weigh : ℤ → Agent → Agent
weigh weight a = record a { canary_weight = weight }

-- `SetAgentTraffic`
unfoldable pub set_agent_traffic : Clock → String → ℤ → String → State → State × Outcome Agent
set_agent_traffic clock agent_id weight actor s =
    if ltb_ℤ weight (pos 0) || ltb_ℤ (pos 100) weight
    then (s, refused (message "canary_weight must be between 0 and 100"))
    else elim (find_first (is_agent agent_id) s.agents) [
      | none ↦ (s, refused not_found)
      | some found ↦ (
        record_event (clock 0) (clock 1) "agent.traffic_updated" "agent" agent_id actor
            (("canary_weight", int weight) ∷ [])
            (record s { agents = update_first (is_agent agent_id) (weigh weight) s.agents }),
        returned (weigh weight found),
      )
    ]

-- The trace that `RecordTrace` makes.
unfoldable pub new_trace : Clock → RecordTraceRequest → AgentTrace
new_trace clock req = record {
  id = id "trace" (clock 1);
  agent_id = req.agent_id;
  session_id = req.session_id;
  name = req.name;
  status = req.status;
  duration_ms = req.duration_ms;
  tokens = req.input_tokens +ℤ req.output_tokens;
  metadata = req.metadata;
  created_at = clock 0;
}

abbrev pub is_session : String → String → AgentSession → Bool
is_session agent_id session_id session = session.id == session_id && session.agent_id == agent_id

-- What the loop of `RecordTrace` does to a session of the agent with that id.
unfoldable pub continue_session :
    (Float64 → Float64 → Float64) → Time → RecordTraceRequest → AgentSession → AgentSession
continue_session add now req session = record session {
  current_node = req.current_node;
  status = req.status;
  updated_at = now;
  turns = session.turns +ℤ pos 1;
  input_tokens = session.input_tokens +ℤ req.input_tokens;
  output_tokens = session.output_tokens +ℤ req.output_tokens;
  cost_usd = add session.cost_usd req.cost_usd;
}

-- The session that `RecordTrace` starts.
unfoldable pub start_session : Time → RecordTraceRequest → AgentSession
start_session now req = record {
  id = req.session_id;
  agent_id = req.agent_id;
  user_id = req.user_id;
  status = req.status;
  current_node = req.current_node;
  turns = pos 1;
  input_tokens = req.input_tokens;
  output_tokens = req.output_tokens;
  cost_usd = req.cost_usd;
  started_at = now;
  updated_at = now;
}

-- The sessions after `RecordTrace`. The loop goes on after a session that it finds.
unfoldable pub sessions_after :
    (Float64 → Float64 → Float64)
    → Time
    → RecordTraceRequest
    → List AgentSession
    → List AgentSession
sessions_after add now req sessions =
    if any (is_session req.agent_id req.session_id) sessions
    then map
        (λ session.
          if is_session req.agent_id req.session_id session
          then continue_session add now req session
          else session)
        sessions
    else start_session now req ∷ sessions

-- `RecordTrace`, with `add` for the addition of two floats.
unfoldable pub record_trace :
    (Float64 → Float64 → Float64) → Clock → RecordTraceRequest → State → State × Outcome AgentTrace
record_trace add clock req s =
    if is_empty req.agent_id || is_empty req.session_id
    then (s, refused (message "agent_id and session_id are required"))
    else let trace = new_trace clock req in
      (
        record s {
          traces = trace ∷ s.traces;
          sessions = sessions_after add (clock 0) req s.sessions;
        },
        returned trace,
      )
