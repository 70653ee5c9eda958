-- ===== src/Api/Agent.antt =====
-- pkg/api/types.go: agents, their sessions and traces.
use mlops.Base.{String, List}
use mlops.Base.Int.{ℤ}
use mlops.Api.Value.{Time, Float64, Any}

pub record Agent : Type 0 where
  pub id : String
  pub project_id : String
  pub name : String
  pub version : String
  pub image : String
  pub graph_module : String
  pub llm_backend : String
  pub status : String
  pub replicas : ℤ
  pub canary_weight : ℤ
  pub tools : List String
  pub created_at : Time

pub record DeployAgentRequest : Type 0 where
  pub project_id : String
  pub name : String
  pub version : String
  pub image : String
  pub graph_module : String
  pub llm_backend : String
  pub replicas : ℤ
  pub tools : List String

pub record AgentSession : Type 0 where
  pub id : String
  pub agent_id : String
  pub user_id : String
  pub status : String
  pub current_node : String
  pub turns : ℤ
  pub input_tokens : ℤ
  pub output_tokens : ℤ
  pub cost_usd : Float64
  pub started_at : Time
  pub updated_at : Time

pub record AgentTrace : Type 0 where
  pub id : String
  pub agent_id : String
  pub session_id : String
  pub name : String
  pub status : String
  pub duration_ms : ℤ
  pub tokens : ℤ
  pub metadata : List (String × Any)
  pub created_at : Time

pub record RecordTraceRequest : Type 0 where
  pub agent_id : String
  pub session_id : String
  pub user_id : String
  pub name : String
  pub status : String
  pub current_node : String
  pub duration_ms : ℤ
  pub input_tokens : ℤ
  pub output_tokens : ℤ
  pub cost_usd : Float64
  pub metadata : List (String × Any)
