-- ===== src/Tests/Agents.antt =====
-- Traces of two sessions of an agent, and a feature view that is applied twice.
use mlops.Base.{◌≡◌, refl, ◌+◌, arith, String, List, [], ◌∷◌, some, map}
use mlops.Base.Decimal.{decimal}
use mlops.Base.First.{find_first}
use mlops.Base.Int.{ℤ, pos, ◌+ℤ◌}
use mlops.Api.Agent.{RecordTraceRequest, DeployAgentRequest}
use mlops.Api.Model.{FeatureView, ApplyFeatureViewRequest}
use mlops.Store.{State, zero_state, Clock, id, record_event, has_project}
use mlops.Store.Seed.{new}
use mlops.Store.Agents.{
  new_agent, deploy_agent, weigh, set_agent_traffic, new_trace, continue_session, start_session,
  sessions_after, record_trace,
}
use mlops.Store.Agents.Turns.{Reported, CountsTurns, record_all, record_all-CountsTurns}
use mlops.Store.Features.{
  is_view, reapply, new_view, apply_feature_view, materialize, report_materialization,
}
use mlops.Store.Features.Names.{ViewsDiffer}

abbrev clock : Clock
clock n = 30 + n

abbrev trace : String → RecordTraceRequest
trace session_id = record {
  agent_id = "agt-1";
  session_id = session_id;
  user_id = "ann";
  name = "step";
  status = "active";
  current_node = "plan";
  duration_ms = pos 5;
  input_tokens = pos 7;
  output_tokens = pos 3;
  cost_usd = 1;
  metadata = [];
}

abbrev trace_report : String → Reported
trace_report session_id = record { clock = clock; req = trace session_id }

abbrev reports : List Reported
reports = trace_report "s1" ∷ trace_report "s2" ∷ trace_report "s1" ∷ trace_report "" ∷ []

agent_code : Unit {0}
unfolding record_all record_trace new_trace continue_session start_session sessions_after
    deploy_agent new_agent weigh set_agent_traffic has_project record_event id decimal new
agent_code = tt

reports_counted :
    map {B = String × (ℤ × ℤ)}
      (λ x. (x.id, (x.turns, x.input_tokens)))
      (record_all ◌+◌ reports zero_state).sessions
    ≡ ("s2", (pos 1, pos 7)) ∷ ("s1", (pos 2, pos 14)) ∷ []
unfolding agent_code ◌+ℤ◌
reports_counted = refl

record_all-CountsTurns_example :
    CountsTurns
      (record_all ◌+◌ reports zero_state).sessions
      (record_all ◌+◌ reports zero_state).traces
record_all-CountsTurns_example =
    record_all-CountsTurns ◌+◌ reports zero_state (λ a k. (tt, λ h. refl))

abbrev agent : DeployAgentRequest
agent = record {
  project_id = "prj-demo";
  name = "helper";
  version = "1";
  image = "img";
  graph_module = "graph";
  llm_backend = "";
  replicas = pos 0;
  tools = [];
}

agent_weighed :
    map {B = String × (ℤ × ℤ)}
      (λ a. (a.id, (a.replicas, a.canary_weight)))
      (set_agent_traffic clock "agt-30"
        (pos 100)
        "ann"
        (set_agent_traffic clock "agt-30"
          (pos 101)
          "ann"
          (deploy_agent clock agent "ann" (new 5 zero_state)).0).0).0.agents
    ≡ ("agt-30", (pos 1, pos 100)) ∷ []
unfolding agent_code ◌+ℤ◌
agent_weighed = refl

abbrev view_request : String → ApplyFeatureViewRequest
view_request entity = record {
  name = "spend";
  entity = entity;
  fields = record { name = "total"; type = "float" } ∷ [];
  tags = [];
  source = "";
  ttl_seconds = pos 60;
}

feature_code : Unit {0}
unfolding apply_feature_view reapply new_view report_materialization materialize record_event id
    decimal
feature_code = tt

abbrev one_view : State
one_view =
    (report_materialization clock "spend" (pos 12) "ann"
      (apply_feature_view clock (view_request "user") "ann" zero_state).0).0

abbrev spend : FeatureView
spend = record {
  id = "fv-30";
  name = "spend";
  entity = "user";
  fields = record { name = "total"; type = "float" } ∷ [];
  tags = [];
  source = "";
  ttl_seconds = pos 60;
  status = "materialized";
  online_entity_count = pos 12;
  materialized_at = some 30;
  created_at = 31;
}

spend_found : find_first (is_view "spend") one_view.features ≡ some spend
unfolding feature_code
spend_found = refl

one-ViewsDiffer : ViewsDiffer one_view
unfolding feature_code
one-ViewsDiffer k = ground arith
