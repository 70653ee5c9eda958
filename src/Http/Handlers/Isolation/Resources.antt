-- ===== src/Http/Handlers/Isolation/Resources.antt =====
-- The methods on models, agents and functions, on members that the caller may access.
use mlops.Base.{
  ◌≡◌, refl, String, true, ◌==◌, ◌||◌, ◌&&◌, List, [], ◌∷◌, any, some, inl, inr, Bool-cases,
  Option-cases, eq_iff,
}
use mlops.Base.First.{find_first, update_first, remove_first}
use mlops.Base.Int.{ℤ, pos, ltb_ℤ}
use mlops.Base.Text.{is_empty, contains}
use mlops.Api.Model.{Model, RegisterModelRequest}
use mlops.Api.Agent.{Agent, DeployAgentRequest}
use mlops.Api.Pipeline.{Function, DeployFunctionRequest}
use mlops.Api.Project.{AuditEvent}
use mlops.Auth.{Principal}
use mlops.Store.{State, Clock, record_event, has_project}
use mlops.Store.Models.{
  is_model, register_model, registered, promote_model, promote, deploy_model, deploy,
  set_model_endpoint, set_endpoint, rollback_model, roll_back,
}
use mlops.Store.Agents.{is_agent, deploy_agent, new_agent, set_agent_traffic, weigh}
use mlops.Store.Functions.{
  is_function, validate_function_request, upsert_function, redeploy, deployed, delete_function,
}
use mlops.Http.Access.{allowed_project_ids, permits}
use mlops.Http.Handlers.Isolation.{
  IsIsolated, IsIsolated-refl, foreign, foreign-cons, foreign-update_first, foreign-remove_first,
}

module _ (p : Principal) (s : State) where
  -- A change of one list and of the audit trail.
  models-IsIsolated :
      (models : List Model) (audit : List AuditEvent)
      → foreign (allowed_project_ids s p) (λ x. x.project_id) models
        ≡ foreign (allowed_project_ids s p) (λ x. x.project_id) s.models
      → IsIsolated p s (record s { models = models; audit = audit })
  unfolding allowed_project_ids
  models-IsIsolated models audit h = (refl, refl, h, refl, refl, refl, refl)

  agents-IsIsolated :
      (agents : List Agent) (audit : List AuditEvent)
      → foreign (allowed_project_ids s p) (λ x. x.project_id) agents
        ≡ foreign (allowed_project_ids s p) (λ x. x.project_id) s.agents
      → IsIsolated p s (record s { agents = agents; audit = audit })
  unfolding allowed_project_ids
  agents-IsIsolated agents audit h = (refl, refl, refl, h, refl, refl, refl)

  functions-IsIsolated :
      (functions : List Function) (audit : List AuditEvent)
      → foreign (allowed_project_ids s p) (λ x. x.project_id) functions
        ≡ foreign (allowed_project_ids s p) (λ x. x.project_id) s.functions
      → IsIsolated p s (record s { functions = functions; audit = audit })
  unfolding allowed_project_ids
  functions-IsIsolated functions audit h = (refl, refl, refl, refl, h, refl, refl)

  pub register_model-IsIsolated :
      (clock : Clock) (req : RegisterModelRequest) (actor : String)
      → permits (allowed_project_ids s p) req.project_id ≡ true
      → IsIsolated p s (register_model clock req actor s).0
  unfolding register_model record_event registered
  register_model-IsIsolated clock req actor h =
      elim (Bool-cases (has_project s.projects req.project_id)) [
        | inr bad ↦ rw (bad, register_model) (IsIsolated-refl p s)
        | inl good ↦
            elim (Bool-cases
              (is_empty req.name || is_empty req.version || is_empty req.artifact_uri)) [
                | inl bad ↦ rw (good, bad, register_model) (IsIsolated-refl p s)
                | inr full ↦
                    elim (Bool-cases
                      (any (λ v. v.name == req.name && v.version == req.version) s.models)) [
                        | inl taken ↦ rw (good, full, taken, register_model) (IsIsolated-refl p s)
                        | inr free ↦
                            rw (good, full, free, register_model)
                              (models-IsIsolated (registered clock req ∷ s.models) _ (
                                foreign-cons (allowed_project_ids s p) (λ x. x.project_id)
                                  (registered clock req) s.models h))
                      ]
              ]
      ]

  module _ {found : Model} (model_id : String)
      (e : find_first (is_model model_id) s.models ≡ some found)
      (h : permits (allowed_project_ids s p) found.project_id ≡ true) where
    -- A change of the model that is found, in which it stays in its project.
    model-IsIsolated :
        (f : Model → Model) (audit : List AuditEvent)
        → (f found).project_id ≡ found.project_id
        → IsIsolated p s
            (record s { models = update_first (is_model model_id) f s.models; audit = audit })
    model-IsIsolated f audit same =
        models-IsIsolated (update_first (is_model model_id) f s.models) audit (
          foreign-update_first (allowed_project_ids s p) (λ x. x.project_id) (is_model model_id) f
            s.models e h same)

    pub promote_model-IsIsolated :
        (clock : Clock) (stage actor : String)
        → IsIsolated p s (promote_model clock model_id stage actor s).0
    unfolding promote_model record_event promote
    promote_model-IsIsolated clock stage actor =
        elim (Bool-cases (contains ("staging" ∷ "production" ∷ "archived" ∷ []) stage)) [
          | inr bad ↦ rw (bad, promote_model) (IsIsolated-refl p s)
          | inl good ↦ elim (Bool-cases (stage == "production" && found.gate_status == "failed")) [
            | inl bad ↦ rw (good, e, bad, promote_model) (IsIsolated-refl p s)
            | inr clear ↦
                rw (good, e, clear, promote_model) (model-IsIsolated (promote stage) _ refl)
          ]
        ]

    pub deploy_model-IsIsolated :
        (clock : Clock) (weight : ℤ) (actor : String)
        → IsIsolated p s (deploy_model clock model_id weight actor s).0
    unfolding deploy_model record_event deploy
    deploy_model-IsIsolated clock weight actor =
        elim (Bool-cases (ltb_ℤ weight (pos 0) || ltb_ℤ (pos 100) weight)) [
          | inl bad ↦ rw (bad, deploy_model) (IsIsolated-refl p s)
          | inr good ↦ elim (Bool-cases (found.gate_status == "passed")) [
            | inr bad ↦ rw (good, e, bad, deploy_model) (IsIsolated-refl p s)
            | inl clear ↦
                rw (good, e, clear, deploy_model) (model-IsIsolated (deploy weight) _ refl)
          ]
        ]

    pub set_model_endpoint-IsIsolated :
        (endpoint status : String)
        → IsIsolated p s (set_model_endpoint model_id endpoint status s).0
    unfolding set_model_endpoint set_endpoint
    set_model_endpoint-IsIsolated endpoint status =
        rw (e, set_model_endpoint) (model-IsIsolated (set_endpoint endpoint status) s.audit refl)

    pub rollback_model-IsIsolated :
        (clock : Clock) (actor : String) → IsIsolated p s (rollback_model clock model_id actor s).0
    unfolding rollback_model record_event roll_back
    rollback_model-IsIsolated clock actor = elim (Bool-cases (is_empty found.previous_stage)) [
      | inl bad ↦ rw (e, bad, rollback_model) (IsIsolated-refl p s)
      | inr clear ↦ rw (e, clear, rollback_model) (model-IsIsolated roll_back _ refl)
    ]

  pub deploy_agent-IsIsolated :
      (clock : Clock) (req : DeployAgentRequest) (actor : String)
      → permits (allowed_project_ids s p) req.project_id ≡ true
      → IsIsolated p s (deploy_agent clock req actor s).0
  unfolding deploy_agent record_event new_agent
  deploy_agent-IsIsolated clock req actor h =
      elim (Bool-cases (has_project s.projects req.project_id)) [
        | inr bad ↦ rw (bad, deploy_agent) (IsIsolated-refl p s)
        | inl good ↦
            elim (Bool-cases (
              is_empty req.name
              || is_empty req.version
              || is_empty req.image
              || is_empty req.graph_module)) [
                | inl bad ↦ rw (good, bad, deploy_agent) (IsIsolated-refl p s)
                | inr full ↦
                    rw (good, full, deploy_agent)
                      (agents-IsIsolated (new_agent clock req ∷ s.agents) _ (
                        foreign-cons (allowed_project_ids s p) (λ x. x.project_id)
                          (new_agent clock req) s.agents h))
              ]
      ]

  pub set_agent_traffic-IsIsolated :
      (clock : Clock) (agent_id : String) (weight : ℤ) (actor : String) {found : Agent}
      → find_first (is_agent agent_id) s.agents ≡ some found
      → permits (allowed_project_ids s p) found.project_id ≡ true
      → IsIsolated p s (set_agent_traffic clock agent_id weight actor s).0
  unfolding set_agent_traffic record_event weigh
  set_agent_traffic-IsIsolated clock agent_id weight actor e h =
      elim (Bool-cases (ltb_ℤ weight (pos 0) || ltb_ℤ (pos 100) weight)) [
        | inl bad ↦ rw (bad, set_agent_traffic) (IsIsolated-refl p s)
        | inr good ↦
            rw (good, e, set_agent_traffic)
              (agents-IsIsolated (update_first (is_agent agent_id) (weigh weight) s.agents) _ (
                foreign-update_first (allowed_project_ids s p) (λ x. x.project_id)
                  (is_agent agent_id) (weigh weight) s.agents e h refl))
      ]

  -- The store itself keeps a function of another project, whatever the caller may access.
  pub upsert_function-IsIsolated :
      (clock : Clock) (req : DeployFunctionRequest) (owner actor : String)
      → permits (allowed_project_ids s p) req.project_id ≡ true
      → IsIsolated p s (upsert_function clock req owner actor s).0
  unfolding upsert_function record_event redeploy deployed
  upsert_function-IsIsolated clock req owner actor h =
      elim (Option-cases (validate_function_request req)) [
        | inr (_, bad) ↦ rw (bad, upsert_function) (IsIsolated-refl p s)
        | inl valid ↦ elim (Bool-cases (has_project s.projects req.project_id)) [
          | inr bad ↦ rw (valid, bad, upsert_function) (IsIsolated-refl p s)
          | inl good ↦ elim (Option-cases (find_first (is_function req.name) s.functions)) [
            | inl e ↦
                rw (valid, good, e, upsert_function)
                  (functions-IsIsolated (deployed (clock 0) req owner ∷ s.functions) _ (
                    foreign-cons (allowed_project_ids s p) (λ x. x.project_id)
                      (deployed (clock 0) req owner) s.functions h))
            | inr (found, e) ↦ elim (Bool-cases (found.project_id == req.project_id)) [
              | inr other ↦ rw (valid, good, e, other, upsert_function) (IsIsolated-refl p s)
              | inl same ↦
                  rw (valid, good, e, same, upsert_function)
                    (functions-IsIsolated
                      (update_first (is_function req.name) (redeploy (clock 0) req) s.functions) _
                      (foreign-update_first (allowed_project_ids s p) (λ x. x.project_id)
                        (is_function req.name) (redeploy (clock 0) req) s.functions e
                        (let same_project : found.project_id ≡ req.project_id =
                            (eq_iff found.project_id req.project_id).0 same in
                          rw same_project h)
                        refl))
            ]
          ]
        ]
      ]

  pub delete_function-IsIsolated :
      (clock : Clock) (name actor : String) {found : Function}
      → find_first (is_function name) s.functions ≡ some found
      → permits (allowed_project_ids s p) found.project_id ≡ true
      → IsIsolated p s (delete_function clock name actor s).0
  unfolding delete_function record_event
  delete_function-IsIsolated clock name actor e h =
      rw (e, delete_function)
        (functions-IsIsolated (remove_first (is_function name) s.functions) _ (
          foreign-remove_first (allowed_project_ids s p) (λ x. x.project_id) (is_function name)
            s.functions e h))
