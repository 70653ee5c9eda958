-- ===== src/Store/Models/Gates.antt =====
-- The gates and weights of registered models under every sequence of calls, and rollback.
use mlops.Base.{
  ◌≡◌, String, false, List, [], ◌∷◌, ◌==◌, ◌||◌, ◌&&◌, inl, inr, Bool-cases, Option-cases, All, any,
  arith,
}
use mlops.Base.First.{find_first, All-update_found}
use mlops.Base.Int.{ℤ, pos, ◌≤ℤ◌, ltb_ℤ}
use mlops.Base.Text.{is_empty, contains}
use mlops.Api.Model.{Model, RegisterModelRequest}
use mlops.Store.{State, Clock, record_event, has_project}
use mlops.Store.Models.{
  registered, register_model, is_model, promote, promote_model, deploy, deploy_model, set_endpoint,
  set_model_endpoint, roll_back, rollback_model,
}

-- A model whose gate has failed is not in production, nor can a rollback take it there; and its
-- canary weight is a percentage.
pub record IsSound (m : Model) : Type 0 where
  pub gated :
      (m.gate_status == "failed" && (m.stage == "production" || m.previous_stage == "production"))
      ≡ false
  pub positive : pos 0 ≤ℤ m.canary_weight
  pub within : m.canary_weight ≤ℤ pos 100

-- A call of a method that changes the models.
pub data Call : Type 0 where
  register : Clock → RegisterModelRequest → String → Call
  promote_to : Clock → String → String → String → Call
  deploy_at : Clock → String → ℤ → String → Call
  serve_at : String → String → String → Call
  rollback : Clock → String → String → Call

unfoldable pub perform : Call → State → State
perform (register clock req actor) s = (register_model clock req actor s).0
perform (promote_to clock model_id stage actor) s = (promote_model clock model_id stage actor s).0
perform (deploy_at clock model_id weight actor) s = (deploy_model clock model_id weight actor s).0
perform (serve_at model_id endpoint status) s = (set_model_endpoint model_id endpoint status s).0
perform (rollback clock model_id actor) s = (rollback_model clock model_id actor s).0

unfoldable pub perform_all : List Call → State → State
perform_all [] s = s
perform_all (c ∷ cs) s = perform_all cs (perform c s)

abbrev pub ModelsSound : State → Type 0
ModelsSound s = All IsSound s.models

register-ModelsSound :
    (clock : Clock) (req : RegisterModelRequest) (actor : String) (s : State)
    → ModelsSound s
    → ModelsSound (register_model clock req actor s).0
unfolding register_model record_event
register-ModelsSound clock req actor s h =
    elim (Bool-cases (has_project s.projects req.project_id)) [
      | inr e ↦ rw (e, register_model) h
      | inl e ↦
          elim (Bool-cases
            (is_empty req.name || is_empty req.version || is_empty req.artifact_uri)) [
              | inl k ↦ rw (e, register_model, k) h
              | inr k ↦
                  elim (Bool-cases
                    (any (λ v. v.name == req.name && v.version == req.version) s.models)) [
                      | inl d ↦ rw (e, register_model, k, d) h
                      | inr d ↦ rw (e, register_model, k, d) (unfold registered in ground arith, h)
                    ]
            ]
    ]

promote-ModelsSound :
    (clock : Clock) (model_id stage actor : String) (s : State)
    → ModelsSound s
    → ModelsSound (promote_model clock model_id stage actor s).0
unfolding promote_model record_event
promote-ModelsSound clock model_id stage actor s h =
    elim (Bool-cases (contains ("staging" ∷ "production" ∷ "archived" ∷ []) stage)) [
      | inr e ↦ rw (e, promote_model) h
      | inl e ↦ elim (Option-cases (find_first (is_model model_id) s.models)) [
        | inl k ↦ rw (e, promote_model, k) h
        | inr (m, k) ↦ elim (Bool-cases (stage == "production" && m.gate_status == "failed")) [
          | inl d ↦ rw (e, promote_model, k, d) h
          | inr d ↦
              rw (e, promote_model, k, d)
                (All-update_found IsSound (is_model model_id) (promote stage) s.models k
                  (unfold promote in λ sound. ground arith) h)
        ]
      ]
    ]

deploy-ModelsSound :
    (clock : Clock) (model_id : String) (weight : ℤ) (actor : String) (s : State)
    → ModelsSound s
    → ModelsSound (deploy_model clock model_id weight actor s).0
unfolding deploy_model record_event
deploy-ModelsSound clock model_id weight actor s h =
    elim (Bool-cases (ltb_ℤ weight (pos 0) || ltb_ℤ (pos 100) weight)) [
      | inl e ↦ rw (e, deploy_model) h
      | inr e ↦ elim (Option-cases (find_first (is_model model_id) s.models)) [
        | inl k ↦ rw (e, deploy_model, k) h
        | inr (m, k) ↦ elim (Bool-cases (m.gate_status == "passed")) [
          | inr d ↦ rw (e, deploy_model, k, d) h
          | inl d ↦
              rw (e, deploy_model, k, d)
                (All-update_found IsSound (is_model model_id) (deploy weight) s.models k
                  (unfold deploy in λ sound. ground arith) h)
        ]
      ]
    ]

serve-ModelsSound :
    (model_id endpoint status : String) (s : State)
    → ModelsSound s
    → ModelsSound (set_model_endpoint model_id endpoint status s).0
unfolding set_model_endpoint
serve-ModelsSound model_id endpoint status s h =
    elim (Option-cases (find_first (is_model model_id) s.models)) [
      | inl k ↦ rw (k, set_model_endpoint) h
      | inr (m, k) ↦
          rw (k, set_model_endpoint)
            (All-update_found IsSound (is_model model_id) (set_endpoint endpoint status) s.models k
              (unfold set_endpoint in λ sound. ground arith) h)
    ]

rollback-ModelsSound :
    (clock : Clock) (model_id actor : String) (s : State)
    → ModelsSound s
    → ModelsSound (rollback_model clock model_id actor s).0
unfolding rollback_model record_event
rollback-ModelsSound clock model_id actor s h =
    elim (Option-cases (find_first (is_model model_id) s.models)) [
      | inl k ↦ rw (k, rollback_model) h
      | inr (m, k) ↦ elim (Bool-cases (is_empty m.previous_stage)) [
        | inl d ↦ rw (k, rollback_model, d) h
        | inr d ↦
            rw (k, rollback_model, d)
              (All-update_found IsSound (is_model model_id) roll_back s.models k
                (unfold roll_back in λ sound. ground arith) h)
      ]
    ]

-- Whatever calls are made on a store whose models are sound, in whatever order, no model whose gate
-- failed is in production or has production as its previous stage, and every canary weight lies
-- between 0 and 100.
pub perform_all-ModelsSound :
    (cs : List Call) (s : State) → ModelsSound s → ModelsSound (perform_all cs s)
unfolding perform_all perform
perform_all-ModelsSound [] s h = h
perform_all-ModelsSound (register clock req actor ∷ cs) s h =
    perform_all-ModelsSound cs _ (register-ModelsSound clock req actor s h)
perform_all-ModelsSound (promote_to clock model_id stage actor ∷ cs) s h =
    perform_all-ModelsSound cs _ (promote-ModelsSound clock model_id stage actor s h)
perform_all-ModelsSound (deploy_at clock model_id weight actor ∷ cs) s h =
    perform_all-ModelsSound cs _ (deploy-ModelsSound clock model_id weight actor s h)
perform_all-ModelsSound (serve_at model_id endpoint status ∷ cs) s h =
    perform_all-ModelsSound cs _ (serve-ModelsSound model_id endpoint status s h)
perform_all-ModelsSound (rollback clock model_id actor ∷ cs) s h =
    perform_all-ModelsSound cs _ (rollback-ModelsSound clock model_id actor s h)
