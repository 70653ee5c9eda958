-- ===== src/Http/Handlers/Isolation/Models.antt =====
-- The handlers of models.
use mlops.Base.{
  ◌≡◌, String, true, some, inl, inr, Bool-cases, Option-cases, Sum-cases, eq_iff, refl, ◌||◌, ◌==◌,
}
use mlops.Base.First.{find_first, update_first, find_first_passes, find_first-update_first}
use mlops.Base.Int.{ℤ, pos, ltb_ℤ}
use mlops.Api.Model.{Model, RegisterModelRequest}
use mlops.Auth.{Principal}
use mlops.Store.{State, record_event, Outcome, refused, returned}
use mlops.Store.Models.{is_model, deploy_model, deploy, set_model_endpoint}
use mlops.Http.Access.{allowed_project_ids, permits, project_allowed, model_allowed}
use mlops.Http.Handlers.{Request, Env, Body, principal, actor, commit}
use mlops.Http.Handlers.Models.{
  register_request, handle_promote_model, handle_deploy_model, handle_rollback_model,
  answer_deployed, serve_model, request_serving,
}
use mlops.Http.Handlers.Isolation.{IsIsolated, IsIsolated-refl, IsIsolated-trans}
use mlops.Http.Handlers.Isolation.Resources.{
  register_model-IsIsolated, promote_model-IsIsolated, deploy_model-IsIsolated,
  set_model_endpoint-IsIsolated, rollback_model-IsIsolated,
}
use mlops.Store.Models.{register_model, promote_model, rollback_model}
use mathlib.Core.Path.{subst, sym}
use mlops.Http.Handlers.Isolation.Dispatch.{answer-IsIsolated, commit-state, decode-IsIsolated}

module _ (request : Request) where
  abbrev me : Principal
  me = principal request

  model_allowed-found :
      (s : State) (model_id : String)
      → model_allowed s me model_id ≡ true
      → (found : Model) × (find_first (is_model model_id) s.models ≡ some found)
        × (permits (allowed_project_ids s me) found.project_id ≡ true)
  unfolding model_allowed project_allowed
  model_allowed-found s model_id h = elim (Option-cases (find_first (is_model model_id) s.models)) [
    | inl e ↦ let h' = rw (e, model_allowed) at h in cc
    | inr (found, e) ↦ (found, e, rw (e, model_allowed) at h)
  ]

  pub register_request-IsIsolated :
      (env : Env) (req : RegisterModelRequest) (s : State)
      → IsIsolated me s (register_request env request req s).0
  unfolding register_request project_allowed
  register_request-IsIsolated env req s =
      elim (Bool-cases (permits (allowed_project_ids s me) req.project_id)) [
        | inr shut ↦ rw shut (IsIsolated-refl me s)
        | inl fine ↦ rw fine (
            answer-IsIsolated me s env 201 (register_model env.clock req (actor request) s)
              (register_model-IsIsolated me s env.clock req (actor request) fine))
      ]

  pub handle_promote_model-IsIsolated :
      (env : Env) (model_id : String) (body : Body String) (s : State)
      → IsIsolated me s (handle_promote_model env request model_id body s).0
  unfolding handle_promote_model
  handle_promote_model-IsIsolated env model_id body s =
      elim (Bool-cases (model_allowed s me model_id)) [
        | inr shut ↦ rw shut (IsIsolated-refl me s)
        | inl fine ↦
            let (found, e, h) = model_allowed-found s model_id fine in
            rw fine (
              decode-IsIsolated me s env body _ λ stage.
                answer-IsIsolated me s env 200
                  (promote_model env.clock model_id stage (actor request) s)
                  (promote_model-IsIsolated me s model_id e h env.clock stage (actor request)))
      ]

  pub handle_rollback_model-IsIsolated :
      (env : Env) (model_id : String) (s : State)
      → IsIsolated me s (handle_rollback_model env request model_id s).0
  unfolding handle_rollback_model
  handle_rollback_model-IsIsolated env model_id s =
      elim (Bool-cases (model_allowed s me model_id)) [
        | inr shut ↦ rw shut (IsIsolated-refl me s)
        | inl fine ↦
            let (found, e, h) = model_allowed-found s model_id fine in
            rw fine (
              answer-IsIsolated me s env 200 (rollback_model env.clock model_id (actor request) s)
                (rollback_model-IsIsolated me s model_id e h env.clock (actor request)))
      ]

  -- What `DeployModel` returns is the model that is found under its id.
  deploy_model-found :
      (env : Env) (model_id : String) (weight : ℤ) (who : String) (s : State) {found item : Model}
      → find_first (is_model model_id) s.models ≡ some found
      → permits (allowed_project_ids s me) found.project_id ≡ true
      → (deploy_model env.clock model_id weight who s).1 ≡ returned item
      → let s' = (deploy_model env.clock model_id weight who s).0 in
        (find_first (is_model item.id) s'.models ≡ some item)
        × (permits (allowed_project_ids s' me) item.project_id ≡ true)
  unfolding deploy_model record_event deploy allowed_project_ids
  deploy_model-found env model_id weight who s {found} {item} e h made =
      elim (Bool-cases (ltb_ℤ weight (pos 0) || ltb_ℤ (pos 100) weight)) [
        | inl bad ↦ let made' = rw (bad, deploy_model) at made in cc
        | inr good ↦ elim (Bool-cases (found.gate_status == "passed")) [
          | inr bad ↦ let made' = rw (good, e, bad, deploy_model) at made in cc
          | inl passed ↦
              let same : deploy weight found ≡ item =
                (let made' = rw (good, e, passed, deploy_model) at made in cc) in
              let passes = find_first_passes (is_model model_id) s.models e in
              let same_id : found.id ≡ model_id = (eq_iff found.id model_id).0 passes in
              let here =
                find_first-update_first (is_model model_id) (deploy weight) s.models e passes in
              rw (good, e, passed, deploy_model)
                (subst
                  (λ (v : Model).
                    (find_first (is_model v.id)
                        (update_first (is_model model_id) (deploy weight) s.models)
                      ≡ some v)
                    × (permits (allowed_project_ids s me) v.project_id ≡ true))
                  same
                  (
                    subst
                        (λ (i : String).
                          find_first (is_model i)
                            (update_first (is_model model_id) (deploy weight) s.models)
                          ≡ some (deploy weight found))
                        (sym same_id) here,
                    h,
                  ))
        ]
      ]

  serve_model-IsIsolated :
      (env : Env) (s : State) {item : Model}
      → find_first (is_model item.id) s.models ≡ some item
      → permits (allowed_project_ids s me) item.project_id ≡ true
      → IsIsolated me s (serve_model env item s).0
  unfolding serve_model
  serve_model-IsIsolated env s {item} e h = elim (Option-cases env.serving) [
    | inl o ↦ rw (o, serve_model) (IsIsolated-refl me s)
    | inr (send, o) ↦ elim (Sum-cases (request_serving send item)) [
      | inl (said, f) ↦
          rw (o, f, serve_model) (set_model_endpoint-IsIsolated me s item.id e h "" "failed")
      | inr (endpoint, f) ↦
          rw (o, f, serve_model)
            (let r = set_model_endpoint item.id endpoint "serving" s in
              subst (IsIsolated me s) (sym (commit-state env r.0 r.1))
                (set_model_endpoint-IsIsolated me s item.id e h endpoint "serving"))
    ]
  ]

  answer_deployed-IsIsolated :
      (env : Env) (s s' : State) (o : Outcome Model)
      → IsIsolated me s s'
      → ((item : Model)
          → o ≡ returned item
          → (find_first (is_model item.id) s'.models ≡ some item)
            × (permits (allowed_project_ids s' me) item.project_id ≡ true))
      → IsIsolated me s (answer_deployed env (commit env (s', o))).0
  unfolding answer_deployed commit
  answer_deployed-IsIsolated env s s' (refused e) h made = h
  answer_deployed-IsIsolated env s s' (returned item) h made =
      elim (Option-cases (env.persist s')) [
        | inr (_, e) ↦ rw (e, commit) h
        | inl e ↦
            rw (e, commit)
              (let (here, allowed) = made item refl in
                IsIsolated-trans me s s' (serve_model env item s').0 h
                  (serve_model-IsIsolated env s' here allowed))
      ]

  pub handle_deploy_model-IsIsolated :
      (env : Env) (model_id : String) (body : Body ℤ) (s : State)
      → IsIsolated me s (handle_deploy_model env request model_id body s).0
  unfolding handle_deploy_model
  handle_deploy_model-IsIsolated env model_id body s =
      elim (Bool-cases (model_allowed s me model_id)) [
        | inr shut ↦ rw shut (IsIsolated-refl me s)
        | inl fine ↦
            let (found, e, h) = model_allowed-found s model_id fine in
            rw fine (
              decode-IsIsolated me s env body _ λ weight.
                (let r = deploy_model env.clock model_id weight (actor request) s in
                  answer_deployed-IsIsolated env s r.0 r.1
                    (deploy_model-IsIsolated me s model_id e h env.clock weight (actor request))
                    (λ item made.
                      deploy_model-found env model_id weight (actor request) s e h made)))
      ]
