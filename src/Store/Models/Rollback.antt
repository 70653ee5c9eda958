-- ===== src/Store/Models/Rollback.antt =====
-- `PromoteModel` followed by `RollbackModel`, once and twice.
use mlops.Base.{◌≡◌, refl, ap, ◌∙◌, String, true, false, [], ◌∷◌, ◌==◌, ◌&&◌, some}
use mlops.Base.Int.{pos}
use mlops.Base.First.{
  find_first, update_first, find_first-update_first, find_first_passes, update_first-update_first,
}
use mlops.Base.Text.{is_empty, contains}
use mlops.Api.Model.{Model}
use mlops.Store.{State, Clock, returned, record_event}
use mlops.Store.Models.{is_model, promote, promote_model, roll_back, rollback_model}

-- The model as it was before it was promoted to a stage, but for the stage that it comes from and the
-- deployment, which a rollback ends.
abbrev pub withdrawn : String → Model → Model
withdrawn stage m = record m {
  previous_stage = stage;
  deployment_status = "rolled_back";
  canary_weight = pos 0;
}

-- The model in the stage again.
abbrev pub reinstated : String → Model → Model
reinstated stage m = record (withdrawn stage m) { stage = stage; previous_stage = m.stage }

-- What a rollback that finds a previous stage does.
rolled_back :
    (clock : Clock) (model_id actor : String) (s : State) {m : Model}
    → find_first (is_model model_id) s.models ≡ some m
    → is_empty m.previous_stage ≡ false
    → ((rollback_model clock model_id actor s).1 ≡ returned (roll_back m))
      × ((rollback_model clock model_id actor s).0.models
          ≡ update_first (is_model model_id) roll_back s.models)
unfolding rollback_model record_event
rolled_back clock model_id actor s found staged =
    (rw (found, rollback_model, staged) refl, rw (found, rollback_model, staged) refl)

stage_given :
    (stage : String)
    → contains ("staging" ∷ "production" ∷ "archived" ∷ []) stage ≡ true
    → is_empty stage ≡ false
unfolding contains
stage_given String.[] h = cc
stage_given (String.◌∷◌ c s) h = refl

module _ (clock : Clock) (model_id stage actor : String) (s : State) (m : Model)
    (found : find_first (is_model model_id) s.models ≡ some m)
    (known : contains ("staging" ∷ "production" ∷ "archived" ∷ []) stage ≡ true)
    (passed : (stage == "production" && m.gate_status == "failed") ≡ false) where
  promoted_models :
      (promote_model clock model_id stage actor s).0.models
      ≡ update_first (is_model model_id) (promote stage) s.models
  unfolding promote_model record_event
  promoted_models = rw (known, promote_model, found, passed)

  promoted_found :
      find_first (is_model model_id) (promote_model clock model_id stage actor s).0.models
      ≡ some (promote stage m)
  promoted_found = rw promoted_models (
      find_first-update_first (is_model model_id) (promote stage) s.models found
        (unfold promote in find_first_passes (is_model model_id) s.models found))

  -- After a promotion that is not refused, of a model that has a stage, a rollback is not refused
  -- either. It leaves all models as they were before the promotion, but that the model comes from the
  -- stage that it had been promoted to, and that it is deployed no more. A second rollback puts it
  -- into that stage again.
  pub promote_model-rollback_model :
      (clock' clock'' : Clock) (actor' : String)
      → is_empty m.stage ≡ false
      → let s' = (promote_model clock model_id stage actor s).0 in
        let s'' = (rollback_model clock' model_id actor' s').0 in
        ((rollback_model clock' model_id actor' s').1 ≡ returned (withdrawn stage m))
        × (s''.models ≡ update_first (is_model model_id) (withdrawn stage) s.models)
        × ((rollback_model clock'' model_id actor' s'').0.models
            ≡ update_first (is_model model_id) (reinstated stage) s.models)
  unfolding promote roll_back
  promote_model-rollback_model clock' clock'' actor' staged =
      let s' = (promote_model clock model_id stage actor s).0 in
      let s'' = (rollback_model clock' model_id actor' s').0 in
      let first = rolled_back clock' model_id actor' s' promoted_found staged in
      let passes = find_first_passes (is_model model_id) s.models found in
      let once : s''.models ≡ update_first (is_model model_id) (withdrawn stage) s.models =
        first.1
        ∙ ap (update_first (is_model model_id) roll_back) promoted_models
        ∙ update_first-update_first (is_model model_id) (promote stage) roll_back (λ x. refl)
            s.models in
      let again : find_first (is_model model_id) s''.models ≡ some (withdrawn stage m) =
        rw once
          (find_first-update_first (is_model model_id) (withdrawn stage) s.models found passes) in
      let second = rolled_back clock'' model_id actor' s'' again (stage_given stage known) in
      (
        first.0,
        once,
        second.1
            ∙ ap (update_first (is_model model_id) roll_back) once
            ∙ update_first-update_first (is_model model_id) (withdrawn stage) roll_back (λ x. refl)
                s.models,
      )
