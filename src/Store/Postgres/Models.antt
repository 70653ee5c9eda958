-- ===== src/Store/Postgres/Models.antt =====
-- go/internal/store/postgres.go: the methods on models that change a model, against those of the file
-- store.
use mlops.Base.{String, [], ◌∷◌, ◌==◌, ◌||◌, ◌&&◌, not, if◌then◌else◌}
use mlops.Base.Int.{ℤ, pos, ltb_ℤ}
use mlops.Base.Text.{is_empty, contains}
use mlops.Api.Value.{text, int}
use mlops.Api.Model.{Model}
use mlops.Store.{Outcome, refused, returned, message, Clock, Metadata}
use mlops.Store.Models.{promote, deploy, set_endpoint, roll_back}
use mlops.Store.Postgres.{Codec, Db, Faults, get, save}

module _ {Json : Type 0} (codec : Codec Json Model) (tenant : String) (faults : Faults) where
  abbrev stored_model : String → Db Json → Outcome Model
  stored_model = get codec tenant faults "model"

  abbrev save_model : Clock → String → String → Metadata → Model → Db Json → Db Json × Outcome Model
  save_model = save codec tenant faults "model" (λ m. m.id)

  -- `PromoteModel`
  unfoldable pub promote_stored_model :
      Clock → String → String → String → Db Json → Db Json × Outcome Model
  promote_stored_model clock model_id stage actor db =
      if not (contains ("staging" ∷ "production" ∷ "archived" ∷ []) stage)
      then (db, refused (message "stage must be staging, production or archived"))
      else elim (stored_model model_id db) [
        | refused e ↦ (db, refused e)
        | returned m ↦
            if stage == "production" && m.gate_status == "failed"
            then (db, refused (message "model evaluation gates have not passed"))
            else save_model clock "model.promoted" actor (("stage", text stage) ∷ [])
                (promote stage m) db
      ]

  -- `DeployModel`
  unfoldable pub deploy_stored_model :
      Clock → String → ℤ → String → Db Json → Db Json × Outcome Model
  deploy_stored_model clock model_id weight actor db =
      if ltb_ℤ weight (pos 0) || ltb_ℤ (pos 100) weight
      then (db, refused (message "canary_weight must be between 0 and 100"))
      else elim (stored_model model_id db) [
        | refused e ↦ (db, refused e)
        | returned m ↦
            if not (m.gate_status == "passed")
            then (db, refused (message "model evaluation gates have not passed"))
            else save_model clock "model.deployed" actor (("canary_weight", int weight) ∷ [])
                (deploy weight m) db
      ]

  -- `SetModelEndpoint`
  unfoldable pub set_stored_endpoint :
      Clock → String → String → String → Db Json → Db Json × Outcome Model
  set_stored_endpoint clock model_id endpoint status db = elim (stored_model model_id db) [
    | refused e ↦ (db, refused e)
    | returned m ↦
        save_model clock "model.endpoint_updated" "system"
          (("endpoint", text endpoint) ∷ ("status", text status) ∷ [])
          (set_endpoint endpoint status m) db
  ]

  -- `RollbackModel`
  unfoldable pub rollback_stored_model : Clock → String → String → Db Json → Db Json × Outcome Model
  rollback_stored_model clock model_id actor db = elim (stored_model model_id db) [
    | refused e ↦ (db, refused e)
    | returned m ↦
        if is_empty m.previous_stage
        then (db, refused (message "no previous stage is available"))
        else save_model clock "model.rolled_back" actor [] (roll_back m) db
  ]
