-- ===== src/Store/Postgres/ModelRefines.antt =====
-- The methods of the Postgres repository that change a model against those of the file store.
use mlops.Base.{
  ◌≡◌, refl, String, List, [], ◌∷◌, ◌==◌, ◌||◌, ◌&&◌, inl, inr, Bool-cases, Option-cases,
}
use mlops.Base.First.{find_first}
use mlops.Base.Int.{ℤ, pos, ltb_ℤ}
use mlops.Base.Text.{is_empty, contains}
use mlops.Api.Value.{text, int}
use mlops.Api.Model.{Model}
use mlops.Store.{State, Outcome, Clock, record_event}
use mlops.Store.Models.{
  is_model, promote, promote_model, deploy, deploy_model, set_endpoint, set_model_endpoint,
  roll_back, rollback_model,
}
use mlops.Store.Postgres.{Codec, Db, no_faults, list}
use mlops.Store.Postgres.Rows.{Represents, get-none, get-some, save-updates, list-Represents}
use mlops.Store.Postgres.Models.{
  promote_stored_model, deploy_stored_model, set_stored_endpoint, rollback_stored_model,
}

-- A call of a method that changes a model.
pub data Call : Type 0 where
  promoting : Clock → String → String → String → Call
  deploying : Clock → String → ℤ → String → Call
  serving : Clock → String → String → String → Call
  rolling_back : Clock → String → String → Call

unfoldable pub perform : Call → State → State × Outcome Model
perform (promoting clock model_id stage actor) s = promote_model clock model_id stage actor s
perform (deploying clock model_id weight actor) s = deploy_model clock model_id weight actor s
perform (serving clock model_id endpoint status) s = set_model_endpoint model_id endpoint status s
perform (rolling_back clock model_id actor) s = rollback_model clock model_id actor s

module _ {Json : Type 0} (codec : Codec Json Model) (tenant : String) where
  unfoldable pub perform_stored : Call → Db Json → Db Json × Outcome Model
  perform_stored (promoting clock model_id stage actor) db =
      promote_stored_model codec tenant no_faults clock model_id stage actor db
  perform_stored (deploying clock model_id weight actor) db =
      deploy_stored_model codec tenant no_faults clock model_id weight actor db
  perform_stored (serving clock model_id endpoint status) db =
      set_stored_endpoint codec tenant no_faults clock model_id endpoint status db
  perform_stored (rolling_back clock model_id actor) db =
      rollback_stored_model codec tenant no_faults clock model_id actor db

  -- The tenant's rows of models are those of the list, in its order.
  abbrev pub Stores : Db Json → List Model → Type 0
  Stores = Represents codec tenant "model" (λ m. m.id)

  promote-Stores :
      (clock : Clock) (model_id stage actor : String) (s : State) (db : Db Json)
      → Stores db s.models
      → ((promote_stored_model codec tenant no_faults clock model_id stage actor db).1
          ≡ (promote_model clock model_id stage actor s).1)
        × Stores
            (promote_stored_model codec tenant no_faults clock model_id stage actor db).0
            (promote_model clock model_id stage actor s).0.models
  unfolding promote_stored_model promote_model record_event
  promote-Stores clock model_id stage actor s db r =
      elim (Bool-cases (contains ("staging" ∷ "production" ∷ "archived" ∷ []) stage)) [
        | inr e ↦ rw (e, promote_stored_model, promote_model) (refl, r)
        | inl e ↦ elim (Option-cases (find_first (is_model model_id) s.models)) [
          | inl f ↦
              rw
                (
                  e,
                  promote_stored_model,
                  promote_model,
                  get-none codec tenant "model" (λ m. m.id) model_id db s.models r f,
                  f,
                )
                (refl, r)
          | inr (m, f) ↦ elim (Bool-cases (stage == "production" && m.gate_status == "failed")) [
            | inl g ↦
                rw
                  (
                    e,
                    promote_stored_model,
                    promote_model,
                    get-some codec tenant "model" (λ m. m.id) model_id db s.models r f,
                    f,
                    g,
                  )
                  (refl, r)
            | inr g ↦
                rw
                  (
                    e,
                    promote_stored_model,
                    promote_model,
                    get-some codec tenant "model" (λ m. m.id) model_id db s.models r f,
                    f,
                    g,
                  )
                  (save-updates codec tenant "model" (λ m. m.id) clock "model.promoted" actor
                    (("stage", text stage) ∷ []) (promote stage) model_id db s.models r f
                    (unfold promote in refl))
          ]
        ]
      ]

  deploy-Stores :
      (clock : Clock) (model_id : String) (weight : ℤ) (actor : String) (s : State) (db : Db Json)
      → Stores db s.models
      → ((deploy_stored_model codec tenant no_faults clock model_id weight actor db).1
          ≡ (deploy_model clock model_id weight actor s).1)
        × Stores
            (deploy_stored_model codec tenant no_faults clock model_id weight actor db).0
            (deploy_model clock model_id weight actor s).0.models
  unfolding deploy_stored_model deploy_model record_event
  deploy-Stores clock model_id weight actor s db r =
      elim (Bool-cases (ltb_ℤ weight (pos 0) || ltb_ℤ (pos 100) weight)) [
        | inl e ↦ rw (e, deploy_stored_model, deploy_model) (refl, r)
        | inr e ↦ elim (Option-cases (find_first (is_model model_id) s.models)) [
          | inl f ↦
              rw
                (
                  e,
                  deploy_stored_model,
                  deploy_model,
                  get-none codec tenant "model" (λ m. m.id) model_id db s.models r f,
                  f,
                )
                (refl, r)
          | inr (m, f) ↦ elim (Bool-cases (m.gate_status == "passed")) [
            | inr g ↦
                rw
                  (
                    e,
                    deploy_stored_model,
                    deploy_model,
                    get-some codec tenant "model" (λ m. m.id) model_id db s.models r f,
                    f,
                    g,
                  )
                  (refl, r)
            | inl g ↦
                rw
                  (
                    e,
                    deploy_stored_model,
                    deploy_model,
                    get-some codec tenant "model" (λ m. m.id) model_id db s.models r f,
                    f,
                    g,
                  )
                  (save-updates codec tenant "model" (λ m. m.id) clock "model.deployed" actor
                    (("canary_weight", int weight) ∷ []) (deploy weight) model_id db s.models r f
                    (unfold deploy in refl))
          ]
        ]
      ]

  set_endpoint-Stores :
      (clock : Clock) (model_id endpoint status : String) (s : State) (db : Db Json)
      → Stores db s.models
      → ((set_stored_endpoint codec tenant no_faults clock model_id endpoint status db).1
          ≡ (set_model_endpoint model_id endpoint status s).1)
        × Stores
            (set_stored_endpoint codec tenant no_faults clock model_id endpoint status db).0
            (set_model_endpoint model_id endpoint status s).0.models
  unfolding set_stored_endpoint set_model_endpoint record_event
  set_endpoint-Stores clock model_id endpoint status s db r =
      elim (Option-cases (find_first (is_model model_id) s.models)) [
        | inl f ↦
            rw
              (
                get-none codec tenant "model" (λ m. m.id) model_id db s.models r f,
                set_stored_endpoint,
                f,
                set_model_endpoint,
              )
              (refl, r)
        | inr (m, f) ↦
            rw
              (
                get-some codec tenant "model" (λ m. m.id) model_id db s.models r f,
                set_stored_endpoint,
                f,
                set_model_endpoint,
              )
              (save-updates codec tenant "model" (λ m. m.id) clock "model.endpoint_updated" "system"
                (("endpoint", text endpoint) ∷ ("status", text status) ∷ [])
                (set_endpoint endpoint status) model_id db s.models r f
                (unfold set_endpoint in refl))
      ]

  rollback-Stores :
      (clock : Clock) (model_id actor : String) (s : State) (db : Db Json)
      → Stores db s.models
      → ((rollback_stored_model codec tenant no_faults clock model_id actor db).1
          ≡ (rollback_model clock model_id actor s).1)
        × Stores
            (rollback_stored_model codec tenant no_faults clock model_id actor db).0
            (rollback_model clock model_id actor s).0.models
  unfolding rollback_stored_model rollback_model record_event
  rollback-Stores clock model_id actor s db r =
      elim (Option-cases (find_first (is_model model_id) s.models)) [
        | inl f ↦
            rw
              (
                get-none codec tenant "model" (λ m. m.id) model_id db s.models r f,
                rollback_stored_model,
                f,
                rollback_model,
              )
              (refl, r)
        | inr (m, f) ↦ elim (Bool-cases (is_empty m.previous_stage)) [
          | inl g ↦
              rw
                (
                  get-some codec tenant "model" (λ m. m.id) model_id db s.models r f,
                  rollback_stored_model,
                  f,
                  rollback_model,
                  g,
                )
                (refl, r)
          | inr g ↦
              rw
                (
                  get-some codec tenant "model" (λ m. m.id) model_id db s.models r f,
                  rollback_stored_model,
                  f,
                  rollback_model,
                  g,
                )
                (save-updates codec tenant "model" (λ m. m.id) clock "model.rolled_back" actor []
                  roll_back model_id db s.models r f (unfold roll_back in refl))
        ]
      ]

  step-Stores :
      (c : Call) (s : State) (db : Db Json)
      → Stores db s.models
      → ((perform_stored c db).1 ≡ (perform c s).1)
        × Stores (perform_stored c db).0 (perform c s).0.models
  unfolding perform_stored perform
  step-Stores (promoting clock model_id stage actor) s db r =
      promote-Stores clock model_id stage actor s db r
  step-Stores (deploying clock model_id weight actor) s db r =
      deploy-Stores clock model_id weight actor s db r
  step-Stores (serving clock model_id endpoint status) s db r =
      set_endpoint-Stores clock model_id endpoint status s db r
  step-Stores (rolling_back clock model_id actor) s db r =
      rollback-Stores clock model_id actor s db r

  -- Where no statement fails, the Postgres repository implements the file store on models: for each
  -- of the calls `PromoteModel`, `DeployModel`, `SetModelEndpoint` and `RollbackModel` it gives the
  -- same outcome, and `list` then returns the models of the file store, if the rows are those of its
  -- models before.
  pub perform_stored-Stores :
      (c : Call) (s : State) (db : Db Json)
      → Stores db s.models
      → ((perform_stored c db).1 ≡ (perform c s).1)
        × Stores (perform_stored c db).0 (perform c s).0.models
        × (list codec tenant no_faults "model" (perform_stored c db).0 ≡ (perform c s).0.models)
  perform_stored-Stores c s db r =
      let (same, stores) = step-Stores c s db r in
      (
        same,
        stores,
        list-Represents codec tenant "model" (λ m. m.id) (perform_stored c db).0
            (perform c s).0.models stores,
      )
