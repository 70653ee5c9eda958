-- ===== src/Store/Features.antt =====
-- go/internal/store/store.go: feature views.
pub mod Names
use mlops.Base.{String, Bool, List, [], ◌∷◌, none, some, ◌==◌, ◌||◌, is_nil, if◌then◌else◌}
use mlops.Base.First.{find_first, update_first}
use mlops.Base.Int.{ℤ, pos, ltb_ℤ}
use mlops.Base.Text.{is_empty}
use mlops.Api.Value.{Time, int}
use mlops.Api.Model.{FeatureView, ApplyFeatureViewRequest}
use mlops.Store.{State, Outcome, refused, returned, not_found, message, Clock, id, record_event}

abbrev pub is_view : String → FeatureView → Bool
is_view name view = view.name == name

-- What `ApplyFeatureView` does to the view that it finds.
unfoldable pub reapply : ApplyFeatureViewRequest → FeatureView → FeatureView
reapply req view = record view {
  entity = req.entity;
  fields = req.fields;
  tags = req.tags;
  source = req.source;
  ttl_seconds = req.ttl_seconds;
}

-- The view that `ApplyFeatureView` makes.
unfoldable pub new_view : Clock → ApplyFeatureViewRequest → FeatureView
new_view clock req = record {
  id = id "fv" (clock 0);
  name = req.name;
  entity = req.entity;
  fields = req.fields;
  tags = req.tags;
  source = req.source;
  ttl_seconds = req.ttl_seconds;
  status = "registered";
  online_entity_count = pos 0;
  materialized_at = none;
  created_at = clock 1;
}

-- `ApplyFeatureView`
unfoldable pub apply_feature_view :
    Clock → ApplyFeatureViewRequest → String → State → State × Outcome FeatureView
apply_feature_view clock req actor s =
    if is_empty req.name || is_empty req.entity || is_nil req.fields
    then (s, refused (message "name, entity and at least one field are required"))
    else elim (find_first (is_view req.name) s.features) [
      | some found ↦ (
        record_event (clock 0) (clock 1) "feature_view.applied" "feature_view" found.id actor []
            (record s { features = update_first (is_view req.name) (reapply req) s.features }),
        returned (reapply req found),
      )
      | none ↦
          let view = new_view clock req in
          (
            record_event (clock 2) (clock 3) "feature_view.applied" "feature_view" view.id actor []
                (record s { features = view ∷ s.features }),
            returned view,
          )
    ]

-- What `ReportMaterialization` does to the view that it finds.
unfoldable pub materialize : Time → ℤ → FeatureView → FeatureView
materialize now entity_count view = record view {
  status = "materialized";
  online_entity_count = entity_count;
  materialized_at = some now;
}

-- `ReportMaterialization`
unfoldable pub report_materialization :
    Clock → String → ℤ → String → State → State × Outcome FeatureView
report_materialization clock name entity_count actor s =
    if ltb_ℤ entity_count (pos 0)
    then (s, refused (message "entity_count cannot be negative"))
    else elim (find_first (is_view name) s.features) [
      | none ↦ (s, refused not_found)
      | some found ↦
          let change = materialize (clock 0) entity_count in
          (
            record_event (clock 1) (clock 2) "feature_view.materialized" "feature_view" found.id
                actor (("entity_count", int entity_count) ∷ [])
                (record s { features = update_first (is_view name) change s.features }),
            returned (change found),
          )
    ]
