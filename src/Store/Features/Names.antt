-- ===== src/Store/Features/Names.antt =====
-- Feature views under calls of `ApplyFeatureView` and `ReportMaterialization`.
use mlops.Base.{
  ◌≤◌, ◌≡◌, refl, String, Bool, false, some, ◌||◌, inl, inr, is_nil, Bool-cases, Option-cases,
  eq_iff, count, arith,
}
use mlops.Base.First.{
  find_first, count-eq_zero, count-update_first-le, find_first-update_first, find_first_passes,
}
use mlops.Base.Text.{is_empty}
use mlops.Api.Model.{FeatureView, ApplyFeatureViewRequest}
use mlops.Store.{State, Clock, record_event}
use mlops.Store.Features.{is_view, reapply, new_view, apply_feature_view}

abbrev pub ViewsDiffer : State → Type 0
ViewsDiffer s = (k : String) → count (is_view k) s.features ≤ 1

-- What a definition that is applied again leaves of a view.
abbrev pub SameHistory : FeatureView → FeatureView → Type 0
SameHistory view view' =
    (view'.id ≡ view.id)
    × (view'.status ≡ view.status)
    × (view'.online_entity_count ≡ view.online_entity_count)
    × (view'.materialized_at ≡ view.materialized_at)
    × (view'.created_at ≡ view.created_at)

abbrev pub refuses : ApplyFeatureViewRequest → Bool
refuses req = is_empty req.name || is_empty req.entity || is_nil req.fields

apply-ViewsDiffer :
    (clock : Clock) (req : ApplyFeatureViewRequest) (actor : String) (s : State)
    → ViewsDiffer s
    → ViewsDiffer (apply_feature_view clock req actor s).0
unfolding apply_feature_view record_event
apply-ViewsDiffer clock req actor s h k = elim (Bool-cases (refuses req)) [
  | inl e ↦ rw (e, apply_feature_view) (h k)
  | inr e ↦ elim (Option-cases (find_first (is_view req.name) s.features)) [
    | inr (found, f) ↦
        rw (e, apply_feature_view, f)
          (omega (
            arith,
            h k,
            count-update_first-le (is_view req.name) (is_view k) (reapply req)
                (unfold reapply in λ x a b. b) s.features,
          ))
    | inl f ↦
        rw (e, apply_feature_view, f)
          (unfold new_view in
            ground (arith, h k, eq_iff req.name k, count-eq_zero (is_view req.name) s.features f))
  ]
]

-- `ApplyFeatureView` keeps the names of the views distinct; and applied to a name that a view has,
-- it replaces the definition of the view and keeps its identity and its materialization.
apply_feature_view-SameHistory :
    (clock : Clock) (req : ApplyFeatureViewRequest) (actor : String) (s : State)
    {view : FeatureView}
    → refuses req ≡ false
    → ViewsDiffer s
    → find_first (is_view req.name) s.features ≡ some view
    → let s' = (apply_feature_view clock req actor s).0 in
      ViewsDiffer s'
      × ((view' : FeatureView) × (find_first (is_view req.name) s'.features ≡ some view')
          × SameHistory view view'
          × (view'.fields ≡ req.fields)
          × (view'.entity ≡ req.entity))
unfolding apply_feature_view record_event
apply_feature_view-SameHistory clock req actor s {view} e h f = (
  apply-ViewsDiffer clock req actor s h,
  (
    reapply req view,
    rw (e, apply_feature_view, f)
        (find_first-update_first (is_view req.name) (reapply req) s.features f
          (unfold reapply in find_first_passes (is_view req.name) s.features f)),
    unfold reapply in (refl, refl, refl, refl, refl),
    unfold reapply in refl,
    unfold reapply in refl,
  ),
)
