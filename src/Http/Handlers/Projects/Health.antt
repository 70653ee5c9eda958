-- ===== src/Http/Handlers/Projects/Health.antt =====
-- The readiness of the platform and the health of its components.
use mlops.Base.{
  ◌*◌, ◌/◌, ◌≤◌, ◌≡◌, refl, String, Bool, true, false, List, [], ◌∷◌, ◌==◌, ◌||◌, ◌&&◌, any, count,
  length, eqb, ltb, arith, Bool-cases, inl, inr,
}
use mlops.Api.Project.{Connection}
use mlops.Store.{State}
use mlops.Http.Handlers.Projects.{
  choose, is_healthy, is_configured, readiness_items, readiness_for, status_from,
}

-- The platform is ready exactly where each of the five conditions holds: there is a project, and a
-- healthy connection to Kubernetes, to MLflow, to S3 or MinIO, and to Kafka. The percentage is at
-- most 100, and is 100 exactly then.
pub readiness_for-ready :
    (s : State)
    → let r = readiness_for s in
      (r.percent ≤ 100)
      × (r.ready ≡ eqb r.percent 100)
      × (r.ready ≡ (
          ltb 0 (length s.projects)
          && is_healthy s.connections "kubernetes"
          && is_healthy s.connections "mlflow"
          && (is_healthy s.connections "s3" || is_healthy s.connections "minio")
          && is_healthy s.connections "kafka"))
unfolding readiness_for readiness_items
readiness_for-ready s =
    by_cases (ltb 0 (length s.projects)) (is_healthy s.connections "kubernetes")
      (is_healthy s.connections "mlflow")
      (is_healthy s.connections "s3" || is_healthy s.connections "minio")
      (is_healthy s.connections "kafka")
  where
    by_cases :
        (a b c d e : Bool)
        → let n =
            count
              (λ status. status == "ready")
              (choose a "ready" "pending"
                ∷ choose b "ready" "pending"
                ∷ choose c "ready" "pending"
                ∷ choose d "ready" "pending"
                ∷ choose e "ready" "pending"
                ∷ []) in
          (n * 100 / 5 ≤ 100)
          × (eqb n 5 ≡ eqb (n * 100 / 5) 100)
          × (eqb n 5 ≡ (a && b && c && d && e))
    by_cases false b c d e = ground arith
    by_cases true false c d e = ground arith
    by_cases true true false d e = ground arith
    by_cases true true true false e = ground arith
    by_cases true true true true false = ground arith
    by_cases true true true true true = ground arith

-- A component is healthy exactly where some connection of one of its types is healthy, whatever else
-- is configured.
status_from-healthy :
    (connections : List Connection) (kinds : List String) (status : String)
    → (status == "healthy") ≡ false
    → (status_from connections status kinds == "healthy") ≡ any (is_healthy connections) kinds
unfolding status_from
status_from-healthy connections [] status h = h
status_from-healthy connections (kind ∷ kinds) status h =
    elim (Bool-cases (is_healthy connections kind)) [
      | inl e ↦ rw e refl
      | inr e ↦ elim (Bool-cases (is_configured connections kind)) [
        | inl c ↦ rw (e, c) (status_from-healthy connections kinds "unhealthy" refl)
        | inr c ↦ rw (e, c) (status_from-healthy connections kinds status h)
      ]
    ]
