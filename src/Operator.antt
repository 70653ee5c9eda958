-- ===== src/Operator.antt =====
-- go/internal/operator/reconciler.go: the workload and the traffic of an agent. `to_lower` is
-- `strings.ToLower`; a Go map is the list of its entries.
pub mod Plans
pub mod Workspace
use Prim.Native.Char.{code}
use Prim.Native.String.{◌++◌}
use mlops.Base.{String, List, [], ◌∷◌, ◌||◌, eqb, if◌then◌else◌}
use mlops.Base.Int.{ℤ, pos, ltb_ℤ, sub_ℤ}
use mlops.Base.Slug.{trim_dashes}
use mlops.Base.Text.{is_empty, trim_space}

pub record AgentSpec : Type 0 where
  pub name : String
  pub namespace : String
  pub version : String
  pub image : String
  pub graph_module : String
  pub min_replicas : ℤ
  pub max_replicas : ℤ
  pub llm_backend : String
  pub langfuse_project : String
  pub canary_weight : ℤ
  pub stable_ref : String

pub record Container : Type 0 where
  pub name : String
  pub image : String
  pub port : ℤ
  pub env : List (String × String)

pub record AgentWorkload : Type 0 where
  pub name : String
  pub namespace : String
  pub labels : List (String × String)
  pub replicas : ℤ
  pub containers : List Container
  pub annotations : List (String × String)

pub record TrafficRoute : Type 0 where
  pub stable_destination : String
  pub canary_destination : String
  pub stable_weight : ℤ
  pub canary_weight : ℤ

pub record AgentPlan : Type 0 where
  pub workload : AgentWorkload
  pub traffic : TrafficRoute

pub data Reconciled : Type 0 where
  rejected : String → Reconciled
  planned : AgentPlan → Reconciled

-- `strings.NewReplacer(".", "-", "_", "-")`
unfoldable pub dashed : String → String
dashed String.[] = String.[]
dashed (String.◌∷◌ c s) =
    let rest = dashed s in
    if eqb (code c) 46 || eqb (code c) 95 then String.◌∷◌ "-" rest else String.◌∷◌ c rest

-- The replicas that the workload starts with.
unfoldable pub first_replicas : AgentSpec → ℤ
first_replicas spec = if ltb_ℤ spec.min_replicas (pos 1) then pos 1 else spec.min_replicas

module _ (to_lower : String → String) where
  -- `sanitizeVersion`
  unfoldable pub sanitize_version : String → String
  sanitize_version version = trim_dashes (dashed (to_lower version))

  unfoldable pub workload_name : AgentSpec → String
  workload_name spec = spec.name ++ "-" ++ sanitize_version spec.version

  -- The workload of the plan, with the replicas that it starts with.
  unfoldable pub workload_of : ℤ → AgentSpec → AgentWorkload
  workload_of replicas spec = record {
    name = workload_name spec;
    namespace = spec.namespace;
    labels =
        ("app.kubernetes.io/name", spec.name)
        ∷ ("app.kubernetes.io/component", "agent")
        ∷ ("app.kubernetes.io/managed-by", "mlaiops-operator")
        ∷ ("mlaiops.io/version", spec.version)
        ∷ [];
    replicas = replicas;
    containers =
        record {
          name = "agent";
          image = spec.image;
          port = pos 8000;
          env =
              ("MLAIOPS_AGENT_NAME", spec.name)
              ∷ ("MLAIOPS_AGENT_VERSION", spec.version)
              ∷ ("MLAIOPS_GRAPH_MODULE", spec.graph_module)
              ∷ ("MLAIOPS_LLM_BACKEND", spec.llm_backend)
              ∷ ("MLAIOPS_LANGFUSE_PROJECT", spec.langfuse_project)
              ∷ ("OPENAI_BASE_URL", "http://localhost:8081/v1")
              ∷ [];
        }
        ∷ record {
          name = "trace-proxy";
          image = "ghcr.io/mlaiops/trace-proxy:latest";
          port = pos 8081;
          env = ("MLAIOPS_AGENT_NAME", spec.name) ∷ [];
        }
        ∷ [];
    annotations = ("mlaiops.io/inject-trace-proxy", "true") ∷ [];
  }

  -- The traffic of the plan: without a stable version, all of it goes to the workload.
  unfoldable pub traffic_of : AgentSpec → TrafficRoute
  traffic_of spec =
      let name = workload_name spec in
      if is_empty spec.stable_ref
      then record {
        stable_destination = name;
        canary_destination = name;
        stable_weight = pos 100;
        canary_weight = pos 0;
      }
      else record {
        stable_destination = spec.stable_ref;
        canary_destination = name;
        stable_weight = sub_ℤ (pos 100) spec.canary_weight;
        canary_weight = spec.canary_weight;
      }

  -- `ReconcileAgent`
  unfoldable pub reconcile_agent : AgentSpec → Reconciled
  reconcile_agent spec =
      let replicas = first_replicas spec in
      if is_empty (trim_space spec.name) || is_empty (trim_space spec.namespace)
      then rejected "name and namespace are required"
      else if is_empty spec.image || is_empty spec.version || is_empty spec.graph_module
      then rejected "image, version and graph module are required"
      else if ltb_ℤ spec.canary_weight (pos 0) || ltb_ℤ (pos 100) spec.canary_weight
      then rejected "canary weight must be between 0 and 100"
      else if ltb_ℤ spec.max_replicas replicas
      then rejected "max replicas must be greater than or equal to min replicas"
      else planned (record { workload = workload_of replicas spec; traffic = traffic_of spec })
