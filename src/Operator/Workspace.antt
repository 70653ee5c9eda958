-- ===== src/Operator/Workspace.antt =====
-- go/internal/operator/workspace_controller.go: the objects that a user's workspace is reconciled to.
-- The calls of the cluster are not modelled: `reconcile_workspace` is what the functions that
-- `CreateOrUpdate` is given make of the objects they find, and the status that is written last.
pub mod Grants
use Prim.Native.String.{◌++◌}
use mlops.Base.{
  ℕ, ◌*◌, ◌/◌, String, Bool, List, [], ◌∷◌, ◌++◌ as append, Option, none, some, ◌==◌, ◌||◌, ◌&&◌,
  filter, map, length, ltb, is_nil, if◌then◌else◌,
}
use mlops.Base.Int.{ℤ, pos, pos_part, ltb_ℤ}
use mlops.Base.Text.{is_empty, contains}

pub record WorkspaceCompute : Type 0 where
  pub vcpus : ℤ
  pub memory_gb : ℤ
  pub gpus : ℤ
  pub gpu_type : String
  pub max_vms : ℤ

pub record WorkspaceSpec : Type 0 where
  pub subject : String
  pub services : List String
  pub compute : WorkspaceCompute
  pub storage_gb : ℤ
  pub disabled : Bool

-- The name and the namespace of the object stand beside its spec.
pub record Workspace : Type 0 where
  pub name : String
  pub namespace : String
  pub spec : WorkspaceSpec

-- The images and addresses of a `WorkspaceReconciler`.
pub record Images : Type 0 where
  pub workbench_image : String
  pub ide_image : String
  pub gateway_url : String
  pub feature_url : String
  pub storage_url : String
  pub mlflow_url : String
  pub prefect_url : String
  pub langfuse_url : String
  pub kafka_rest_url : String

-- The value of an environment variable: a text, or the key `token` of a secret.
pub data EnvValue : Type 0 where
  plain : String → EnvValue
  from_secret : String → EnvValue

-- `corev1.ResourceList`: the quantities of resources by their names, in thousandths.
abbrev pub Resources : Type 0
Resources = List (String × ℕ)

-- `resources[name] = quantity`
unfoldable pub put_quantity : String → ℕ → Resources → Resources
put_quantity name quantity [] = (name, quantity) ∷ []
put_quantity name quantity ((key, held) ∷ m) =
    let rest = put_quantity name quantity m in
    if key == name then (key, quantity) ∷ m else (key, held) ∷ rest

pub record WorkspaceContainer : Type 0 where
  pub name : String
  pub image : String
  pub port : ℕ
  pub env : List (String × EnvValue)
  pub resources : Resources  -- the requests, and the limits, which are the same

pub record WorkspaceStatus : Type 0 where
  pub phase : String
  pub workbench_url : String
  pub ide_url : String

-- The size of the claim in bytes, the replicas and the containers of the deployment, and the ports of
-- the service, `none` where it is deleted.
pub record WorkspacePlan : Type 0 where
  pub storage : ℕ
  pub replicas : ℕ
  pub containers : List WorkspaceContainer
  pub ports : Option (List (String × ℕ))
  pub status : WorkspaceStatus

pub data WorkspaceReconciled : Type 0 where
  failed : String → WorkspaceReconciled
  reconciled : WorkspacePlan → WorkspaceReconciled

-- 1024*1024*1024
abbrev pub gibibyte : ℕ
gibibyte = 1073741824

-- The services of the grant that have a container.
unfoldable pub services_of : WorkspaceSpec → List String
services_of spec = filter (contains spec.services) ("workbench" ∷ "ide" ∷ [])

-- The name of the resource that GPUs are counted as.
abbrev pub gpu_name : WorkspaceCompute → String
gpu_name compute = if is_empty compute.gpu_type then "nvidia.com/gpu" else compute.gpu_type

-- The GPUs of the grant go to the workbench. They replace a quantity of the same name.
unfoldable pub with_gpus : WorkspaceCompute → String → Resources → Resources
with_gpus compute service resources =
    if service == "workbench" && ltb_ℤ (pos 0) compute.gpus
    then put_quantity (gpu_name compute) (pos_part compute.gpus * 1000) resources
    else resources

module _ (images : Images) (workspace : Workspace) (auth_secret : String) where
  unfoldable pub environment_of : String → List (String × EnvValue)
  environment_of service =
      append
        (("MLAIOPS_URL", plain images.gateway_url)
          ∷ ("MLAIOPS_FEATURE_GATEWAY_URL", plain images.feature_url)
          ∷ ("MLAIOPS_STORAGE_PROXY_URL", plain images.storage_url)
          ∷ ("MLFLOW_TRACKING_URI", plain images.mlflow_url)
          ∷ ("PREFECT_API_URL", plain images.prefect_url)
          ∷ ("LANGFUSE_HOST", plain images.langfuse_url)
          ∷ ("KAFKA_REST_URL", plain images.kafka_rest_url)
          ∷ ("NEXUS_SUBJECT", plain workspace.spec.subject)
          ∷ ("NEXUS_WORKSPACE", plain "/workspace")
          ∷ [])
        (if service == "workbench"
          then ("S3_MOUNT_OPTIONAL", plain "true") ∷ ("JUPYTER_TOKEN", from_secret auth_secret) ∷ []
          else ("PASSWORD", from_secret auth_secret) ∷ [])

  -- The container of a service, where `parts` services share the grant. The numbers are positive.
  unfoldable pub container_of : ℕ → String → WorkspaceContainer
  container_of parts service =
      let compute = workspace.spec.compute in
      record {
        name = service;
        image = if service == "ide" then images.ide_image else images.workbench_image;
        port = if service == "ide" then 8080 else 8888;
        env = environment_of service;
        resources = with_gpus compute service (
            ("cpu", pos_part compute.vcpus * 1000 / parts)
            ∷ ("memory", pos_part compute.memory_gb * gibibyte / parts * 1000)
            ∷ []);
      }

  -- `containers`
  unfoldable pub containers : List WorkspaceContainer
  containers =
      let services = services_of workspace.spec in map (container_of (length services)) services

-- `workspacePorts`
unfoldable pub workspace_ports : List String → List (String × ℕ)
workspace_ports services =
    append (if contains services "workbench" then ("workbench", 8888) ∷ [] else [])
      (if contains services "ide" then ("ide", 8080) ∷ [] else [])

-- The size of the claim: it grows to what is requested, and never shrinks. `none` where the claim has
-- no size yet.
unfoldable pub storage_of : Option ℕ → ℕ → ℕ
storage_of none requested = requested
storage_of (some current) requested = if ltb current requested then requested else current

-- The address of a service of the workspace.
abbrev url_of : Workspace → String → String → String
url_of workspace service port =
    if contains workspace.spec.services service
    then "http://" ++ workspace.name ++ "." ++ workspace.namespace ++ ".svc:" ++ port
    else ""

-- The replicas of the deployment.
unfoldable pub replicas_of : WorkspaceSpec → List WorkspaceContainer → ℕ
replicas_of spec made = if spec.disabled || is_nil made then 0 else 1

-- What `Reconcile` makes of a spec that it accepts, with the size that the claim has.
unfoldable pub workspace_plan : Images → Workspace → Option ℕ → WorkspacePlan
workspace_plan images workspace current =
    let spec = workspace.spec in
    let made = containers images workspace (workspace.name ++ "-auth") in
    record {
      storage = storage_of current (pos_part spec.storage_gb * gibibyte);
      replicas = replicas_of spec made;
      containers = made;
      ports = if is_nil made then none else some (workspace_ports spec.services);
      status = record {
        phase = if spec.disabled then "Suspended" else "Ready";
        workbench_url = url_of workspace "workbench" "8888";
        ide_url = url_of workspace "ide" "8080";
      };
    }

-- `Reconcile`
unfoldable pub reconcile_workspace : Images → Workspace → Option ℕ → WorkspaceReconciled
reconcile_workspace images workspace current =
    let spec = workspace.spec in
    if is_empty spec.subject
      || ltb_ℤ spec.compute.vcpus (pos 1)
      || ltb_ℤ spec.compute.memory_gb (pos 1)
      || ltb_ℤ spec.storage_gb (pos 1)
    then failed "subject, vcpus, memoryGB and storageGB must be positive"
    else reconciled (workspace_plan images workspace current)
