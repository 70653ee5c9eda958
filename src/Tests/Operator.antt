-- ===== src/Tests/Operator.antt =====
-- An agent with a canary, and a workspace with both of its services.
use mlops.Base.{◌≡◌, refl, [], ◌∷◌, some, true, map, String}
use mlops.Base.Int.{pos}
use mlops.Base.Slug.{trim_dashes}
use mlops.Base.Text.{contains, trim_space}
use mlops.Operator.{
  AgentSpec, AgentPlan, planned, dashed, sanitize_version, workload_name, workload_of, traffic_of,
  first_replicas, reconcile_agent,
}
use mlops.Operator.Plans.{IsSafe, reconcile_agent-IsSafe}
use mlops.Operator.Workspace.{
  Images, Workspace, reconciled, workspace_plan, reconcile_workspace, services_of, containers,
  container_of, with_gpus, put_quantity,
}
use mlops.Operator.Workspace.Grants.{IsWithin, quantity, reconcile_workspace-IsWithin}

abbrev support : AgentSpec
support = record {
  name = "support";
  namespace = "agents";
  version = "v1.2_rc.";
  image = "img:1";
  graph_module = "app.graph";
  min_replicas = pos 0;
  max_replicas = pos 3;
  llm_backend = "vllm";
  langfuse_project = "support";
  canary_weight = pos 10;
  stable_ref = "support-v1-1";
}

abbrev same : String → String
same s = s

abbrev plan : AgentPlan
plan = record {
  workload = workload_of same (pos 1) support;
  traffic = record {
    stable_destination = "support-v1-1";
    canary_destination = "support-v1-2-rc";
    stable_weight = pos 90;
    canary_weight = pos 10;
  };
}

support_planned : reconcile_agent same support ≡ planned plan
unfolding reconcile_agent first_replicas workload_of traffic_of workload_name sanitize_version
    dashed trim_dashes trim_space
support_planned = refl

reconcile_agent-IsSafe_example : IsSafe support plan
reconcile_agent-IsSafe_example = reconcile_agent-IsSafe same support support_planned

abbrev images : Images
images = record {
  workbench_image = "jupyter";
  ide_image = "code";
  gateway_url = "";
  feature_url = "";
  storage_url = "";
  mlflow_url = "";
  prefect_url = "";
  langfuse_url = "";
  kafka_rest_url = "";
}

abbrev workspace : Workspace
workspace = record {
  name = "workspace-ann";
  namespace = "users";
  spec = record {
    subject = "ann";
    services = "ide" ∷ "workbench" ∷ [];
    compute = record {
      vcpus = pos 3;
      memory_gb = pos 8;
      gpus = pos 1;
      gpu_type = "";
      max_vms = pos 1;
    };
    storage_gb = pos 10;
    disabled = true;
  };
}

cpu_halved :
    map (λ c. quantity "cpu" c.resources) (containers images workspace "s") ≡ 1500 ∷ 1500 ∷ []
unfolding containers container_of services_of contains quantity with_gpus put_quantity
cpu_halved = refl

-- A user whose kind of GPU is "cpu" has 1 CPU in the workbench instead of 1.5.
abbrev odd : Workspace
odd = record workspace {
  spec = record workspace.spec { compute = record workspace.spec.compute { gpu_type = "cpu" } };
}

cpu_replaced : map (λ c. quantity "cpu" c.resources) (containers images odd "s") ≡ 1000 ∷ 1500 ∷ []
unfolding containers container_of services_of contains quantity with_gpus put_quantity
cpu_replaced = refl

workspace_accepted :
    reconcile_workspace images workspace (some 20)
    ≡ reconciled (workspace_plan images workspace (some 20))
unfolding reconcile_workspace
workspace_accepted = refl

reconcile_workspace-IsWithin_example :
    IsWithin workspace 20 (workspace_plan images workspace (some 20))
reconcile_workspace-IsWithin_example =
    reconcile_workspace-IsWithin images workspace 20 (refl, refl) workspace_accepted
