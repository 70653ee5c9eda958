-- ===== src/Http/Access.antt =====
-- go/internal/httpapi/access.go, and `tokenScopesAllowed` of server.go, over the local repository.
-- A Go map used as a set is the list of its keys, and a nil map is `none`.
pub mod Quota
pub mod Projects
use mlops.Base.{
  ℕ, String, Bool, true, false, List, [], ◌∷◌, ◌++◌, Option, none, some, ◌==◌, ◌||◌, ◌&&◌, not, all,
  count, filter, map, eqb, if◌then◌else◌,
}
use mlops.Base.First.{find_first}
use mlops.Base.Int.{ℤ, pos, negsuc, ltb_ℤ}
use mlops.Base.Text.{is_empty, contains}
use mlops.Api.Access.{UserAccess}
use mlops.Api.Project.{Project}
use mlops.Api.Pipeline.{PipelineRun, PipelineDefinition, Function}
use mlops.Api.Model.{Model}
use mlops.Api.Agent.{Agent}
use mlops.Auth.{Principal}
use mlops.Store.{State}
use mlops.Store.Access.{for_subject}

-- `privileged`
unfoldable pub privileged : Principal → Bool
privileged value =
    contains value.roles "admin"
    || contains value.roles "operator"
    || contains value.roles "service"

-- The test that ends most checks at once: the principal is privileged, or is no user.
unfoldable pub exempt : Principal → Bool
exempt value = privileged value || not (contains value.roles "user")

abbrev pub owned_by : Principal → Project → Bool
owned_by value project = project.owner_subject == value.subject

-- `allowedProjectIDs`
unfoldable pub allowed_project_ids : State → Principal → Option (List String)
allowed_project_ids s value =
    if exempt value
    then none
    else if value.credential == "api_token"
    then some value.project_ids
    else some (
        value.project_ids
        ++ map (λ (project : Project). project.id) (filter (owned_by value) s.projects))

-- A nil map allows everything; another, its keys.
abbrev pub permits : Option (List String) → String → Bool
permits none project_id = true
permits (some ids) project_id = contains ids project_id

-- `projectAllowed`
unfoldable pub project_allowed : State → Principal → String → Bool
project_allowed s value project_id = permits (allowed_project_ids s value) project_id

-- `filterProjects`
unfoldable pub filter_projects : List Project → Principal → List Project
filter_projects items value =
    if not (contains value.roles "user")
    then items
    else filter (λ item. contains value.project_ids item.id || owned_by value item) items

-- `filterRuns`, `filterPipelineDefinitions`, `filterFunctions`, `filterModels`, `filterAgents`
unfoldable pub filter_runs : List PipelineRun → Option (List String) → List PipelineRun
filter_runs items allowed = filter (λ item. permits allowed item.project_id) items

unfoldable pub filter_pipeline_definitions :
    List PipelineDefinition → Option (List String) → List PipelineDefinition
filter_pipeline_definitions items allowed = filter (λ item. permits allowed item.project_id) items

unfoldable filter_functions : List Function → Option (List String) → List Function
filter_functions items allowed = filter (λ item. permits allowed item.project_id) items

unfoldable pub filter_models : List Model → Option (List String) → List Model
filter_models items allowed = filter (λ item. permits allowed item.project_id) items

unfoldable pub filter_agents : List Agent → Option (List String) → List Agent
filter_agents items allowed = filter (λ item. permits allowed item.project_id) items

-- `modelAllowed`
unfoldable pub model_allowed : State → Principal → String → Bool
model_allowed s value model_id = elim (find_first (λ m. m.id == model_id) s.models) [
  | none ↦ false
  | some model ↦ project_allowed s value model.project_id
]

-- `agentAllowed`
unfoldable pub agent_allowed : State → Principal → String → Bool
agent_allowed s value agent_id = elim (find_first (λ a. a.id == agent_id) s.agents) [
  | none ↦ false
  | some agent ↦ project_allowed s value agent.project_id
]

-- `functionAllowed`
unfoldable pub function_allowed : State → Principal → String → Bool
function_allowed s value name = elim (find_first (λ f. f.name == name) s.functions) [
  | none ↦ privileged value
  | some function ↦ project_allowed s value function.project_id
]

-- The errors of the quota checks.
pub data Denial : Type 0 where
  not_provisioned : Denial
  quota_reached : ℤ → Denial

abbrev is_zero : ℤ → Bool
is_zero (pos n) = eqb n 0
is_zero (negsuc _) = false

-- A quota check: `none` where it passes.
unfoldable pub enforce : State → Principal → (UserAccess → ℤ) → ℕ → Option Denial
enforce s value limit held =
    if exempt value then none else elim (find_first (for_subject value.subject) s.user_access) [
      | none ↦ some not_provisioned
      | some access ↦
          if is_zero (limit access)
          then some not_provisioned
          else if ltb_ℤ (pos held) (limit access)
          then none
          else some (quota_reached (limit access))
    ]

-- `enforceProjectQuota`
unfoldable pub enforce_project_quota : State → Principal → Option Denial
enforce_project_quota s value =
    enforce s value (λ access. access.compute.max_projects) (count (owned_by value) s.projects)

abbrev pub is_active_of : Option (List String) → PipelineRun → Bool
is_active_of none run = false
is_active_of (some ids) run =
    contains ids run.project_id && (run.status == "queued" || run.status == "running")

-- `enforceRunQuota`. To look a key up in a nil map gives false.
unfoldable pub enforce_run_quota : State → Principal → Option Denial
enforce_run_quota s value =
    enforce s value (λ access. access.compute.max_runs)
      (count (is_active_of (allowed_project_ids s value)) s.runs)

-- `enforceFunctionQuota`
unfoldable pub enforce_function_quota : State → Principal → Option Denial
enforce_function_quota s value =
    enforce s value (λ access. access.compute.max_functions)
      (count (λ f. f.owner_subject == value.subject) s.functions)

-- `storageAllowed`
unfoldable storage_allowed : State → Principal → String → Bool
storage_allowed s value bucket =
    if exempt value then true else elim (find_first (for_subject value.subject) s.user_access) [
      | none ↦ false
      | some access ↦
          if is_zero access.storage.size_gb
          then false
          else if is_empty bucket
          then true
          else contains access.storage.buckets bucket
    ]

-- `tokenScopesAllowed`
unfoldable pub token_scopes_allowed : State → Principal → List String → List String → Bool
token_scopes_allowed s value services project_ids =
    if privileged value
    then true
    else all (contains value.services) services && all (project_allowed s value) project_ids
