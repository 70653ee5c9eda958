-- ===== src/Auth.antt =====
-- go/internal/auth/auth.go: principals, and which requests a principal may make.
pub mod Roles
pub mod Middleware
pub mod Front
pub mod Gateway
pub mod Sessions
use mlops.Base.{
  String, Bool, true, false, List, [], ◌∷◌, ◌==◌, ◌||◌, ◌&&◌, not, is_nil, if◌then◌else◌,
}
use mlops.Base.Text.{is_empty, has_prefix, has_suffix, contains}

pub record Principal : Type 0 where
  pub subject : String
  pub email : String
  pub tenant : String
  pub roles : List String
  pub namespaces : List String
  pub services : List String
  pub project_ids : List String
  pub disabled : Bool
  pub provisioned : Bool
  pub credential : String

-- `engineerWrite`
abbrev pub engineer_write : List String
engineer_write =
    "/api/v1/projects" ∷ "/api/v1/pipelines" ∷ "/api/v1/models" ∷ "/api/v1/agents" ∷ "/api/v1/tools"
    ∷ "/api/v1/features" ∷ "/api/v1/traces" ∷ "/api/v1/functions" ∷ "/api/v1/realtime" ∷ []

-- `serviceWrite`
abbrev pub service_write : List String
service_write =
    "/api/v1/traces" ∷ "/api/v1/pipelines/runs" ∷ "/api/v1/features" ∷ "/api/v1/realtime" ∷ []

-- `userWrite`
abbrev pub user_write : List String
user_write =
    "/api/v1/projects" ∷ "/api/v1/pipelines" ∷ "/api/v1/models" ∷ "/api/v1/agents" ∷ "/api/v1/tools"
    ∷ "/api/v1/features" ∷ "/api/v1/traces" ∷ "/api/v1/functions" ∷ "/api/v1/realtime" ∷ []

-- `machineReportingPath`
unfoldable pub machine_reporting_path : String → Bool
machine_reporting_path path =
    path == "/api/v1/traces"
    || (has_prefix path "/api/v1/pipelines/runs/" && has_suffix path "/steps")
    || (has_prefix path "/api/v1/features/" && has_suffix path "/materialized")
    || has_prefix path "/api/v1/realtime/"

-- `hasRole`
unfoldable pub has_role : Principal → String → Bool
has_role principal expected = contains principal.roles expected

-- `hasService`
unfoldable pub has_service : List String → String → Bool
has_service services expected = if is_empty expected then false else contains services expected

-- `serviceForPath`
unfoldable pub service_for_path : String → String
service_for_path path =
    if path == "/api/v1/dashboard"
      || path == "/api/v1/onboarding/readiness"
      || path == "/api/v1/events"
    then "overview"
    else if has_prefix path "/api/v1/projects/" && has_suffix path "/repository"
    then "git"
    else if has_prefix path "/api/v1/projects"
    then "projects"
    else if has_prefix path "/api/v1/pipelines"
    then "pipelines"
    else if has_prefix path "/api/v1/models"
    then "models"
    else if has_prefix path "/api/v1/agents" || has_prefix path "/api/v1/traces"
    then "agents"
    else if has_prefix path "/api/v1/features"
    then "features"
    else if has_prefix path "/api/v1/storage"
    then "storage"
    else if has_prefix path "/api/v1/realtime"
    then "realtime"
    else if has_prefix path "/api/v1/catalog"
        || has_prefix path "/api/v1/tools"
        || has_prefix path "/api/v1/prompts"
    then "catalog"
    else if has_prefix path "/api/v1/components" || has_prefix path "/api/v1/connections"
    then "platform"
    else if has_prefix path "/api/v1/functions"
    then "functions"
    else ""

-- `hasAnyPrefix`
unfoldable pub has_any_prefix : String → List String → Bool
has_any_prefix path [] = false
has_any_prefix path (prefix ∷ prefixes) = has_prefix path prefix || has_any_prefix path prefixes

-- The variable `read` of `Allowed`.
unfoldable pub is_read : String → Bool
is_read method = method == "GET" || method == "HEAD" || method == "OPTIONS"

-- The case of `RoleUser` in the loop of `Allowed`, which always returns.
unfoldable pub user_may : Principal → String → String → Bool
user_may principal method path =
    if path == "/api/v1/me"
    then true
    else if not (is_read method) && machine_reporting_path path
    then false
    else principal.provisioned
      && has_service principal.services (service_for_path path)
      && (is_read method || has_any_prefix path user_write)

-- The loop of `Allowed` over the roles.
unfoldable pub allowed_by : List String → Principal → String → String → Bool
allowed_by [] principal method path = false
allowed_by (role ∷ roles) principal method path =
    let rest = allowed_by roles principal method path in
    if role == "admin" || role == "operator"
    then true
    else if role == "user"
    then user_may principal method path
    else if role == "viewer"
    then is_read method || rest
    else if role == "engineer"
    then (is_read method || has_any_prefix path engineer_write) || rest
    else if role == "service"
    then (is_read method || has_any_prefix path service_write) || rest
    else rest

-- `Allowed`
unfoldable pub allowed : Principal → String → String → Bool
allowed principal method path =
    if principal.disabled
    then false
    else if has_prefix path "/api/v1/admin/"
    then has_role principal "admin" || has_role principal "operator"
    else if method == "GET" && (path == "/api/v1/blogs" || has_prefix path "/api/v1/blogs/")
    then true
    else if has_prefix path "/api/v1/settings/"
    then not (has_role principal "service")
      && not (principal.credential == "api_token")
      && not (is_nil principal.roles)
    else if path == "/api/v1/access-requests" && (method == "GET" || method == "POST")
    then not (has_role principal "service") && not (is_nil principal.roles)
    else allowed_by principal.roles principal method path
