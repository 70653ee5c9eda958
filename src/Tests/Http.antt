-- ===== src/Tests/Http.antt =====
-- Project listings and quotas.
use mlops.Base.{◌≡◌, refl, String, List, [], ◌∷◌, true, false, none, some, any, map}
use mlops.Base.Int.{pos}
use mlops.Base.Text.{contains, trim_space, byte_length}
use mlops.Api.Access.{ApiToken, UserAccess}
use mlops.Api.Project.{Project}
use mlops.Auth.{Principal}
use mlops.Auth.Middleware.{token_principal, service_identity}
use mlops.Store.{State, zero_state}
use mlops.Http.Access.{
  privileged, exempt, enforce, enforce_project_quota, filter_projects, project_allowed,
}
use mlops.Http.Access.Projects.{has_project_id, filter_projects-exceeds_scope}
use mlops.Api.Project.{CreateProjectRequest}
use mlops.Store.{record_event}
use mlops.Store.Projects.{initial_repository, new_project, create_project}
use mlops.Http.Handlers.{Request, Env, read, principal, actor, commit, decode}
use mlops.Http.Handlers.Projects.{answer_created, create_request, handle_create_project}
use mlops.Http.Handlers.Limits.Calls.{Call, create_project_of, serve, serve_all}
use mlops.Tests.Handlers.{env, lib}

abbrev key : ApiToken
key = record {
  id = "tok-1";
  subject = "ann";
  name = "ci";
  prefix = "nxs_1";
  secret_hash = "00";
  services = "projects" ∷ [];
  project_ids = "prj-1" ∷ [];
  created_at = 0;
  expires_at = 9;
  last_used_at = none;
  revoked_at = none;
}

abbrev own : Project
own = record {
  id = "prj-2";
  name = "Own";
  description = "";
  template = "";
  namespace = "own";
  status = "ready";
  created_at = 0;
  owner_subject = "ann";
  repository = none;
}

abbrev one_project : State
one_project = record zero_state { projects = own ∷ [] }

filter_projects-exceeds_scope_example :
    (any (has_project_id "prj-2") (filter_projects one_project.projects (token_principal key))
      ≡ true)
    × (project_allowed one_project (token_principal key) "prj-2" ≡ false)
unfolding contains
filter_projects-exceeds_scope_example = filter_projects-exceeds_scope one_project key "prj-2"

abbrev ann : Principal
ann = record service_identity { subject = "ann"; roles = "user" ∷ [] }

abbrev profile : UserAccess
profile = record {
  subject = "ann";
  email = "";
  role = "user";
  services = [];
  project_ids = [];
  storage = record { size_gb = pos 0; buckets = [] };
  compute = record {
    profile = "custom";
    vcpus = pos 0;
    memory_gb = pos 0;
    gpus = pos 0;
    gpu_type = "";
    max_vms = pos 0;
    max_projects = pos 2;
    max_runs = pos 0;
    max_functions = pos 0;
  };
  disabled = false;
  created_at = 0;
  updated_at = 0;
}

abbrev held : State
held = record zero_state { projects = own ∷ []; user_access = profile ∷ [] }

abbrev request : Request
request = record { caller = some ann; actor_header = "" }

abbrev project : String → CreateProjectRequest
project name = record {
  name = name;
  description = "";
  template = "";
  repository_url = "";
  default_branch = "";
  owner_subject = "";
}

-- There is room for the first of the two.
abbrev calls : List (Env × Call)
calls =
    (env, create_project_of (read (project "Second")))
    ∷ (env, create_project_of (read (project "Third")))
    ∷ []

limits_code : Unit {0}
unfolding contains trim_space byte_length privileged exempt enforce enforce_project_quota
    initial_repository new_project create_project record_event principal actor commit decode
    answer_created create_request handle_create_project serve serve_all
limits_code = tt

second_created :
    map (λ (p : Project). p.name) (serve_all lib request calls held).projects
    ≡ "Second" ∷ "Own" ∷ []
unfolding limits_code
second_created = refl
