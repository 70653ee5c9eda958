-- ===== src/Tests/Admins.antt =====
-- An administrator who tries to demote himself.
use mlops.Base.{◌≡◌, refl, List, [], ◌∷◌, All, some, none, true, false, ◌+◌}
use mlops.Base.Int.{pos}
use mlops.Base.Text.{contains, trim_space}
use mlops.Api.Access.{UserAccess, UpsertUserAccessRequest}
use mlops.Auth.{Principal}
use mlops.Store.{State, zero_state, returned}
use mlops.Store.Access.{
  validate_access, unique, unique_from, resource_profiles, apply_resource_profile, has_negative,
  access_for,
}
use mlops.Http.Handlers.{Request, Env, read, principal}
use mlops.Http.Handlers.People.{handle_upsert_user_access}
use mlops.Http.Handlers.People.Admins.{
  IsAdmin, Call, upsert, delete, subject_of, serve_all, serve_all-KeepsAdmin,
  handle_upsert_user_access_untrimmed,
}

abbrev root : Principal
root = record {
  subject = "root";
  email = "";
  tenant = "t";
  roles = "admin" ∷ [];
  namespaces = [];
  services = [];
  project_ids = [];
  disabled = false;
  provisioned = true;
  credential = "session";
}

abbrev request : Request
request = record { caller = some root; actor_header = "" }

abbrev env : Env
env = record {
  clock = λ n. 100 + n;
  later = λ n. 200 + n;
  persist = λ _. none;
  openfaas = none;
  prefect = none;
  serving = none;
}

abbrev granted : UserAccess
granted = record {
  subject = "root";
  email = "";
  role = "admin";
  services = [];
  project_ids = [];
  storage = record { size_gb = pos 0; buckets = [] };
  compute = record {
    profile = "custom";
    vcpus = pos 0;
    memory_gb = pos 0;
    gpus = pos 0;
    gpu_type = "";
    max_vms = pos 0;
    max_projects = pos 0;
    max_runs = pos 0;
    max_functions = pos 0;
  };
  disabled = false;
  created_at = 0;
  updated_at = 0;
}

abbrev demotion : UpsertUserAccessRequest
demotion = record {
  email = "";
  role = "user";
  services = [];
  project_ids = [];
  storage = granted.storage;
  compute = granted.compute;
  disabled = true;
}

abbrev start : State
start = record zero_state { user_access = granted ∷ [] }

abbrev calls : List (Env × Call)
calls =
    (env, upsert 0 "root" (read demotion))
    ∷ (env, delete "root")
    ∷ (env, upsert 0 "ann" (read demotion))
    ∷ (env, delete "ann")
    ∷ []

calls_trimmed : All (λ c. trim_space (subject_of c.1) ≡ subject_of c.1) calls
unfolding trim_space
calls_trimmed = (refl, (refl, (refl, (refl, tt))))

is_admin : IsAdmin (principal request).subject start
unfolding principal
is_admin = (granted, refl, refl, refl)

serve_all-KeepsAdmin_example : IsAdmin (principal request).subject (serve_all request calls start)
serve_all-KeepsAdmin_example = serve_all-KeepsAdmin request calls start calls_trimmed is_admin

abbrev demoted : UserAccess
demoted = record granted { role = "user"; disabled = true }

demotion_valid : validate_access 0 " root" demotion ≡ returned demoted
unfolding validate_access trim_space contains unique unique_from resource_profiles
    apply_resource_profile has_negative
demotion_valid = refl

handle_upsert_user_access_untrimmed_example :
    access_for
      (principal request).subject
      (handle_upsert_user_access env request 0 " root" (read demotion) start).0
    ≡ returned (record demoted { updated_at = 100; created_at = 100 })
unfolding principal trim_space
handle_upsert_user_access_untrimmed_example =
    handle_upsert_user_access_untrimmed env request 0 " root" demotion start demoted refl refl
      demotion_valid refl
