-- ===== src/Tests/Auth.antt =====
-- The roles, a personal API key, and the gateway.
use mlops.Base.{
  ◌≡◌, refl, String, [], ◌∷◌, true, false, Option, some, none, any, ◌==◌, if◌then◌else◌,
}
use mlops.Base.Text.{has_prefix, has_suffix, contains, trim_space, trim_prefix}
use mlops.Api.Access.{ApiToken}
use mlops.Auth.{
  Principal, allowed, allowed_by, user_may, is_read, has_role, has_service, has_any_prefix,
  service_for_path, machine_reporting_path,
}
use mlops.Auth.Middleware.{
  Request, Handler, login_redirect, session_handler, served, Environment, Profile, presented,
  with_principal, service_identity, service_principal, public_path, authenticate, middleware,
  identity, resolve_profile, rbac, token_principal, api_token_middleware, local_dev,
}
use mlops.Auth.Sessions.{handle_session, local_console_path}
use mlops.Auth.Front.{Local, oidc, local, local_session_handler, gateway}
use mlops.Auth.Roles.{write_right, allowed-write, InScope, allowed-InScope}
use mlops.Auth.Gateway.{Genuine, Passed, gateway-Genuine}

auth_code : Unit {0}
unfolding has_prefix has_suffix contains trim_space trim_prefix allowed allowed_by user_may is_read
    has_role has_service has_any_prefix service_for_path machine_reporting_path presented
    service_principal public_path authenticate middleware identity resolve_profile rbac
    token_principal api_token_middleware session_handler gateway local_session_handler
    handle_session local_console_path
auth_code = tt

abbrev engineer : Principal
engineer = record service_identity { subject = "eve"; roles = "viewer" ∷ "engineer" ∷ [] }

engineer_posts : allowed engineer "POST" "/api/v1/models" ≡ true
unfolding auth_code
engineer_posts = refl

allowed-write_example :
    (has_prefix "/api/v1/models" "/api/v1/admin/" ≡ false)
    × (engineer.disabled ≡ false)
    × (any (write_right engineer "POST" "/api/v1/models") engineer.roles ≡ true)
unfolding auth_code
allowed-write_example =
    allowed-write engineer "POST" "/api/v1/models" refl refl refl refl engineer_posts

abbrev key : ApiToken
key = record {
  id = "tok-1";
  subject = "ann";
  name = "ci";
  prefix = "nxs_1";
  secret_hash = "00";
  services = "models" ∷ [];
  project_ids = [];
  created_at = 0;
  expires_at = 9;
  last_used_at = none;
  revoked_at = none;
}

key_reads : allowed (token_principal key) "GET" "/api/v1/models" ≡ true
unfolding auth_code
key_reads = refl

allowed-InScope_example :
    InScope key "GET" "/api/v1/models"
    × (has_prefix "/api/v1/models" "/api/v1/admin/" ≡ false)
    × (has_prefix "/api/v1/models" "/api/v1/settings/" ≡ false)
allowed-InScope_example = allowed-InScope key "GET" "/api/v1/models" key_reads

abbrev env : Environment
env = record { internal_token = "s3cret"; local_role = "" }

abbrev call : Request
call = record {
  method = "GET";
  path = "/api/v1/models";
  request_uri = "/api/v1/models";
  authorization = "Bearer nxs_1_abc";
  session_cookie = none;
  principal = none;
}

abbrev keys : String → Option ApiToken
keys s = if s == "nxs_1_abc" then some key else none

abbrev no_sign_in : Handler
no_sign_in r = login_redirect r.request_uri

abbrev nobody : String → Option Principal
nobody s = none

abbrev no_profile : String → Option Profile
no_profile s = none

call_served :
    gateway env keys no_profile (oidc no_sign_in nobody) call
    ≡ served (with_principal (token_principal key) call)
unfolding auth_code
call_served = refl

gateway-Genuine_example :
    (p : Principal) × Genuine env keys no_profile (oidc no_sign_in nobody) call p
    × Passed env keys no_profile p call (with_principal (token_principal key) call)
unfolding has_prefix public_path
gateway-Genuine_example =
    gateway-Genuine env keys no_profile (oidc no_sign_in nobody) call
      (with_principal (token_principal key) call) refl refl refl call_served

-- Without OIDC, a request without a credential is one of an administrator.
abbrev console : Local
console = record {
  manager = record { username = "admin"; password = "mlaiops-local" };
  parse = λ value. none;
  escape = λ value. value;
  now = 5;
  random = none;
  sessions = [];
  form = λ r. none;
  cookie = λ r. none;
  page = λ answer. login_redirect "";
}

abbrev bare_call : Request
bare_call = record call { authorization = "" }

bare_call_served :
    gateway env keys no_profile (local console) bare_call
    ≡ served (with_principal (local_dev env) bare_call)
unfolding auth_code
bare_call_served = refl
