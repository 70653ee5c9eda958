-- ===== src/Auth/Middleware.antt =====
-- go/internal/auth/auth.go and token.go: the handlers that stand in front of the API. A handler
-- takes a request to a response; what the request's context carries is a field of the request.
use mlops.Base.{
  ℕ, String, Bool, true, false, List, [], ◌∷◌, Option, none, some, ◌==◌, ◌||◌, ◌&&◌, not,
  if◌then◌else◌,
}
use mlops.Base.Text.{is_empty, has_prefix, trim_space, trim_prefix}
use mlops.Api.Access.{ApiToken}
use mlops.Auth.{Principal, has_role, allowed}

pub record Request : Type 0 where
  pub method : String
  pub path : String
  pub request_uri : String
  pub authorization : String  -- the header of that name, empty where it is missing
  pub session_cookie : Option String
  pub principal : Option Principal  -- `PrincipalFrom` of the request's context

pub data Response : Type 0 where
  denied : ℕ → String → Response
  login_redirect : String → Response  -- to /auth/login, to return to the URI
  served : Request → Response  -- by the handlers behind the middleware

abbrev pub Handler : Type 0
Handler = Request → Response

-- The process environment: MLAIOPS_INTERNAL_TOKEN and MLAIOPS_LOCAL_ROLE.
pub record Environment : Type 0 where
  pub internal_token : String
  pub local_role : String

abbrev pub bearer : Request → String
bearer r = trim_space (trim_prefix r.authorization "Bearer ")

abbrev pub service_identity : Principal
service_identity = record {
  subject = "internal-service";
  email = "";
  tenant = "";
  roles = "service" ∷ [];
  namespaces = [];
  services = [];
  project_ids = [];
  disabled = false;
  provisioned = false;
  credential = "";
}

-- `servicePrincipal`
unfoldable pub service_principal : Environment → String → Option Principal
service_principal env token =
    if is_empty env.internal_token || not (token == env.internal_token)
    then none
    else some service_identity

-- `publicPath`
unfoldable pub public_path : String → String → Bool
public_path method path =
    if method == "GET" && (path == "/api/v1/blogs" || has_prefix path "/api/v1/blogs/")
    then true
    else path == "/"
      || path == "/index.html"
      || path == "/landing.css"
      || path == "/landing.js"
      || path == "/api/v1/health"
      || path == "/api/openapi.json"
      || path == "/api-docs.html"
      || path == "/api-docs.css"
      || path == "/api-docs.js"
      || path == "/blogs.html"
      || path == "/blog.html"
      || path == "/blog.css"
      || path == "/blog.js"
      || has_prefix path "/auth/"

abbrev pub with_principal : Principal → Request → Request
with_principal p r = record r { principal = some p }

-- The bearer token of `Middleware`, or else the session cookie.
unfoldable pub presented : Request → String
presented r =
    if is_empty (bearer r)
    then elim r.session_cookie [ none ↦ "" | some value ↦ value ]
    else bearer r

-- The local development principal.
abbrev pub local_dev : Environment → Principal
local_dev env = record service_identity {
  subject = "local-dev";
  roles =
      (if is_empty (trim_space env.local_role) then "admin" else trim_space env.local_role) ∷ [];
}

module _ (env : Environment) where
  -- `Middleware`, past the tests for a public path and for a principal in the context. `verify` is
  -- the verifier's `Verify`, `none` where it returns an error.
  unfoldable pub authenticate : (String → Option Principal) → Handler → Handler
  authenticate verify next r =
      let token = presented r in
      if is_empty token
      then if has_prefix r.path "/api/"
        then denied 401 "missing bearer token"
        else login_redirect r.request_uri
      else elim (service_principal env token) [
        | some service ↦ next (with_principal service r)
        | none ↦ elim (verify token) [
          | none ↦ denied 401 "invalid bearer token"
          | some principal ↦ next (with_principal principal r)
        ]
      ]

  -- `Middleware`
  unfoldable pub middleware : (String → Option Principal) → Handler → Handler
  middleware verify next r =
      if public_path r.method r.path
      then next r
      else elim r.principal [ none ↦ authenticate verify next r | some _ ↦ next r ]

  -- The principal of `RBACWithResolver`, before the access profile: that of the context, the
  -- internal service, or the local development principal.
  unfoldable pub identity : Request → Principal
  identity r = elim r.principal [
    | some principal ↦ principal
    | none ↦ elim (service_principal env (bearer r)) [
      | some service ↦ service
      | none ↦ local_dev env
    ]
  ]

-- What an access profile gives a principal: `roles, services, projectIDs, disabled`.
pub record Profile : Type 0 where
  pub roles : List String
  pub services : List String
  pub project_ids : List String
  pub disabled : Bool

-- The part of `RBACWithResolver` that applies the access profile of the subject.
unfoldable pub resolve_profile : (String → Option Profile) → Principal → Principal
resolve_profile resolve principal =
    if not (is_empty principal.subject)
      && not (has_role principal "service")
      && not (principal.credential == "api_token")
    then elim (resolve principal.subject) [
      | none ↦ principal
      | some profile ↦ record principal {
        roles = profile.roles;
        services = profile.services;
        project_ids = profile.project_ids;
        disabled = profile.disabled;
        provisioned = true;
      }
    ]
    else principal

-- The paths that `RBACWithResolver` lets through with no check.
abbrev pub unchecked : String → Bool
unchecked path =
    not (has_prefix path "/api/") || path == "/api/v1/health" || path == "/api/openapi.json"

-- `RBACWithResolver`
unfoldable pub rbac : Environment → (String → Option Profile) → Handler → Handler
rbac env resolve next r =
    let principal = resolve_profile resolve (identity env r) in
    if unchecked r.path
    then next r
    else if not (allowed principal r.method r.path)
    then denied 403 "access is not provisioned for this service"
    else next (with_principal principal r)

-- The principal of a personal API key.
unfoldable pub token_principal : ApiToken → Principal
token_principal token = record {
  subject = token.subject;
  email = "";
  tenant = "";
  roles = "user" ∷ [];
  namespaces = [];
  services = token.services;
  project_ids = token.project_ids;
  disabled = false;
  provisioned = true;
  credential = "api_token";
}

-- `APITokenMiddleware`, with `none` where `resolve` returns an error.
unfoldable pub api_token_middleware : (String → Option ApiToken) → Handler → Handler
api_token_middleware resolve next r =
    if not (has_prefix (bearer r) "nxs_") then next r else elim (resolve (bearer r)) [
      | none ↦ denied 401 "invalid API token"
      | some token ↦ next (with_principal (token_principal token) r)
    ]

-- `SessionManager.Handler`, with `sign_in` for its three pages.
unfoldable pub session_handler : Handler → Handler → Handler
session_handler sign_in next r =
    if r.path == "/auth/login" || r.path == "/auth/callback" || r.path == "/auth/logout"
    then sign_in r
    else next r
