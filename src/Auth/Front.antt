-- ===== src/Auth/Front.antt =====
-- go/cmd/gateway/main.go: the handlers of the gateway around the API, with OIDC configured or not.
use mlops.Base.{String, Option}
use mlops.Api.Access.{ApiToken}
use mlops.Api.Value.{Time}
use mlops.Auth.{Principal}
use mlops.Auth.Sessions as Sessions
use mlops.Auth.Sessions.{Manager, ParsedUrl, Form, LocalRequest, SessionMap, passed, handle_session}
use mlops.Auth.Middleware.{
  Request, Response, served, Handler, Environment, Profile, middleware, session_handler, rbac,
  api_token_middleware,
}

-- The local sign-in with what it finds: the user, the parser of URLs, `url.QueryEscape`, the time,
-- the random text, the sessions, and the form and the cookie of a request. `page` writes what it
-- answers itself.
pub record Local : Type 0 where
  pub manager : Manager
  pub parse : String → Option ParsedUrl
  pub escape : String → String
  pub now : Time
  pub random : Option String
  pub sessions : SessionMap
  pub form : Request → Option Form
  pub cookie : Request → Option String
  pub page : Sessions.Response → Response

-- What the local sign-in reads of a request.
abbrev pub local_request : Local → Request → LocalRequest
local_request l r = record {
  method = r.method;
  path = r.path;
  uri = r.request_uri;
  form = l.form r;
  cookie = l.cookie r;
}

-- `LocalSessionManager.Handler`. The sessions that it leaves are those of `handle_session`.
unfoldable pub local_session_handler : Local → Handler → Handler
local_session_handler l next r =
    elim (handle_session l.manager l.parse l.escape l.now l.random (local_request l r)
      l.sessions).1 [ passed ↦ next r | other ↦ l.page other ]

-- Whether OIDC is configured: with the pages of the sign-in and the verifier, or with the local
-- sign-in.
pub data Mode : Type 0 where
  oidc : Handler → (String → Option Principal) → Mode
  local : Local → Mode

-- The handlers of the gateway in their order, around the API.
unfoldable pub gateway :
    Environment → (String → Option ApiToken) → (String → Option Profile) → Mode → Handler
gateway env tokens profiles (oidc sign_in verify) =
    api_token_middleware tokens
      (middleware env verify (session_handler sign_in (rbac env profiles served)))
gateway env tokens profiles (local l) =
    api_token_middleware tokens (local_session_handler l (rbac env profiles served))
