-- ===== src/Auth/Sessions.antt =====
-- go/internal/auth/local_session.go, with `safeReturnTo` of session.go: the sessions of the local
-- sign-in page. Cookies and redirects are the values they are made from.
pub mod History
use mlops.Base.{
  ℕ, ◌+◌, ◌*◌, String, Bool, true, false, List, [], ◌∷◌, Option, none, some, ◌==◌, ◌||◌, ◌&&◌, not,
  ltb, if◌then◌else◌,
}
use Prim.Native.String.{◌++◌}
use mlops.Base.Text.{is_empty, has_prefix}
use mlops.Api.Value.{Time}

-- What `safeReturnTo` reads of a `url.URL`.
pub record ParsedUrl : Type 0 where
  pub is_abs : Bool
  pub host : String
  pub path : String
  pub request_uri : String

-- The fields of the form that `login` reads.
pub record Form : Type 0 where
  pub username : String
  pub password : String
  pub return_to : String

-- What the handlers read of a request: `form` is `none` where `ParseForm` fails, and `cookie` is the
-- value of nexus_local_session.
pub record LocalRequest : Type 0 where
  pub method : String
  pub path : String
  pub uri : String
  pub form : Option Form
  pub cookie : Option String

-- The name and the password of the user, the map of the sessions, with the newest entry of a token
-- in front, and the random text that `randomToken` gives, `none` where it fails.
pub record Manager : Type 0 where
  pub username : String
  pub password : String

abbrev pub SessionMap : Type 0
SessionMap = List (String × Time)

pub data Response : Type 0 where
  redirected : String → Response
  session_set : String → Time → String → Response
  session_cleared : Response
  denied : ℕ → String → Response
  passed : Response

-- `sessions[token]`, and `delete(sessions, token)`
unfoldable pub lookup : String → SessionMap → Option Time
lookup token [] = none
lookup token ((key, expires) ∷ m) = if key == token then some expires else lookup token m

unfoldable pub remove : String → SessionMap → SessionMap
remove token [] = []
remove token ((key, expires) ∷ m) =
    let rest = remove token m in if key == token then rest else (key, expires) ∷ rest

-- `safeReturnTo`, with `parse` for `url.Parse`.
unfoldable pub safe_return_to : (String → Option ParsedUrl) → String → String
safe_return_to parse value = if is_empty value then "/console.html" else elim (parse value) [
  | none ↦ "/console.html"
  | some parsed ↦
      if parsed.is_abs
        || not (is_empty parsed.host)
        || not (has_prefix parsed.path "/")
        || has_prefix parsed.path "//"
      then "/console.html"
      else parsed.request_uri
]

-- `8 * time.Hour`
abbrev pub lifetime : ℕ
lifetime = 8 * 3600000000000

-- The test of the form in `login`.
unfoldable pub credentials_match : Manager → Form → Bool
credentials_match manager form =
    form.username == manager.username && form.password == manager.password

-- `localConsolePath`
unfoldable pub local_console_path : String → Bool
local_console_path path = path == "/console.html" || path == "/app.js" || path == "/styles.css"

-- `authenticated`, at the time `now`. The last nanosecond still counts.
unfoldable pub authenticated : Time → LocalRequest → SessionMap → Bool
authenticated now request m = elim request.cookie [
  | none ↦ false
  | some token ↦ elim (lookup token m) [ none ↦ false | some expires ↦ not (ltb expires now) ]
]

module _ (manager : Manager) (parse : String → Option ParsedUrl) where
  -- `login`, with what `randomToken` gives, `none` where it fails.
  unfoldable pub login : Time → Option String → LocalRequest → SessionMap → SessionMap × Response
  login now random request m = elim request.form [
    | none ↦ (m, redirected "/login.html?error=invalid")
    | some form ↦
        if not (credentials_match manager form)
        then (m, redirected "/login.html?error=invalid")
        else elim random [
          | none ↦ (m, denied 500 "could not create session")
          | some token ↦
              let expires = now + lifetime in
              (
                (token, expires) ∷ m,
                session_set token expires (safe_return_to parse form.return_to),
              )
        ]
  ]

  -- `logout`
  unfoldable pub logout : LocalRequest → SessionMap → SessionMap × Response
  logout request m = elim request.cookie [
    | none ↦ (m, session_cleared)
    | some token ↦ (remove token m, session_cleared)
  ]

  -- `Handler`, with `escape` for `url.QueryEscape`. Where it passes the request on, `passed`.
  unfoldable pub handle_session :
      (String → String) → Time → Option String → LocalRequest → SessionMap → SessionMap × Response
  handle_session escape now random request m =
      if request.path == "/auth/local/login" && request.method == "POST"
      then login now random request m
      else if request.path == "/auth/logout"
      then logout request m
      else if local_console_path request.path && not (authenticated now request m)
      then (m, redirected ("/login.html?return_to=" ++ escape request.uri))
      else (m, passed)
