-- ===== src/Tests/Sessions.antt =====
-- A sign-in with the right password, one with a wrong password, and a sign-out.
use mlops.Base.{◌≡◌, refl, List, [], ◌∷◌, Option, some, none, String, if◌then◌else◌}
use Prim.Native.String.{◌++◌}
use mlops.Auth.Sessions.{
  Manager, LocalRequest, handle_session, passed, redirected, local_console_path, login, logout,
  lookup, remove, authenticated, credentials_match, safe_return_to,
}
use mlops.Auth.Sessions.History.{Event, sessions_since, holds_session, handle_session-history}

abbrev manager : Manager
manager = record { username = "ann"; password = "secret" }

abbrev request : String → String → String → Option String → LocalRequest
request method path password cookie = record {
  method = method;
  path = path;
  uri = path;
  form = some (record { username = "ann"; password = password; return_to = "" });
  cookie = cookie;
}

abbrev events : List Event
events =
    record { at = 30; random = none; request = request "GET" "/auth/logout" "" (some "t2") }
    ∷ record {
      at = 20;
      random = some "t3";
      request = request "POST" "/auth/local/login" "guess" none;
    }
    ∷ record {
      at = 10;
      random = some "t2";
      request = request "POST" "/auth/local/login" "secret" none;
    }
    ∷ record {
      at = 5;
      random = some "t1";
      request = request "POST" "/auth/local/login" "secret" none;
    }
    ∷ []

abbrev parse : String → Option mlops.Auth.Sessions.ParsedUrl
parse _ = none

abbrev escape : String → String
escape s = s

session_code : Unit {0}
unfolding handle_session sessions_since login logout lookup remove authenticated credentials_match
    local_console_path
session_code = tt

one_left : sessions_since manager parse escape events ≡ ("t1", 28800000000005) ∷ []
unfolding session_code
one_left = refl

handle_session-history_example :
    (handle_session manager parse escape 40 none
      (request "GET" "/app.js" "" (some "t2"))
      (sessions_since manager parse escape events)).1
    ≡ (if holds_session manager parse escape 40 (request "GET" "/app.js" "" (some "t2")) events
        then passed
        else redirected ("/login.html?return_to=" ++ "/app.js"))
unfolding session_code
handle_session-history_example =
    handle_session-history manager parse escape 40 none (request "GET" "/app.js" "" (some "t2"))
      events refl
