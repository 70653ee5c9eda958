-- ===== src/Auth/Sessions/History.antt =====
-- The sessions after a history of requests.
use mlops.Base.{
  ◌≡◌, refl, ◌+◌, String, Bool, true, false, List, [], ◌∷◌, Option, none, some, ◌==◌, ◌&&◌, not,
  ltb, inl, inr, arith, eq_iff, Bool-cases, Option-cases, if◌then◌else◌,
}
use Prim.Native.String.{◌++◌}
use mlops.Api.Value.{Time}
use mlops.Auth.Sessions.{
  Manager, ParsedUrl, LocalRequest, SessionMap, passed, redirected, lookup, remove, lifetime,
  credentials_match, local_console_path, authenticated, login, logout, handle_session,
}

-- A request that has been handled: when, and with what random text.
pub record Event : Type 0 where
  pub at : Time
  pub random : Option String
  pub request : LocalRequest

module _ (manager : Manager) (parse : String → Option ParsedUrl) (escape : String → String) where
  -- The sessions after a history, with its newest event in front.
  unfoldable pub sessions_since : List Event → SessionMap
  sessions_since [] = []
  sessions_since (e ∷ earlier) =
      (handle_session manager parse escape e.at e.random e.request (sessions_since earlier)).0

  -- The form has the right name and password, and the token is the random text.
  abbrev pub signs_in : String → Event → Bool
  signs_in token e =
      elim e.request.form [ none ↦ false | some form ↦ credentials_match manager form ]
      && elim e.random [ none ↦ false | some given ↦ given == token ]

  -- Whether the event is a login with the right name and password that was given the token.
  abbrev pub gives : String → Event → Bool
  gives token e =
      (e.request.path == "/auth/local/login" && e.request.method == "POST") && signs_in token e

  -- Whether the event is a logout with the token.
  abbrev pub takes : String → Event → Bool
  takes token e =
      not (e.request.path == "/auth/local/login" && e.request.method == "POST")
      && e.request.path == "/auth/logout"
      && elim e.request.cookie [ none ↦ false | some held ↦ held == token ]

  -- What a history says of a token by itself: whether the last event that gave or took it gave it,
  -- and when its session ends.
  abbrev pub session_end : String → List Event → Option Time
  session_end token [] = none
  session_end token (e ∷ earlier) =
      if gives token e
      then some (e.at + lifetime)
      else if takes token e
      then none
      else session_end token earlier

lookup-remove :
    (t token : String) (m : SessionMap)
    → lookup token (remove t m) ≡ (if t == token then none else lookup token m)
unfolding lookup remove
lookup-remove t token [] = ground arith
lookup-remove t token ((key, expires) ∷ m) =
    ground (arith, lookup-remove t token m, eq_iff key t, eq_iff key token, eq_iff t token)

module _ (manager : Manager) (parse : String → Option ParsedUrl) (escape : String → String)
    (token : String) where
  login-lookup :
      (e : Event) (m : SessionMap)
      → lookup token (login manager parse e.at e.random e.request m).0
        ≡ (if signs_in manager parse escape token e then some (e.at + lifetime) else lookup token m)
  unfolding login lookup
  login-lookup e m = elim (Option-cases e.request.form) [
    | inl f ↦ rw (f, login) refl
    | inr (form, f) ↦ elim (Bool-cases (credentials_match manager form)) [
      | inr bad ↦ rw (f, bad, login) refl
      | inl good ↦ elim (Option-cases e.random) [
        | inl r ↦ rw (f, good, r, login) refl
        | inr (given, r) ↦ rw (f, good, r, login) refl
      ]
    ]
  ]

  logout-lookup :
      (request : LocalRequest) (m : SessionMap)
      → lookup token (logout manager parse request m).0 ≡ (
          if elim request.cookie [ none ↦ false | some held ↦ held == token ]
          then none
          else lookup token m)
  unfolding logout
  logout-lookup request m = elim (Option-cases request.cookie) [
    | inl c ↦ rw (c, logout) refl
    | inr (held, c) ↦ rw (c, logout) (lookup-remove held token m)
  ]

  step-lookup :
      (e : Event) (m : SessionMap)
      → lookup token (handle_session manager parse escape e.at e.random e.request m).0 ≡ (
          if gives manager parse escape token e
          then some (e.at + lifetime)
          else if takes manager parse escape token e
          then none
          else lookup token m)
  unfolding handle_session
  step-lookup e m =
      elim (Bool-cases (e.request.path == "/auth/local/login" && e.request.method == "POST")) [
        | inl here ↦ rw here (login-lookup e m)
        | inr other ↦ elim (Bool-cases (e.request.path == "/auth/logout")) [
          | inl out ↦ rw (other, out) (logout-lookup e.request m)
          | inr off ↦
              elim (Bool-cases
                (local_console_path e.request.path && not (authenticated e.at e.request m))) [
                  | inl shut ↦ rw (other, off, shut) refl
                  | inr free ↦ rw (other, off, free) refl
                ]
        ]
      ]

  lookup-session_end :
      (events : List Event)
      → lookup token (sessions_since manager parse escape events)
        ≡ session_end manager parse escape token events
  unfolding sessions_since lookup
  lookup-session_end [] = refl
  lookup-session_end (e ∷ earlier) =
      rw (step-lookup e (sessions_since manager parse escape earlier), lookup-session_end earlier)
        refl

page_apart :
    (path : String)
    → local_console_path path ≡ true
    → ((path == "/auth/local/login") ≡ false) × ((path == "/auth/logout") ≡ false)
unfolding local_console_path
page_apart path page = (
  elim (Bool-cases (path == "/auth/local/login")) [
    | inr e ↦ e
    | inl e ↦
        let same : path ≡ "/auth/local/login" = (eq_iff path "/auth/local/login").0 e in
        let page' = rw same at page in cc
  ],
  elim (Bool-cases (path == "/auth/logout")) [
    | inr e ↦ e
    | inl e ↦
        let same : path ≡ "/auth/logout" = (eq_iff path "/auth/logout").0 e in
        let page' = rw same at page in cc
  ],
)

module _ (manager : Manager) (parse : String → Option ParsedUrl) (escape : String → String) where
  -- The cookie of the request holds a token that the history last gave, at most eight hours ago.
  abbrev pub holds_session : Time → LocalRequest → List Event → Bool
  holds_session now request events = elim request.cookie [
    | none ↦ false
    | some token ↦ elim (session_end manager parse escape token events) [
      | none ↦ false
      | some end ↦ not (ltb end now)
    ]
  ]

  authenticated-holds_session :
      (now : Time) (request : LocalRequest) (events : List Event)
      → authenticated now request (sessions_since manager parse escape events)
        ≡ holds_session now request events
  unfolding authenticated
  authenticated-holds_session now request events = elim (Option-cases request.cookie) [
    | inl c ↦ rw (c, authenticated) refl
    | inr (token, c) ↦
        rw (c, authenticated, lookup-session_end manager parse escape token events) refl
  ]

  -- After any history of requests from a start without sessions, a request for a page of the console
  -- is passed on exactly where its cookie holds a token that the last login or logout with that token
  -- in the history was a login of, with the right name and password, and that login is at most eight
  -- hours old. Any other is sent to the sign-in page.
  pub handle_session-history :
      (now : Time) (random : Option String) (request : LocalRequest) (events : List Event)
      → local_console_path request.path ≡ true
      → (handle_session manager parse escape now random request
          (sessions_since manager parse escape events)).1
        ≡ (if holds_session now request events
            then passed
            else redirected ("/login.html?return_to=" ++ escape request.uri))
  unfolding handle_session
  handle_session-history now random request events page =
      let (not_login, not_logout) = page_apart request.path page in
      rw (not_login, not_logout, page, authenticated-holds_session now request events)
        (elim (Bool-cases (holds_session now request events)) [
          | inl e ↦ rw e refl
          | inr e ↦ rw e refl
        ])
