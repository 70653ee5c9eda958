-- ===== src/Auth/Gateway.antt =====
-- Who stands behind a request that the gateway's handlers let through to the API.
use mlops.Base.{
  ◌≡◌, refl, sym, ◌∙◌, ◌==◌, String, true, false, Option, none, some, ◌⊎◌, inl, inr, eq_iff,
  Bool-cases, Option-cases, arith,
}
use mlops.Base.Text.{is_empty, has_prefix, contains}
use mlops.Api.Access.{ApiToken}
use mlops.Auth.{Principal, allowed, has_role}
use mlops.Auth.Middleware.{
  Request, Response, served, Environment, Profile, bearer, presented, with_principal,
  service_identity, service_principal, public_path, authenticate, middleware, identity,
  resolve_profile, unchecked, rbac, token_principal, api_token_middleware, session_handler, Handler,
  local_dev,
}
use mlops.Api.Value.{Time}
use mlops.Auth.Sessions.{LocalRequest, SessionMap, passed, handle_session, local_console_path}
use mlops.Auth.Front.{Local, Mode, oidc, local, local_request, local_session_handler, gateway}

module _ (env : Environment) (tokens : String → Option ApiToken)
    (profiles : String → Option Profile) where
  -- The bearer token, or what else is presented, is the internal token of the platform.
  abbrev pub IsService : String → Principal → Type 0
  IsService token p =
      (is_empty env.internal_token ≡ false) × (token ≡ env.internal_token) × (p ≡ service_identity)

  -- The principal is the one that the request's credential stands for: a personal API key, the
  -- internal token of the platform, or, with OIDC, a verified identity with its access profile
  -- applied. Without OIDC a request with no such key or token, whatever else it carries, stands for
  -- the local development principal, with its access profile applied.
  abbrev pub Genuine : Mode → Request → Principal → Type 0
  Genuine mode r p =
      ((token : ApiToken) × (tokens (bearer r) ≡ some token) × (p ≡ token_principal token))
      ⊎ elim mode [
        | oidc sign_in verify ↦
            IsService (presented r) p
            ⊎ ((q : Principal) × (verify (presented r) ≡ some q) × (p ≡ resolve_profile profiles q))
        | local l ↦
            IsService (bearer r) p
            ⊎ ((has_prefix (bearer r) "nxs_" ≡ false)
                × (service_principal env (bearer r) ≡ none)
                × (p ≡ resolve_profile profiles (local_dev env)))
      ]

  -- The request is passed on with a principal that is allowed to make it.
  abbrev pub Passed : Principal → Request → Request → Type 0
  Passed p r r' = (r' ≡ with_principal p r) × (allowed p r.method r.path ≡ true)

  identified-Passed :
      (q : Principal) (r r' : Request)
      → identity env r ≡ q
      → unchecked r.path ≡ false
      → rbac env profiles served r ≡ served r'
      → Passed (resolve_profile profiles q) r r'
  unfolding rbac
  identified-Passed q r r' who checked h =
      elim (Bool-cases (allowed (resolve_profile profiles q) r.method r.path)) [
        | inl e ↦ (ground arith, e)
        | inr e ↦ ground arith
      ]

  rbac-Passed :
      (q : Principal) (r r' : Request)
      → unchecked r.path ≡ false
      → rbac env profiles served (with_principal q r) ≡ served r'
      → Passed (resolve_profile profiles q) r r'
  unfolding identity
  rbac-Passed q r r' checked h = identified-Passed q (with_principal q r) r' refl checked h

  not_a_page :
      (path page : String)
      → has_prefix path "/api/" ≡ true
      → has_prefix page "/api/" ≡ false
      → (path == page) ≡ false
  not_a_page path page api outside = elim (Bool-cases (path == page)) [
    | inl e ↦ cc ((eq_iff path page).0 e)
    | inr e ↦ e
  ]

  token-profile :
      (token : ApiToken) → resolve_profile profiles (token_principal token) ≡ token_principal token
  unfolding resolve_profile token_principal
  token-profile token = ground arith

  service-profile : resolve_profile profiles service_identity ≡ service_identity
  unfolding resolve_profile has_role contains
  service-profile = refl

  service_of_presented :
      (token : String) {p : Principal}
      → service_principal env token ≡ some p
      → (is_empty env.internal_token ≡ false)
        × (token ≡ env.internal_token)
        × (p ≡ service_identity)
  unfolding service_principal
  service_of_presented token h = ground (arith, eq_iff token env.internal_token)

  closed_checked :
      (method path : String)
      → has_prefix path "/api/" ≡ true
      → public_path method path ≡ false
      → unchecked path ≡ false
  unfolding public_path
  closed_checked method path api closed = ground arith

  module _ (sign_in : Handler) (verify : String → Option Principal) where
    abbrev behind : Handler
    behind = session_handler sign_in (rbac env profiles served)

    past_sign_in :
        (q : Principal) (r : Request)
        → has_prefix r.path "/api/" ≡ true
        → behind (with_principal q r) ≡ rbac env profiles served (with_principal q r)
    unfolding session_handler has_prefix
    past_sign_in q r api =
        rw
          (
            not_a_page r.path "/auth/login" api refl,
            not_a_page r.path "/auth/callback" api refl,
            not_a_page r.path "/auth/logout" api refl,
          )
          refl

    behind-Passed :
        (q : Principal) (r r' : Request)
        → has_prefix r.path "/api/" ≡ true
        → unchecked r.path ≡ false
        → behind (with_principal q r) ≡ served r'
        → Passed (resolve_profile profiles q) r r'
    behind-Passed q r r' api checked h = rbac-Passed q r r' checked (sym (past_sign_in q r api) ∙ h)

    authenticate-Passed :
        (r r' : Request)
        → has_prefix r.path "/api/" ≡ true
        → unchecked r.path ≡ false
        → authenticate env verify behind r ≡ served r'
        → (p : Principal) × Genuine (oidc sign_in verify) r p × Passed p r r'
    unfolding authenticate
    authenticate-Passed r r' api checked h = elim (Bool-cases (is_empty (presented r))) [
      | inl e ↦ ground arith
      | inr e ↦ elim (Option-cases (service_principal env (presented r))) [
        | inr (p, k) ↦
            let (set, same, who) = service_of_presented (presented r) k in
            (
              service_identity,
              inr (inl (set, same, refl)),
              rw service-profile at
                  (behind-Passed service_identity r r' api checked (ground arith)),
            )
        | inl k ↦ elim (Option-cases (verify (presented r))) [
          | inl v ↦ ground arith
          | inr (q, v) ↦ (
            resolve_profile profiles q,
            inr (inr (q, v, refl)),
            behind-Passed q r r' api checked (ground arith),
          )
        ]
      ]
    ]

    middleware_again :
        (q : Principal) (r : Request) (next : Request → Response)
        → public_path r.method r.path ≡ false
        → middleware env verify next (with_principal q r) ≡ next (with_principal q r)
    unfolding middleware
    middleware_again q r next closed = rw closed

    middleware_first :
        (r : Request) (next : Request → Response)
        → public_path r.method r.path ≡ false
        → r.principal ≡ none
        → middleware env verify next r ≡ authenticate env verify next r
    unfolding middleware
    middleware_first r next closed bare = ground arith

    oidc-Genuine :
        (r r' : Request)
        → r.principal ≡ none
        → has_prefix r.path "/api/" ≡ true
        → public_path r.method r.path ≡ false
        → gateway env tokens profiles (oidc sign_in verify) r ≡ served r'
        → (p : Principal) × Genuine (oidc sign_in verify) r p × Passed p r r'
    unfolding gateway api_token_middleware
    oidc-Genuine r r' bare api closed h =
        let checked = closed_checked r.method r.path api closed in
        elim (Bool-cases (has_prefix (bearer r) "nxs_")) [
          | inr e ↦
              authenticate-Passed r r' api checked
                (ground (arith, middleware_first r behind closed bare))
          | inl e ↦ elim (Option-cases (tokens (bearer r))) [
            | inl k ↦ ground arith
            | inr (token, k) ↦ (
              token_principal token,
              inl (token, k, refl),
              rw (token-profile token) at (
                  behind-Passed (token_principal token) r r' api checked
                    (ground (arith, middleware_again (token_principal token) r behind closed))),
            )
          ]
        ]

  module _ (l : Local) where
    api_passes :
        (now : Time) (random : Option String) (request : LocalRequest) (m : SessionMap)
        → has_prefix request.path "/api/" ≡ true
        → handle_session l.manager l.parse l.escape now random request m ≡ (m, passed)
    unfolding handle_session local_console_path has_prefix
    api_passes now random request m api =
        rw
          (
            not_a_page request.path "/auth/local/login" api refl,
            not_a_page request.path "/auth/logout" api refl,
            not_a_page request.path "/console.html" api refl,
            not_a_page request.path "/app.js" api refl,
            not_a_page request.path "/styles.css" api refl,
            handle_session,
          )
          refl

    past_local :
        (next : Handler) (r : Request)
        → has_prefix r.path "/api/" ≡ true
        → local_session_handler l next r ≡ next r
    unfolding local_session_handler
    past_local next r api =
        rw (api_passes l.now l.random (local_request l r) l.sessions api, local_session_handler)
          refl

    -- A request without a key is one of the internal service or of the local developer.
    bare-Passed :
        (r r' : Request)
        → r.principal ≡ none
        → unchecked r.path ≡ false
        → has_prefix (bearer r) "nxs_" ≡ false
        → rbac env profiles served r ≡ served r'
        → (p : Principal) × Genuine (local l) r p × Passed p r r'
    unfolding identity
    bare-Passed r r' bare checked keyless h =
        elim (Option-cases (service_principal env (bearer r))) [
          | inl k ↦ (
            resolve_profile profiles (local_dev env),
            inr (inr (keyless, k, refl)),
            identified-Passed (local_dev env) r r' (rw (bare, identity, k) refl) checked h,
          )
          | inr (p, k) ↦
              let (set, same, who) = service_of_presented (bearer r) k in
              (
                service_identity,
                inr (inl (set, same, refl)),
                rw service-profile at (
                    identified-Passed service_identity r r' (rw (bare, identity, k) who) checked h),
              )
        ]

    local-Genuine :
        (r r' : Request)
        → r.principal ≡ none
        → has_prefix r.path "/api/" ≡ true
        → unchecked r.path ≡ false
        → gateway env tokens profiles (local l) r ≡ served r'
        → (p : Principal) × Genuine (local l) r p × Passed p r r'
    unfolding gateway api_token_middleware
    local-Genuine r r' bare api checked h = elim (Bool-cases (has_prefix (bearer r) "nxs_")) [
      | inr e ↦
          bare-Passed r r' bare checked e
            (ground (arith, past_local (rbac env profiles served) r api))
      | inl e ↦ elim (Option-cases (tokens (bearer r))) [
        | inl k ↦ ground arith
        | inr (token, k) ↦ (
          token_principal token,
          inl (token, k, refl),
          rw (token-profile token) at (
              rbac-Passed (token_principal token) r r' checked (
                ground (
                  arith,
                  past_local (rbac env profiles served) (with_principal (token_principal token) r)
                      api,
                ))),
        )
      ]
    ]

  -- A request to the API from outside, whose path is not public, is served only with a principal that
  -- its credential stands for and that is allowed to make it; the rest of the request is as it came.
  -- The credential is a personal API key or the internal token of the platform, or, where OIDC is
  -- configured, the token of a verified identity. Where OIDC is not configured, a request without such
  -- a key or token needs none: it stands for the local development principal.
  pub gateway-Genuine :
      (mode : Mode) (r r' : Request)
      → r.principal ≡ none
      → has_prefix r.path "/api/" ≡ true
      → public_path r.method r.path ≡ false
      → gateway env tokens profiles mode r ≡ served r'
      → (p : Principal) × Genuine mode r p × Passed p r r'
  gateway-Genuine (oidc sign_in verify) r r' bare api closed h =
      oidc-Genuine sign_in verify r r' bare api closed h
  gateway-Genuine (local l) r r' bare api closed h =
      local-Genuine l r r' bare api (closed_checked r.method r.path api closed) h
