-- ===== src/Auth/Roles.antt =====
-- What each role may do, over every path and method.
use mlops.Base.{
  ◌≡◌, refl, String, Bool, true, false, List, [], ◌∷◌, ◌==◌, ◌||◌, ◌&&◌, ◌⊎◌, inl, inr, eq_iff,
  Bool-cases, ||-true, arith, any,
}
use mlops.Base.Text.{has_prefix, contains}
use mlops.Base.Text.Laws.{has_prefix_apart}
use mlops.Api.Access.{ApiToken}
use mlops.Auth.Middleware.{token_principal}
use mlops.Auth.{
  Principal, allowed, allowed_by, user_may, is_read, has_role, has_any_prefix, engineer_write,
  service_write, has_service, service_for_path,
}

module _ (p : Principal) (method path : String) where
  -- The right that a role gives by itself, role by role.
  abbrev pub right : String → Bool
  right role =
      role == "admin"
      || role == "operator"
      || (role == "user" && user_may p method path)
      || (role == "viewer" && is_read method)
      || (role == "engineer" && (is_read method || has_any_prefix path engineer_write))
      || (role == "service" && (is_read method || has_any_prefix path service_write))

  -- The right to change something that a role other than admin and operator gives.
  abbrev pub write_right : String → Bool
  write_right role =
      (role == "user" && user_may p method path)
      || (role == "engineer" && has_any_prefix path engineer_write)
      || (role == "service" && has_any_prefix path service_write)

  right_of_role :
      (role : String) (rest : List String)
      → allowed_by (role ∷ rest) p method path ≡ true
      → (right role ≡ true) ⊎ (allowed_by rest p method path ≡ true)
  unfolding allowed_by
  right_of_role role rest h = ground arith

  -- A loop over the roles that allows a request meets a role that gives the right.
  allowed_by-any :
      (roles : List String) → allowed_by roles p method path ≡ true → any right roles ≡ true
  unfolding allowed_by
  allowed_by-any [] h = cc
  allowed_by-any (role ∷ roles) h = elim (right_of_role role roles h) [
    | inl e ↦ ground arith
    | inr e ↦ ground (arith, allowed_by-any roles e)
  ]

  right_or_rest :
      (role : String) (rest : List String)
      → (role == "user") ≡ false
      → allowed_by (role ∷ rest) p method path ≡ (right role || allowed_by rest p method path)
  unfolding allowed_by
  right_or_rest role rest other = elim (Bool-cases (role == "viewer")) [
    | inl e ↦ rw ((eq_iff role "viewer").0 e) (ground arith)
    | inr not_viewer ↦ elim (Bool-cases (role == "engineer")) [
      | inl e ↦ rw ((eq_iff role "engineer").0 e) (ground arith)
      | inr not_engineer ↦ ground arith
    ]
  ]

  -- Without the role user the order of the roles does not matter: a request is allowed exactly when
  -- some role gives the right.
  allowed_by-eq-any :
      (roles : List String)
      → contains roles "user" ≡ false
      → allowed_by roles p method path ≡ any right roles
  unfolding allowed_by contains
  allowed_by-eq-any [] h = refl
  allowed_by-eq-any (role ∷ roles) h =
      ground (arith, right_or_rest role roles, allowed_by-eq-any roles)

  -- The role user hides every role that stands behind it.
  allowed_by-user :
      (roles : List String) → allowed_by ("user" ∷ roles) p method path ≡ user_may p method path
  unfolding allowed_by
  allowed_by-user roles = refl

  unprivileged_write :
      (role : String)
      → (role == "admin") ≡ false
      → (role == "operator") ≡ false
      → is_read method ≡ false
      → right role ≡ true
      → write_right role ≡ true
  unprivileged_write role na nop w h = ground arith

  any-write_right :
      (roles : List String)
      → contains roles "admin" ≡ false
      → contains roles "operator" ≡ false
      → is_read method ≡ false
      → any right roles ≡ true
      → any write_right roles ≡ true
  unfolding contains
  any-write_right [] na nop w h = cc
  any-write_right (role ∷ roles) na nop w h =
      ground (arith, unprivileged_write role, any-write_right roles)

-- The two areas in which a right does not come from a role's list of paths: the caller's own
-- settings, and access requests.
abbrev pub self_service : String → Bool
self_service path = has_prefix path "/api/v1/settings/" || path == "/api/v1/access-requests"

allowed-by_role :
    (p : Principal) (method path : String)
    → has_role p "admin" ≡ false
    → has_role p "operator" ≡ false
    → is_read method ≡ false
    → self_service path ≡ false
    → allowed p method path ≡ true
    → (has_prefix path "/api/v1/admin/" ≡ false)
      × (p.disabled ≡ false)
      × (allowed_by p.roles p method path ≡ true)
unfolding allowed is_read
allowed-by_role p method path na nop w self h = ground arith

-- A principal that is neither administrator nor operator changes something only outside the
-- administration area; and, but for its own settings and access requests, only where it is user,
-- engineer or service with a right to change that path.
pub allowed-write :
    (p : Principal) (method path : String)
    → has_role p "admin" ≡ false
    → has_role p "operator" ≡ false
    → is_read method ≡ false
    → self_service path ≡ false
    → allowed p method path ≡ true
    → (has_prefix path "/api/v1/admin/" ≡ false)
      × (p.disabled ≡ false)
      × (any (write_right p method path) p.roles ≡ true)
unfolding has_role
allowed-write p method path na nop w self h =
    let (outside, active, by_role) = allowed-by_role p method path na nop w self h in
    (
      outside,
      active,
      any-write_right p method path p.roles na nop w (allowed_by-any p method path p.roles by_role),
    )

-- What the scope of a personal API key is: a request in one of its services, its owner's name, the
-- public blog, or an access request.
abbrev pub InScope : ApiToken → String → String → Type 0
InScope token method path =
    (has_service token.services (service_for_path path) ≡ true)
    ⊎ ((path ≡ "/api/v1/me")
        ⊎ (((method ≡ "GET")
              × ((path == "/api/v1/blogs" || has_prefix path "/api/v1/blogs/") ≡ true))
            ⊎ (path ≡ "/api/v1/access-requests")))

blog-settings :
    (path : String)
    → (path == "/api/v1/blogs" || has_prefix path "/api/v1/blogs/") ≡ true
    → has_prefix path "/api/v1/settings/" ≡ false
unfolding has_prefix
blog-settings path h = elim (||-true (path == "/api/v1/blogs") _ h) [
  | inl e ↦ rw ((eq_iff path "/api/v1/blogs").0 e)
  | inr e ↦ has_prefix_apart path "/api/v1/blogs/" "/api/v1/settings/" e refl
]

token_user_may :
    (token : ApiToken) (method path : String)
    → user_may (token_principal token) method path ≡ true
    → ((path ≡ "/api/v1/me") ⊎ (has_service token.services (service_for_path path) ≡ true))
unfolding user_may token_principal
token_user_may token method path h = ground (arith, eq_iff path "/api/v1/me")

-- What a personal API key is allowed stays in its scope, which besides the paths of its services
-- holds the caller's own description, reading the blog, and requests for access, and it stays outside
-- the administration area and its owner's settings.
pub allowed-InScope :
    (token : ApiToken) (method path : String)
    → allowed (token_principal token) method path ≡ true
    → InScope token method path
      × (has_prefix path "/api/v1/admin/" ≡ false)
      × (has_prefix path "/api/v1/settings/" ≡ false)
unfolding allowed has_role contains allowed_by token_principal
allowed-InScope token method path h = ground (
  arith,
  token_user_may token method path,
  blog-settings path,
  eq_iff method "GET",
  eq_iff path "/api/v1/access-requests",
)
