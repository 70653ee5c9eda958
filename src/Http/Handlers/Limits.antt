-- ===== src/Http/Handlers/Limits.antt =====
-- go/internal/httpapi/server.go: the limits on the projects and the functions of a user.
pub mod Calls
use mlops.Base.{
  ℕ, suc, ◌≡◌, refl, ◌≤◌, String, Bool, true, false, List, [], ◌∷◌, Option, some, none, ◌==◌, ◌&&◌,
  ◌||◌, not, ◌⊎◌, inl, inr, any, count, ltb, Bool-cases, Option-cases, arith,
}
use mlops.Base.First.{find_first, update_first, count-update_first-le}
use mlops.Base.Int.{ℤ, pos, negsuc, ◌≤ℤ◌}
use mlops.Base.Text.{is_empty, trim_space, byte_length}
use mlops.Api.Access.{UserAccess}
use mlops.Api.Project.{Project, CreateProjectRequest, AuditEvent}
use mlops.Api.Pipeline.{Function, DeployFunctionRequest}
use mlops.Auth.{Principal, allowed}
use mlops.Store.{State, Clock, Outcome, Outcome-cases, returned, refused, record_event, has_project}
use mlops.Store.Access.{for_subject}
use mlops.Store.Projects.{Library, is_named, initial_repository, new_project, create_project}
use mlops.Store.Functions.{
  is_function, validate_function_request, upsert_function, redeploy, deployed,
}
use mlops.Http.Access.{
  exempt, privileged, owned_by, project_allowed, function_allowed, enforce_project_quota,
  enforce_function_quota,
}
use mlops.Http.Access.Quota.{enforce-HasRoom}
use mlops.Http.Handlers.{
  Request, Env, Body, Reply, OpenFaas, unreadable, read, principal, actor, decode, answer, commit,
}
use mlops.Http.Handlers.Functions.{
  function_quota, with_project, deployment_of, deploy_function_request, handle_deploy_function,
}
use mlops.Http.Handlers.Projects.{answer_created, create_request, handle_create_project}
use mlops.Http.Handlers.Isolation.Dispatch.{commit-state}

abbrev pub owns : Principal → Function → Bool
owns value function = function.owner_subject == value.subject

-- The user has no more projects and functions than the profile allows, if there is one.
unfoldable pub HoldsLimits : Principal → State → Type 0
HoldsLimits value s =
    (access : UserAccess)
    → find_first (for_subject value.subject) s.user_access ≡ some access
    → (pos (count (owned_by value) s.projects) ≤ℤ access.compute.max_projects)
      × (pos (count (owns value) s.functions) ≤ℤ access.compute.max_functions)

le_limit : (a b : ℕ) (limit : ℤ) → a ≤ b → pos b ≤ℤ limit → pos a ≤ℤ limit
le_limit a b (pos n) h k = omega arith
le_limit a b (negsuc n) h k = omega arith

module _ (value : Principal) (s : State) (plain : exempt value ≡ false)
    (holds : HoldsLimits value s) where
  -- A project more, after the check.
  create-HoldsLimits :
      (p : Project) (audit : List AuditEvent)
      → enforce_project_quota s value ≡ none
      → HoldsLimits value (record s { projects = p ∷ s.projects; audit = audit })
  unfolding enforce_project_quota HoldsLimits
  create-HoldsLimits p audit quota access e =
      let (found, e', room) =
        enforce-HasRoom s value (λ a. a.compute.max_projects) (count (owned_by value) s.projects)
          plain quota in
      let same : found ≡ access = cc in
      (
        le_limit _ (suc (count (owned_by value) s.projects)) access.compute.max_projects
            (ground arith) (rw same at room),
        (holds access e).1,
      )

  deploy-HoldsLimits :
      (f : Function) (audit : List AuditEvent)
      → enforce_function_quota s value ≡ none
      → HoldsLimits value (record s { functions = f ∷ s.functions; audit = audit })
  unfolding enforce_function_quota HoldsLimits
  deploy-HoldsLimits f audit quota access e =
      let (found, e', room) =
        enforce-HasRoom s value (λ a. a.compute.max_functions) (count (owns value) s.functions)
          plain quota in
      let same : found ≡ access = cc in
      (
        (holds access e).0,
        le_limit _ (suc (count (owns value) s.functions)) access.compute.max_functions
            (ground arith) (rw same at room),
      )

  redeploy-HoldsLimits :
      (clock : Clock) (req : DeployFunctionRequest) (audit : List AuditEvent)
      → HoldsLimits value (record s {
        functions = update_first (is_function req.name) (redeploy (clock 0) req) s.functions;
        audit = audit;
      })
  unfolding redeploy HoldsLimits
  redeploy-HoldsLimits clock req audit access e = (
    (holds access e).0,
    le_limit _ (count (owns value) s.functions) access.compute.max_functions
        (count-update_first-le (is_function req.name) (owns value) (redeploy (clock 0) req)
          (λ x h k. k) s.functions)
        (holds access e).1,
  )

  pub create_project-HoldsLimits :
      (lib : Library) (clock : Clock) (req : CreateProjectRequest) (who : List String)
      → enforce_project_quota s value ≡ none
      → HoldsLimits value (create_project lib clock req who s).0
  unfolding create_project record_event
  create_project-HoldsLimits lib clock req who quota =
      elim (Bool-cases (ltb (byte_length (trim_space req.name)) 3)) [
        | inl short ↦ rw (short, create_project) holds
        | inr long ↦ elim (Bool-cases (any (is_named lib (trim_space req.name)) s.projects)) [
          | inl taken ↦ rw (long, taken, create_project) holds
          | inr free ↦ elim (Outcome-cases (initial_repository lib req)) [
            | inl (e, bad) ↦ rw (long, free, bad, create_project) holds
            | inr (repository, good) ↦
                rw (long, free, good, create_project)
                  (create-HoldsLimits (new_project lib clock req repository) _ quota)
          ]
        ]
      ]

  pub upsert_function-HoldsLimits :
      (clock : Clock) (req : DeployFunctionRequest) (owner who : String)
      → (enforce_function_quota s value ≡ none)
        ⊎ ((found : Function) × (find_first (is_function req.name) s.functions ≡ some found))
      → HoldsLimits value (upsert_function clock req owner who s).0
  unfolding upsert_function record_event
  upsert_function-HoldsLimits clock req owner who room =
      elim (Option-cases (validate_function_request req)) [
        | inr (_, bad) ↦ rw (bad, upsert_function) holds
        | inl valid ↦ elim (Bool-cases (has_project s.projects req.project_id)) [
          | inr bad ↦ rw (valid, bad, upsert_function) holds
          | inl good ↦ elim (Option-cases (find_first (is_function req.name) s.functions)) [
            | inl e ↦ elim room [
              | inl quota ↦
                  rw (valid, good, e, upsert_function)
                    (deploy-HoldsLimits (deployed (clock 0) req owner) _ quota)
              | inr (found, e') ↦ cc
            ]
            | inr (found, e) ↦ elim (Bool-cases (found.project_id == req.project_id)) [
              | inr other ↦ rw (valid, good, e, other, upsert_function) holds
              | inl same ↦
                  rw (valid, good, e, same, upsert_function) (redeploy-HoldsLimits clock req _)
            ]
          ]
        ]
      ]
