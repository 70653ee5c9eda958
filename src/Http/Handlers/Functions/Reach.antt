-- ===== src/Http/Handlers/Functions/Reach.antt =====
-- How far the handlers of functions and of pipeline definitions reach into other projects.
use mlops.Base.{
  ◌≡◌, refl, sym, ◌∙◌, String, true, false, List, [], ◌∷◌, some, none, ◌==◌, inl, inr, arith,
  Bool-cases, Option-cases,
}
use mlops.Base.First.{find_first, update_first, find_first_passes, find_first-update_first}
use mlops.Base.Text.{is_empty}
use mlops.Api.Pipeline.{
  Function, DeployFunctionRequest, PipelineDefinition, UpsertPipelineDefinitionRequest,
}
use mlops.Store.{State, Clock, refused, returned, conflict, record_event, has_project}
use mlops.Store.Functions.{is_function, validate_function_request, upsert_function}
use mlops.Store.Definitions.{
  is_definition, redefine, validate_pipeline_definition, upsert_pipeline_definition,
}
use mlops.Store.Runs.{pipeline_definition_from}
use mathlib.Core.Path.{subst}
use mlops.Auth.{Principal}
use mlops.Http.Access.{project_allowed, allowed_project_ids}
use mlops.Http.Handlers.{
  Request, Env, OpenFaas, text_of, caused_by, problem, principal, actor, answer, commit,
  write_mutation,
}
use mlops.Http.Handlers.Functions.{
  deployment_of, function_quota, deploy_function_request, define_request, is_undeployed,
}
use mlops.Http.Handlers.Isolation.Dispatch.{commit-state}

upsert_function-conflict :
    (clock : Clock) (req : DeployFunctionRequest) (owner who : String) (s : State)
    (found : Function)
    → validate_function_request req ≡ none
    → has_project s.projects req.project_id ≡ true
    → find_first (is_function req.name) s.functions ≡ some found
    → (found.project_id == req.project_id) ≡ false
    → upsert_function clock req owner who s ≡ (s, refused conflict)
unfolding upsert_function
upsert_function-conflict clock req owner who s found valid there e other =
    rw (valid, there, e, other, upsert_function) refl

-- Where a function of the name stands in another project than that of the request, `deployFunction`
-- still deploys the image of the request to OpenFaaS, which knows functions by their names alone,
-- if the request is valid, and the caller may access its project, which exists, and passes the check
-- of the quota. Only then does
-- the repository refuse: the answer is that OpenFaaS has failed, or a conflict, and nothing that
-- the repository holds changes.
pub deploy_function_request-overwrites :
    (env : Env) (request : Request) (client : OpenFaas) (req : DeployFunctionRequest) (s : State)
    (found : Function)
    → project_allowed s (principal request) req.project_id ≡ true
    → validate_function_request req ≡ none
    → has_project s.projects req.project_id ≡ true
    → function_quota env request req.name s ≡ none
    → find_first (is_function req.name) s.functions ≡ some found
    → (found.project_id == req.project_id) ≡ false
    → deploy_function_request env request client req s ≡ (
      s,
      elim (client.deploy (deployment_of req)) [
        | some e ↦ problem 502 "deploy_failed" (text_of e)
        | none ↦ problem 409 "conflict" (caused_by conflict)
      ],
    )
unfolding deploy_function_request answer commit write_mutation
deploy_function_request-overwrites env request client req s found mine valid there room e other =
    elim (Option-cases (client.deploy (deployment_of req))) [
      | inr (said, d) ↦ rw (mine, valid, room, d, deploy_function_request) refl
      | inl d ↦
          rw
            (
              mine,
              valid,
              room,
              d,
              deploy_function_request,
              upsert_function-conflict env.clock req (principal request).subject (actor request) s
                  found valid there e other,
            )
            refl
    ]

project_allowed-projects :
    (s' s : State) (p : Principal) (project_id : String)
    → s'.projects ≡ s.projects
    → project_allowed s' p project_id ≡ project_allowed s p project_id
unfolding project_allowed allowed_project_ids
project_allowed-projects s' s p project_id h = rw h refl

module _ (i : String) (req : UpsertPipelineDefinitionRequest) (given : is_empty i ≡ false) where
  is_definition-id :
      (xs : List PipelineDefinition)
      → find_first (is_definition i req) xs ≡ pipeline_definition_from xs i
  unfolding pipeline_definition_from
  is_definition-id [] = refl
  is_definition-id (x ∷ xs) = elim (Bool-cases (x.id == i)) [
    | inl e ↦ rw e refl
    | inr e ↦ rw (e, given) (is_definition-id xs)
  ]

  upsert-redefines :
      (clock : Clock) (order : List String) (raw : UpsertPipelineDefinitionRequest) (who : String)
      (s : State) (found : PipelineDefinition)
      → validate_pipeline_definition order raw ≡ returned req
      → has_project s.projects req.project_id ≡ true
      → pipeline_definition_from s.definitions i ≡ some found
      → let s' = (upsert_pipeline_definition clock order i raw who s).0 in
        (pipeline_definition_from s'.definitions i ≡ some (redefine (clock 0) req found))
        × (s'.projects ≡ s.projects)
  unfolding upsert_pipeline_definition record_event redefine
  upsert-redefines clock order raw who s found valid there e =
      let here = is_definition-id s.definitions ∙ e in
      let change = redefine (clock 0) req in
      let passes = find_first_passes (is_definition i req) s.definitions here in
      rw (valid, there, here, upsert_pipeline_definition)
        (
          sym (is_definition-id (update_first (is_definition i req) change s.definitions))
              ∙ find_first-update_first (is_definition i req) change s.definitions here
                  (ground arith),
          refl,
        )

-- A caller who may access the project of a valid request, of functions that this project has deployed,
-- and puts the id of a definition of any other project into the path replaces that definition: its jobs, its mode and its name are those of the
-- request, while it stays in the project that the caller may not access.
pub define_request-reaches :
    (env : Env) (request : Request) (order : List String) (definition_id : String)
    (raw req : UpsertPipelineDefinitionRequest) (s : State) (found : PipelineDefinition)
    → project_allowed s (principal request) raw.project_id ≡ true
    → find_first (is_undeployed raw.project_id s.functions) raw.jobs ≡ none
    → validate_pipeline_definition order raw ≡ returned req
    → has_project s.projects req.project_id ≡ true
    → is_empty definition_id ≡ false
    → pipeline_definition_from s.definitions definition_id ≡ some found
    → project_allowed s (principal request) found.project_id ≡ false
    → let s' = (define_request env request order definition_id raw s).0 in
      (pipeline_definition_from s'.definitions definition_id
        ≡ some (redefine (env.clock 0) req found))
      × (project_allowed s' (principal request) found.project_id ≡ false)
unfolding define_request answer
define_request-reaches env request order definition_id raw req s found mine deployed valid there
      given e foreign =
    let r = upsert_pipeline_definition env.clock order definition_id raw (actor request) s in
    let (now, same) =
      upsert-redefines definition_id req given env.clock order raw (actor request) s found valid
        there e in
    rw (mine, deployed, define_request)
      (subst
        (λ (s' : State).
          (pipeline_definition_from s'.definitions definition_id
            ≡ some (redefine (env.clock 0) req found))
          × (project_allowed s' (principal request) found.project_id ≡ false))
        (sym (commit-state env r.0 r.1))
        (now, project_allowed-projects r.0 s (principal request) found.project_id same ∙ foreign))
