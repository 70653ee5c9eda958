-- ===== src/Store/Functions/Owners.antt =====
-- The project and the owner of a function under later deployments.
use mlops.Base.{
  ◌≡◌, refl, ◌∙◌, String, List, [], ◌∷◌, some, ◌==◌, inl, inr, Bool-cases, Option-cases, eq_iff,
}
use mlops.Base.First.{find_first, find_first_after_update}
use mlops.Api.Value.{Time}
use mlops.Api.Pipeline.{Function, DeployFunctionRequest}
use mlops.Store.{State, Clock, record_event, has_project}
use mlops.Store.Functions.{
  is_function, redeploy, deployed, validate_function_request, upsert_function,
}

-- A call of `UpsertFunction`: its clock, request, owner and actor.
pub record Deployment : Type 0 where
  pub clock : Clock
  pub req : DeployFunctionRequest
  pub owner : String
  pub actor : String

unfoldable pub deploy_all : List Deployment → State → State
deploy_all [] s = s
deploy_all (d ∷ ds) s = deploy_all ds (upsert_function d.clock d.req d.owner d.actor s).0

abbrev pub SameOwner : Function → Function → Type 0
SameOwner fn fn' =
    (fn'.project_id ≡ fn.project_id)
    × (fn'.owner_subject ≡ fn.owner_subject)
    × (fn'.created_at ≡ fn.created_at)

abbrev pub KeepsOwner : String → Function → List Function → Type 0
KeepsOwner name fn fns =
    (fn' : Function) × (find_first (is_function name) fns ≡ some fn') × SameOwner fn fn'

redeploy-is_function :
    (now : Time) (req : DeployFunctionRequest) (name : String) (fn : Function)
    → is_function name (redeploy now req fn) ≡ is_function name fn
unfolding redeploy
redeploy-is_function now req name fn = refl

redeploy-SameOwner :
    (now : Time) (req : DeployFunctionRequest) (fn : Function) → SameOwner fn (redeploy now req fn)
unfolding redeploy
redeploy-SameOwner now req fn = (refl, refl, refl)

upsert-KeepsOwner :
    (d : Deployment) (name : String) (fn : Function) (s : State)
    → find_first (is_function name) s.functions ≡ some fn
    → KeepsOwner name fn (upsert_function d.clock d.req d.owner d.actor s).0.functions
unfolding upsert_function record_event
upsert-KeepsOwner d name fn s found = elim (Option-cases (validate_function_request d.req)) [
  | inr (e, p) ↦ rw (p, upsert_function) (fn, found, (refl, refl, refl))
  | inl p ↦ elim (Bool-cases (has_project s.projects d.req.project_id)) [
    | inr q ↦ rw (p, upsert_function, q) (fn, found, (refl, refl, refl))
    | inl q ↦ elim (Option-cases (find_first (is_function d.req.name) s.functions)) [
      | inl f ↦
          rw (p, upsert_function, q, f)
            (
              fn,
              unfold deployed in
                  elim (Bool-cases (d.req.name == name)) [
                    | inl e ↦ cc (rw (← (eq_iff d.req.name name).0 e) at found)
                    | inr e ↦ rw e found
                  ],
              (refl, refl, refl),
            )
      | inr (old, f) ↦ elim (Bool-cases (old.project_id == d.req.project_id)) [
        | inr r ↦ rw (p, upsert_function, q, f, r) (fn, found, (refl, refl, refl))
        | inl r ↦
            let (fn', found', how) =
              find_first_after_update (is_function d.req.name) (is_function name)
                (redeploy (d.clock 0) d.req) (redeploy-is_function (d.clock 0) d.req name)
                s.functions found in
            rw (p, upsert_function, q, f, r)
              (
                fn',
                found',
                elim how [
                  | inl e ↦ rw e (refl, refl, refl)
                  | inr (e, _) ↦ rw e (redeploy-SameOwner (d.clock 0) d.req fn)
                ],
              )
      ]
    ]
  ]
]

-- However often functions are deployed, by whomever and for whichever project, a function that
-- exists keeps its project, its owner and the time of its creation.
pub deploy_all-KeepsOwner :
    (ds : List Deployment) (name : String) (fn : Function) (s : State)
    → find_first (is_function name) s.functions ≡ some fn
    → KeepsOwner name fn (deploy_all ds s).functions
unfolding deploy_all
deploy_all-KeepsOwner [] name fn s found = (fn, found, (refl, refl, refl))
deploy_all-KeepsOwner (d ∷ ds) name fn s found =
    let (fn', found', (a, b, c)) = upsert-KeepsOwner d name fn s found in
    let (fn'', found'', (a', b', c')) =
      deploy_all-KeepsOwner ds name fn' (upsert_function d.clock d.req d.owner d.actor s).0
        found' in
    (fn'', found'', (a' ∙ a, b' ∙ b, c' ∙ c))
