-- ===== src/Http/Handlers/Limits/Calls.antt =====
-- The limits of a user over sequences of requests to create projects and to deploy functions.
use mlops.Base.{◌≡◌, false, List, [], ◌∷◌}
use mlops.Api.Project.{Project, CreateProjectRequest}
use mlops.Api.Pipeline.{DeployFunctionRequest}
use mlops.Auth.{Principal}
use mlops.Store.{State}
use mlops.Store.Projects.{Library}
use mlops.Http.Access.{exempt}
use mlops.Http.Handlers.{Request, Env, Body, principal}
use mlops.Http.Handlers.Functions.{handle_deploy_function}
use mlops.Http.Handlers.Projects.{handle_create_project}

-- A request to create a project or to deploy a function.
pub data Call : Type 0 where
  create_project_of : Body CreateProjectRequest → Call
  deploy_function_of : Body DeployFunctionRequest → Call

module _ (lib : Library) (request : Request) where
  -- The state after a request, in an environment of its own, and after requests in turn.
  unfoldable pub serve : Env × Call → State → State
  serve (env, create_project_of body) s = (handle_create_project lib env request body s).0
  serve (env, deploy_function_of body) s = (handle_deploy_function env request body s).0

  unfoldable pub serve_all : List (Env × Call) → State → State
  serve_all [] s = s
  serve_all (c ∷ cs) s = serve_all cs (serve c s)

module _ (lib : Library) (request : Request) (plain : exempt (principal request) ≡ false) where
  abbrev me : Principal
  me = principal request
