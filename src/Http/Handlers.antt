-- ===== src/Http/Handlers.antt =====
-- go/internal/httpapi/server.go: what the handlers read of a request and of the world, and what they
-- answer. Routes, headers and the JSON text of bodies are not modelled: a body is what `decode`
-- makes of it, and an answer holds the value that `writeJSON` encodes.
pub mod Runs
pub mod Models
pub mod Agents
pub mod Functions
pub mod Projects
pub mod People
pub mod Posts
pub mod Catalog
pub mod Isolation
pub mod Limits
use mlops.Base.{ℕ, String, List, [], Option, none, some, if◌then◌else◌, false, ◌⊎◌}
use mlops.Base.Text.{is_empty, trim_space}
use mlops.Api.Pipeline.{PipelineDefinition}
use mlops.Api.Model.{Model}
use mlops.Auth.{Principal}
use mlops.Store.{
  State, Error, not_found, conflict, message, Outcome, refused, returned, Clock, Metadata,
}
use mlops.Http.Access.{Denial}

-- The principal that the middleware has put into the request's context, and the header
-- X-MLAIOps-Actor.
pub record Request : Type 0 where
  pub caller : Option Principal
  pub actor_header : String

-- `integrations.Function`, as the handlers fill it in.
pub record Deployment : Type 0 where
  pub name : String
  pub image : String
  pub env_vars : List (String × String)
  pub labels : List (String × String)
  pub annotations : List (String × String)
  pub limits : List (String × String)
  pub requests : List (String × String)

-- The client of OpenFaaS: `some` is an error.
pub record OpenFaas : Type 0 where
  pub deploy : Deployment → Option String
  pub delete : String → Option String

-- The arguments of Prefect's `CreateFlowRun`.
pub record Flow : Type 0 where
  pub name : String
  pub run_id : String
  pub project_id : String
  pub parameters : Metadata
  pub definition : Option PipelineDefinition

-- A response of the serving manager: its status, its text as far as an error quotes it, without the
-- white space around it, and the field `endpoint`, or the error of decoding it.
pub record Served : Type 0 where
  pub status : ℕ
  pub said : String
  pub endpoint : String ⊎ String

-- What a handler finds around it: the readings of the clock in its first and in its second call of
-- the repository, the result of writing the repository's file, and the clients that the environment
-- configures. `inl` is an error.
pub record Env : Type 0 where
  pub clock : Clock
  pub later : Clock
  pub persist : State → Option String
  pub openfaas : Option OpenFaas
  pub prefect : Option (Flow → String ⊎ String)
  pub serving : Option (Model → String ⊎ Served)

-- What `decode` makes of a body.
pub data Body {ℓ} (A : Type ℓ) : Type ℓ where
  unreadable : String → Body A
  read : A → Body A

-- The text of a problem, by what it is made from.
pub data Said : Type 0 where
  text_of : String → Said
  caused_by : Error → Said
  denied_by : Denial → Said

-- What a handler writes: `writeError`, `writeJSON`, or a status alone. After a panic it writes
-- nothing.
pub data Reply {ℓ} (A : Type ℓ) : Type ℓ where
  problem : ℕ → String → Said → Reply A
  json : ℕ → A → Reply A
  empty : ℕ → Reply A
  panicked : Reply A

abbrev nobody : Principal
nobody = record {
  subject = "";
  email = "";
  tenant = "";
  roles = [];
  namespaces = [];
  services = [];
  project_ids = [];
  disabled = false;
  provisioned = false;
  credential = "";
}

-- `principal` of access.go
unfoldable pub principal : Request → Principal
principal request = elim request.caller [ none ↦ nobody | some value ↦ value ]

-- `actor`
unfoldable pub actor : Request → String
actor request = elim request.caller [
  | some value ↦ if is_empty value.email then value.subject else value.email
  | none ↦
      let value = trim_space request.actor_header in if is_empty value then "anonymous" else value
]

-- The status and the code of `writeMutation`.
abbrev pub status_of : Error → ℕ
status_of not_found = 404
status_of conflict = 409
status_of _ = 422

abbrev pub code_of : Error → String
code_of not_found = "not_found"
code_of conflict = "conflict"
code_of _ = "validation_error"

-- `writeMutation`
unfoldable pub write_mutation {ℓ} : {A : Type ℓ} → Outcome A → ℕ → Reply A
write_mutation (returned value) success = json success value
write_mutation (refused e) success = problem (status_of e) (code_of e) (caused_by e)

-- What a method of the local repository returns once it has written its file: its value, or the
-- error of the write, after which the repository keeps the new state in memory.
unfoldable pub commit {ℓ} : {A : Type ℓ} → Env → State × Outcome A → State × Outcome A
commit env (s, refused e) = (s, refused e)
commit env (s, returned value) = elim (env.persist s) [
  | none ↦ (s, returned value)
  | some e ↦ (s, refused (message e))
]

-- A mutation whose result goes to `writeMutation`.
unfoldable pub answer {ℓ} : {A : Type ℓ} → Env → ℕ → State × Outcome A → State × Reply A
unfolding commit
answer env success result = let done = commit env result in (done.0, write_mutation done.1 success)

-- A deletion: the status alone, where it succeeds.
unfoldable pub answer_deleted {ℓ} : {A : Type ℓ} → Env → State × Outcome A → State × Reply A
unfolding commit
answer_deleted env result =
    let done = commit env result in
    (done.0, elim done.1 [ refused e ↦ write_mutation (refused e) 204 | returned _ ↦ empty 204 ])

-- `decode`, and the answer to a body that it cannot read.
unfoldable pub decode {ℓ κ} :
    {R : Type ℓ} {A : Type κ} → Body R → State → (R → State × Reply A) → State × Reply A
decode (unreadable e) s next = (s, problem 400 "invalid_request" (text_of e))
decode (read req) s next = next req
