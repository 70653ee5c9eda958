-- ===== src/Store.antt =====
-- go/internal/store/store.go: the data of the local repository, its audit trail, and the values
-- that its methods return.
pub mod Steps
pub mod Runs
pub mod Seed
pub mod Access
pub mod Models
pub mod Requests
pub mod Tokens
pub mod Catalog
pub mod Definitions
pub mod Projects
pub mod Functions
pub mod Blog
pub mod Features
pub mod Agents
pub mod Postgres
pub mod Outbox
use Prim.Native.String.{◌++◌}
use mlops.Base.{
  ◌≡◌, refl, ◌⊎◌, inl, inr, ℕ, String, Bool, false, List, [], ◌∷◌, ◌==◌, ◌||◌, if◌then◌else◌,
}
use mlops.Base.Text.{is_empty}
use mlops.Base.Decimal.{decimal}
use mlops.Api.Value.{Time, Any}
use mlops.Api.Access.{UserAccess, AccessRequest, ApiToken}
use mlops.Api.Project.{Project, BlogPost, Connection, AuditEvent}
use mlops.Api.Pipeline.{PipelineRun, PipelineDefinition, Function}
use mlops.Api.Model.{Model, FeatureView, Tool}
use mlops.Api.Agent.{Agent, AgentSession, AgentTrace}

pub record State : Type 0 where
  pub user_access : List UserAccess
  pub access_requests : List AccessRequest
  pub api_tokens : List ApiToken
  pub blog_posts : List BlogPost
  pub projects : List Project
  pub runs : List PipelineRun
  pub definitions : List PipelineDefinition
  pub functions : List Function
  pub models : List Model
  pub agents : List Agent
  pub tools : List Tool
  pub connections : List Connection
  pub audit : List AuditEvent
  pub sessions : List AgentSession
  pub traces : List AgentTrace
  pub features : List FeatureView

-- `var s state`
abbrev pub zero_state : State
zero_state = record {
  user_access = [];
  access_requests = [];
  api_tokens = [];
  blog_posts = [];
  projects = [];
  runs = [];
  definitions = [];
  functions = [];
  models = [];
  agents = [];
  tools = [];
  connections = [];
  audit = [];
  sessions = [];
  traces = [];
  features = [];
}

-- `ErrNotFound`, `ErrConflict`, the errors that `errors.New` makes, and those of `fmt.Errorf`, by
-- what they are formatted from. `rand_failed` is the error of `rand.Read`.
pub data Error : Type 0 where
  not_found conflict rand_failed : Error
  message : String → Error
  invalid_step_status unknown_service unknown_profile invalid_scope : String → Error

-- What a method returns: a zero value with an error, or a value with the result of `s.persist()`,
-- which is called on the state that stands beside it.
pub data Outcome {ℓ} (A : Type ℓ) : Type ℓ where
  refused : Error → Outcome A
  returned : A → Outcome A

pub Outcome-cases {ℓ} :
    {A : Type ℓ} (o : Outcome A) → ((e : Error) × (o ≡ refused e)) ⊎ ((v : A) × (o ≡ returned v))
Outcome-cases (refused e) = inl (e, refl)
Outcome-cases (returned v) = inr (v, refl)

-- The successive readings of `time.Now()` in one call of a method.
abbrev pub Clock : Type 0
Clock = ℕ → Time

abbrev pub Metadata : Type 0
Metadata = List (String × Any)

-- `fmt.Sprintf("%s-%d", prefix, time.Now().UnixNano())`
unfoldable pub id : String → Time → String
unfolding decimal
id prefix now = prefix ++ "-" ++ decimal now

-- `record`. It reads the clock twice, for the event's id and for its time.
unfoldable pub record_event :
    Time → Time → String → String → String → String → Metadata → State → State
record_event t t' action resource resource_id actor metadata s = record s {
  audit =
      record {
        id = id "evt" t;
        action = action;
        resource = resource;
        resource_id = resource_id;
        actor = if is_empty actor then "anonymous" else actor;
        metadata = metadata;
        created_at = t';
      }
      ∷ s.audit;
}

-- `first`
abbrev pub first : List String → String
first [] = ""
first (a ∷ _) = a

-- `hasProject`
unfoldable pub has_project : List Project → String → Bool
has_project [] project_id = false
has_project (v ∷ vs) project_id = v.id == project_id || has_project vs project_id
