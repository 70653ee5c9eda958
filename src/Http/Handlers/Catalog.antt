-- ===== src/Http/Handlers/Catalog.antt =====
-- go/internal/httpapi/server.go: the handlers of feature views, of tools, and of connections with
-- their check.
use mlops.Base.{
  ℕ, String, Bool, false, List, Option, none, some, ◌==◌, ◌||◌, ◌&&◌, not, inl, inr, leb, ◌⊎◌,
  if◌then◌else◌,
}
use mlops.Base.First.{find_first}
use mlops.Base.Int.{ℤ}
use mlops.Base.Text.{is_empty}
use mlops.Api.Model.{FeatureView, ApplyFeatureViewRequest, Tool, RegisterToolRequest}
use mlops.Api.Project.{Connection, CreateConnectionRequest, AuditEvent}
use mlops.Store.{State}
use mlops.Store.Features.{apply_feature_view, report_materialization}
use mlops.Store.Catalog.{register_tool, create_connection, update_connection_status, is_connection}
use mlops.Http.Handlers.{Request, Env, Body, text_of, Reply, problem, json, actor, answer, decode}

-- What the check reads of `url.Parse` and of the response to its GET: its status, and the text of
-- `response.Status`. `inl` is the error of the request.
pub record Target : Type 0 where
  pub scheme : String
  pub host : String

pub record Probe : Type 0 where
  pub parse : String → Option Target
  pub get : String → String ⊎ (ℕ × String)

-- Whether the endpoint is an HTTP or HTTPS URL.
unfoldable is_web : Probe → String → Bool
is_web probe endpoint = elim (probe.parse endpoint) [
  | none ↦ false
  | some target ↦
      (target.scheme == "http" || target.scheme == "https") && not (is_empty target.host)
]

-- The status and the message that the check gives a connection.
unfoldable probed : Probe → String → String × String
probed probe endpoint =
    if not (is_web probe endpoint)
    then ("unhealthy", "Endpoint must be an HTTP or HTTPS URL")
    else elim (probe.get endpoint) [
      | inl e ↦ ("unhealthy", e)
      | inr response ↦
          if leb 500 response.0 then ("unhealthy", response.1) else ("healthy", response.1)
    ]

-- `features`, `tools`, `connections`, `audit`
unfoldable handle_features : State → Reply (List FeatureView)
handle_features s = json 200 s.features

unfoldable handle_tools : State → Reply (List Tool)
handle_tools s = json 200 s.tools

unfoldable handle_connections : State → Reply (List Connection)
handle_connections s = json 200 s.connections

unfoldable handle_audit : State → Reply (List AuditEvent)
handle_audit s = json 200 s.audit

module _ (env : Env) (request : Request) where
  -- `applyFeatureView`
  unfoldable handle_apply_feature_view :
      Body ApplyFeatureViewRequest → State → State × Reply FeatureView
  handle_apply_feature_view body s =
      decode body s λ req. answer env 201 (apply_feature_view env.clock req (actor request) s)

  -- `reportMaterialization`. The body is the number of entities.
  unfoldable handle_report_materialization : String → Body ℤ → State → State × Reply FeatureView
  handle_report_materialization name body s = decode body s λ entity_count.
      answer env 200 (report_materialization env.clock name entity_count (actor request) s)

  -- `registerTool`
  unfoldable handle_register_tool : Body RegisterToolRequest → State → State × Reply Tool
  handle_register_tool body s =
      decode body s λ req. answer env 201 (register_tool env.clock req (actor request) s)

  -- `createConnection`, with `equal_fold` for `strings.EqualFold`.
  unfoldable handle_create_connection :
      (String → String → Bool) → Body CreateConnectionRequest → State → State × Reply Connection
  handle_create_connection equal_fold body s =
      decode body s
        λ req. answer env 201 (create_connection equal_fold env.clock req (actor request) s)

  -- `testConnection`
  unfoldable handle_test_connection : Probe → String → State → State × Reply Connection
  handle_test_connection probe connection_id s =
      elim (find_first (is_connection connection_id) s.connections) [
        | none ↦ (s, problem 404 "not_found" (text_of "connection not found"))
        | some connection ↦
            let found = probed probe connection.endpoint in
            answer env 200
              (update_connection_status env.clock connection.id found.0 found.1 (actor request) s)
      ]
