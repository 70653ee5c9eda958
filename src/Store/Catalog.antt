-- ===== src/Store/Catalog.antt =====
-- go/internal/store/store.go: the tools of agents, and the connections to outside systems.
pub mod Names
use mlops.Base.{
  String, Bool, List, [], ◌∷◌, none, some, ◌==◌, ◌||◌, ◌&&◌, any, is_nil, if◌then◌else◌,
}
use mlops.Base.First.{find_first, update_first}
use mlops.Base.Text.{is_empty}
use mlops.Api.Value.{Time, text}
use mlops.Api.Model.{Tool, RegisterToolRequest}
use mlops.Api.Project.{Connection, CreateConnectionRequest}
use mlops.Store.{
  State, Outcome, refused, returned, not_found, conflict, message, Clock, id, record_event,
}

abbrev pub is_tool : String → String → Tool → Bool
is_tool name version v = v.name == name && v.version == version

-- The tool that `RegisterTool` makes.
unfoldable pub new_tool : Clock → RegisterToolRequest → Tool
new_tool clock req = record {
  id = id "tool" (clock 0);
  name = req.name;
  version = req.version;
  description = req.description;
  tags = req.tags;
  input_schema = req.input_schema;
  status = "ready";
  created_at = clock 1;
}

-- `RegisterTool`
unfoldable pub register_tool : Clock → RegisterToolRequest → String → State → State × Outcome Tool
register_tool clock req actor s =
    if is_empty req.name || is_empty req.version || is_nil req.input_schema
    then (s, refused (message "name, version and input_schema are required"))
    else if any (is_tool req.name req.version) s.tools
    then (s, refused conflict)
    else let t = new_tool clock req in
      (
        record_event (clock 2) (clock 3) "tool.registered" "tool" t.id actor []
            (record s { tools = t ∷ s.tools }),
        returned t,
      )

-- The connection that `CreateConnection` makes.
unfoldable pub new_connection : Clock → CreateConnectionRequest → Connection
new_connection clock req = record {
  id = id "conn" (clock 0);
  name = req.name;
  type = req.type;
  endpoint = req.endpoint;
  secret_ref = req.secret_ref;
  status = "pending";
  created_at = clock 1;
  checked_at = none;
  message = "";
}

-- `CreateConnection`, with `equal_fold` for `strings.EqualFold`.
unfoldable pub create_connection :
    (String → String → Bool)
    → Clock
    → CreateConnectionRequest
    → String
    → State
    → State × Outcome Connection
create_connection equal_fold clock req actor s =
    if is_empty req.name || is_empty req.type || is_empty req.secret_ref
    then (s, refused (message "name, type and secret_ref are required"))
    else if any (λ v. equal_fold v.name req.name) s.connections
    then (s, refused conflict)
    else let c = new_connection clock req in
      (
        record_event (clock 2) (clock 3) "connection.created" "connection" c.id actor []
            (record s { connections = c ∷ s.connections }),
        returned c,
      )

abbrev pub is_connection : String → Connection → Bool
is_connection connection_id c = c.id == connection_id

-- What `UpdateConnectionStatus` does to the connection that it finds.
unfoldable pub checked : Time → String → String → Connection → Connection
checked now status said c = record c { status = status; message = said; checked_at = some now }

-- `UpdateConnectionStatus`
unfoldable pub update_connection_status :
    Clock → String → String → String → String → State → State × Outcome Connection
update_connection_status clock connection_id status said actor s =
    elim (find_first (is_connection connection_id) s.connections) [
      | none ↦ (s, refused not_found)
      | some found ↦
          let change = checked (clock 0) status said in
          (
            record_event (clock 1) (clock 2) "connection.checked" "connection" connection_id actor
                (("status", text status) ∷ [])
                (record s {
                  connections = update_first (is_connection connection_id) change s.connections;
                }),
            returned (change found),
          )
    ]
