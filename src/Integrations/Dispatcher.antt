-- ===== src/Integrations/Dispatcher.antt =====
-- go/internal/integrations/dispatcher.go: the custom resource of a lifecycle command. The cluster is
-- the dynamic client of Kubernetes, a parameter.
pub mod Delivered
use Prim.Native.Char.{code}
use Prim.Native.String.{◌++◌}
use mlops.Base.{
  ℕ, zero, suc, String, Bool, true, false, List, [], ◌∷◌, Option, none, some, ◌==◌, ◌&&◌, not, leb,
  inl, inr, ◌⊎◌, if◌then◌else◌,
}
use mlops.Base.Int.{ℤ, pos}
use mlops.Base.Slug.{is_plain, trim_dashes}
use mlops.Base.Text.{is_empty, byte_length}
use mlops.Api.Value.{
  Any, null, float, int, text, slice, object, Items, nil, cons, Fields, end, field, Float64,
}

-- `LifecycleCommand`, with its resource decoded: the entries of a JSON object.
pub record LifecycleCommand : Type 0 where
  pub id : String
  pub kind : String
  pub action : String
  pub resource : Fields
  pub tenant : String

-- `strings.ToLower`, the first eight characters of the SHA-256 digest in hexadecimal, and the
-- conversion of a float64 to an int64.
pub record Functions : Type 0 where
  pub to_lower : String → String
  pub digest8 : String → String
  pub truncate : Float64 → ℤ

-- `resource[key]`, null where the key is missing.
unfoldable pub value_of : String → Fields → Any
value_of key end = null
value_of key (field k value rest) = if k == key then value else value_of key rest

-- `name, _ := value.(string)`, and `value.(map[string]any)`
unfoldable pub as_text : Any → String
as_text (text s) = s
as_text _ = ""

unfoldable pub as_object : Any → Fields
as_object (object fields) = fields
as_object _ = end

-- `toolRefs`
unfoldable pub tool_refs_of : Items → Items
tool_refs_of nil = nil
tool_refs_of (cons item items) =
    cons (object (field "name" item (field "version" (text "latest") end))) (tool_refs_of items)

unfoldable pub tool_refs : Any → Any
tool_refs (slice items) = slice (tool_refs_of items)
tool_refs _ = slice nil

-- `regexp.MustCompile("[^a-z0-9]+").ReplaceAllString(s, "-")`. The flag says that the text goes on in
-- a run of other characters, whose dash has been written.
unfoldable pub dash_runs : Bool → String → String
dash_runs inside String.[] = String.[]
dash_runs inside (String.◌∷◌ c s) =
    let plain = is_plain (code c) in
    let rest = dash_runs (not plain) s in
    if plain then String.◌∷◌ c rest else if inside then rest else String.◌∷◌ "-" rest

-- `s[:n]`, of a text of single bytes.
unfoldable pub take_text : ℕ → String → String
take_text zero s = String.[]
take_text (suc n) String.[] = String.[]
take_text (suc n) (String.◌∷◌ c s) = String.◌∷◌ c (take_text n s)

-- The custom resource: its plural and kind, its name, its labels and its spec.
pub record Object : Type 0 where
  pub plural : String
  pub kind : String
  pub name : String
  pub tenant : String
  pub resource_id : String
  pub spec : Any

-- What the switch makes of a command.
pub data Planned : Type 0 where
  ignored unsupported : Planned
  applied removed : Object → Planned

module _ (go : Functions) where
  -- `integer`
  unfoldable pub integer : Any → Any
  integer (float bits) = int (go.truncate bits)
  integer (int n) = int n
  integer _ = int (pos 0)

  -- `dnsName`
  unfoldable pub dns_name : String → String → String
  dns_name name fallback =
      let raw = go.to_lower (if is_empty name then fallback else name) in
      let trimmed = trim_dashes (dash_runs false raw) in
      let value = if is_empty trimmed then "resource" else trimmed in
      if leb (byte_length value) 63
      then value
      else trim_dashes (take_text 54 value) ++ "-" ++ go.digest8 raw

  unfoldable pub name_of : LifecycleCommand → String
  name_of command =
      let named = as_text (value_of "name" command.resource) in
      if is_empty named then command.id else named

  unfoldable pub object_of : LifecycleCommand → String → String → String → Fields → Object
  object_of command plural kind name spec = record {
    plural = plural;
    kind = kind;
    name = dns_name name command.id;
    tenant = command.tenant;
    resource_id = command.id;
    spec = object spec;
  }

  unfoldable pub agent_spec : Fields → Fields
  agent_spec r = field "version" (value_of "version" r) (
      field "image" (value_of "image" r) (
        field "graphModule" (value_of "graph_module" r) (
          field "replicas"
            (object (field "min" (value_of "replicas" r) (field "max" (value_of "replicas" r) end)))
            (field "llm" (object (field "backend" (value_of "llm_backend" r) end)) (
              field "tools" (tool_refs (value_of "tools" r)) (
                field "trafficPolicy"
                  (object (field "canaryWeight" (value_of "canary_weight" r) end)) end))))))

  unfoldable pub workspace_spec : Fields → Fields
  workspace_spec r =
      let compute = as_object (value_of "compute" r) in
      let storage = as_object (value_of "storage" r) in
      field "subject" (value_of "subject" r) (
        field "services" (value_of "services" r) (
          field "disabled" (value_of "disabled" r) (
            field "compute"
              (object (
                field "vcpus" (integer (value_of "vcpus" compute)) (
                  field "memoryGB" (integer (value_of "memory_gb" compute)) (
                    field "gpus" (integer (value_of "gpus" compute)) (
                      field "gpuType" (value_of "gpu_type" compute)
                        (field "maxVMs" (integer (value_of "max_vms" compute)) end))))))
              (field "storageGB" (integer (value_of "size_gb" storage)) end))))

  -- The workspace of a user is named by the id of the command, which is the subject.
  unfoldable pub workspace_of : LifecycleCommand → Object
  workspace_of command =
      object_of command "nexusworkspaces" "NexusWorkspace" ("workspace-" ++ command.id)
        (workspace_spec command.resource)

  -- The switch of `Dispatch`, and its test for a deletion.
  unfoldable pub plan_command : LifecycleCommand → Planned
  plan_command command =
      let r = command.resource in
      let name = name_of command in
      if command.kind == "pipeline_run"
      then applied (
          object_of command "nexuspipelineruns" "NexusPipelineRun" name (
            field "pipelineRef" (value_of "name" r)
              (field "parameters" (object (field "project_id" (value_of "project_id" r) end)) end)))
      else if command.kind == "model"
      then if command.action == "model.promoted"
        then applied (
            object_of command "nexusmodelpromotions" "NexusModelPromotion" name (
              field "modelName" (value_of "name" r) (
                field "version" (value_of "version" r)
                  (field "targetStage" (value_of "stage" r) end))))
        else ignored
      else if command.kind == "agent"
      then applied (object_of command "nexusagents" "NexusAgent" name (agent_spec r))
      else if command.kind == "tool"
      then applied (
          object_of command "nexustools" "NexusTool" name (
            field "version" (value_of "version" r) (
              field "description" (value_of "description" r) (
                field "tags" (value_of "tags" r)
                  (field "inputSchema" (value_of "input_schema" r) end)))))
      else if command.kind == "connection"
      then applied (
          object_of command "nexusconnections" "NexusConnection" name (
            field "type" (value_of "type" r) (
              field "endpoint" (value_of "endpoint" r)
                (field "secretRef" (object (field "name" (value_of "secret_ref" r) end)) end))))
      else if command.kind == "user_access"
      then if command.action == "access.deleted"
        then removed (workspace_of command)
        else applied (workspace_of command)
      else unsupported

-- What `Get` and `Delete` return. A version goes back to the cluster with an update.
pub data Got : Type 0 where
  absent : Got
  present : String → Got
  unread : String → Got

pub data Deleted : Type 0 where
  gone missing : Deleted
  undeleted : String → Deleted

-- The client of the cluster, over its states. `some` is an error.
pub record Client (C : Type 0) : Type 0 where
  pub get : C → String → String → Got
  pub create : C → Object → C × Option String
  pub update : C → String → Object → C × Option String
  pub delete : C → String → String → C × Deleted

pub data Failure : Type 0 where
  malformed : String → Failure
  unsupported_kind : String → Failure
  refused_by_cluster : String → Failure

module _ {C : Type 0} (client : Client C) (go : Functions) where
  abbrev failure_of : Option String → Option Failure
  failure_of none = none
  failure_of (some e) = some (refused_by_cluster e)

  -- The object is created, or updated over the version that is there.
  unfoldable pub apply_object : Object → C → C × Option Failure
  apply_object made c = elim (client.get c made.plural made.name) [
    | absent ↦ let done = client.create c made in (done.0, failure_of done.1)
    | unread e ↦ (c, some (refused_by_cluster e))
    | present version ↦ let done = client.update c version made in (done.0, failure_of done.1)
  ]

  unfoldable pub remove_object : Object → C → C × Option Failure
  remove_object made c =
      let done = client.delete c made.plural made.name in
      (
        done.0,
        elim done.1 [ gone ↦ none | missing ↦ none | undeleted e ↦ some (refused_by_cluster e) ],
      )

  -- `Dispatch`, of a command that has been decoded.
  unfoldable pub dispatch_command : LifecycleCommand → C → C × Option Failure
  dispatch_command command c = elim (plan_command go command) [
    | ignored ↦ (c, none)
    | unsupported ↦ (c, some (unsupported_kind command.kind))
    | applied made ↦ apply_object made c
    | removed made ↦ remove_object made c
  ]

  -- `Dispatch`, with `decode` for the two calls of `json.Unmarshal`.
  unfoldable pub dispatch : (String → String ⊎ LifecycleCommand) → String → C → C × Option Failure
  dispatch decode value c = elim (decode value) [
    | inl e ↦ (c, some (malformed e))
    | inr command ↦ dispatch_command command c
  ]
