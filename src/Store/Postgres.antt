-- ===== src/Store/Postgres.antt =====
-- go/internal/store/postgres.go: the tables of the Postgres repository, and the reads and the
-- transaction that its methods share.
--
-- A table is the list of its rows, in the order in which `list` yields them. A statement that fails
-- is given by the parameter `faults`; a transaction that fails, at its commit too, is rolled back.
pub mod Outbox
pub mod Runs
pub mod Models
pub mod ModelRefines
pub mod Rows
pub mod Refines
use mlops.Base.{
  ◌≡◌, String, Bool, true, List, [], ◌∷◌, Option, none, some, ◌==◌, ◌&&◌, filter, if◌then◌else◌,
}
use mlops.Base.First.{find_first, update_first}
use mlops.Base.Text.{is_empty, has_prefix}
use mlops.Api.Value.{Time}
use mlops.Api.Project.{AuditEvent}
use mlops.Store.{Error, Outcome, refused, returned, not_found, Clock, Metadata, id}

-- How `encoding/json` turns values of a type into payloads and back.
pub record Codec (Json A : Type 0) : Type 0 where
  pub encode : A → Json
  pub decode : Json → Option A
  pub decode-encode : (a : A) → decode (encode a) ≡ some a

-- A row of `platform_resources`.
pub record Row (Json : Type 0) : Type 0 where
  pub tenant : String
  pub kind : String
  pub id : String
  pub payload : Json

-- The payload of a row of `outbox_events`: the audit event, or a command.
pub data Message (Json : Type 0) : Type 0 where
  operation : AuditEvent → Message Json
  command : (id kind action : String) → Json → (actor tenant : String) → Time → Message Json

-- A row of `outbox_events` that has not been published.
pub record Outgoing (Json : Type 0) : Type 0 where
  pub tenant : String
  pub id : String
  pub topic : String
  pub event_key : String
  pub payload : Message Json

pub record Audited : Type 0 where
  pub tenant : String
  pub event : AuditEvent

pub record Db (Json : Type 0) : Type 0 where
  pub resources : List (Row Json)
  pub audit : List Audited
  pub outbox : List (Outgoing Json)

-- The places at which a method can get an error from the database or from `json.Marshal`.
pub data Statement : Type 0 where
  query begin marshal put_resource put_audit put_operation marshal_command put_command commit :
      Statement

abbrev pub Faults : Type 0
Faults = Statement → Option Error

abbrev pub no_faults : Faults
no_faults s = none

-- `actorOrAnonymous`
unfoldable pub actor_or_anonymous : String → String
actor_or_anonymous actor = if is_empty actor then "anonymous" else actor

-- `topicForAction`
unfoldable pub topic_for_action : String → String
topic_for_action action =
    if has_prefix action "pipeline."
    then "mlaiops.pipeline.commands"
    else if has_prefix action "model."
    then "mlaiops.model.commands"
    else if has_prefix action "agent."
    then "mlaiops.agent.commands"
    else if has_prefix action "tool."
    then "mlaiops.tool.commands"
    else if has_prefix action "connection."
    then "mlaiops.connection.commands"
    else if has_prefix action "access."
    then "mlaiops.workspace.commands"
    else ""

-- What a transaction has come to.
pub data Tx (Json : Type 0) : Type 0 where
  failed : Error → Tx Json
  going : Db Json → Tx Json

-- The audit event of `write`.
abbrev pub event_of : Clock → String → String → String → String → Metadata → AuditEvent
event_of clock kind resource_id action actor metadata = record {
  id = id "evt" (clock 0);
  action = action;
  resource = kind;
  resource_id = resource_id;
  actor = actor_or_anonymous actor;
  metadata = metadata;
  created_at = clock 1;
}

module _ {Json : Type 0} where
  abbrev pub is_row : String → String → String → Row Json → Bool
  is_row tenant kind resource_id row =
      row.tenant == tenant && row.kind == kind && row.id == resource_id

  abbrev pub set_payload : Json → Row Json → Row Json
  set_payload payload row = record row { payload = payload }

  -- `INSERT INTO platform_resources … ON CONFLICT … DO UPDATE SET payload=EXCLUDED.payload`
  unfoldable pub put : Row Json → List (Row Json) → List (Row Json)
  put row rows = elim (find_first (is_row row.tenant row.kind row.id) rows) [
    | none ↦ row ∷ rows
    | some _ ↦ update_first (is_row row.tenant row.kind row.id) (set_payload row.payload) rows
  ]

  abbrev pub unless : Option Error → Tx Json → Tx Json
  unless (some e) rest = failed e
  unless none rest = rest

  -- The deferred rollback, or the effect of the commit.
  abbrev pub settle : Db Json → Tx Json → Db Json × Option Error
  settle db (failed e) = (db, some e)
  settle db (going db') = (db', none)

  -- The three statements that every transaction of `write` makes.
  unfoldable pub with_event : String → Clock → Row Json → AuditEvent → Db Json → Db Json
  with_event tenant clock row event db = record {
    resources = put row db.resources;
    audit = record { tenant = tenant; event = event } ∷ db.audit;
    outbox =
        record {
          tenant = tenant;
          id = id "out" (clock 2);
          topic = "mlaiops.audit.operations";
          event_key = row.id;
          payload = operation event;
        }
        ∷ db.outbox;
  }

  -- The statement for the command.
  unfoldable pub with_command : String → Clock → Row Json → AuditEvent → String → Db Json → Db Json
  with_command tenant clock row event topic db = record db {
    outbox =
        record {
          tenant = tenant;
          id = id "out" (clock 3);
          topic = topic;
          event_key = row.id;
          payload =
              command row.id row.kind event.action row.payload event.actor tenant event.created_at;
        }
        ∷ db.outbox;
  }

  -- `write`
  unfoldable pub write :
      String
      → Faults
      → Clock
      → String
      → String
      → Json
      → String
      → String
      → Metadata
      → Db Json
      → Db Json × Option Error
  write tenant faults clock kind resource_id payload action actor metadata db =
      let row : Row Json = record {
        tenant = tenant;
        kind = kind;
        id = resource_id;
        payload = payload;
      } in
      let event = event_of clock kind resource_id action actor metadata in
      let topic = topic_for_action action in
      let stored = with_event tenant clock row event db in
      settle db (
        unless (faults begin) (
          unless (faults marshal) (
            unless (faults put_resource) (
              unless (faults put_audit) (
                unless (faults put_operation) (
                  if is_empty topic
                  then unless (faults commit) (going stored)
                  else unless (faults marshal_command) (
                      unless (faults put_command) (
                        unless (faults commit)
                          (going (with_command tenant clock row event topic stored))))))))))

  module _ {A : Type 0} (codec : Codec Json A) where
    -- `get`
    unfoldable pub get : String → Faults → String → String → Db Json → Outcome A
    get tenant faults kind resource_id db = elim (faults query) [
      | some e ↦ refused e
      | none ↦ elim (find_first (is_row tenant kind resource_id) db.resources) [
        | none ↦ refused not_found
        | some row ↦ elim (codec.decode row.payload) [
          | none ↦ refused (Error.message "json")
          | some value ↦ returned value
        ]
      ]
    ]

  -- The rows that `list` reads.
  abbrev pub rows_of : String → String → List (Row Json) → List (Row Json)
  rows_of tenant kind = filter (λ row. row.tenant == tenant && row.kind == kind)

  unfoldable pub decode_all : {A : Type 0} → Codec Json A → List (Row Json) → List A
  decode_all codec [] = []
  decode_all codec (row ∷ rows) = elim (codec.decode row.payload) [
    | none ↦ decode_all codec rows
    | some value ↦ value ∷ decode_all codec rows
  ]

  -- `list`, which drops an error of the query and the rows that do not decode.
  unfoldable pub list : {A : Type 0} → Codec Json A → String → Faults → String → Db Json → List A
  list codec tenant faults kind db = elim (faults query) [
    | some _ ↦ []
    | none ↦ decode_all codec (rows_of tenant kind db.resources)
  ]

  -- `return value, p.write(kind, value.ID, value, …)`
  unfoldable pub save :
      {A : Type 0}
      → Codec Json A
      → String
      → Faults
      → String
      → (A → String)
      → Clock
      → String
      → String
      → Metadata
      → A
      → Db Json
      → Db Json × Outcome A
  save codec tenant faults kind id_of clock action actor metadata value db =
      let (db', result) =
        write tenant faults clock kind (id_of value) (codec.encode value) action actor metadata
          db in
      (db', elim result [ some e ↦ refused e | none ↦ returned value ])
