-- ===== src/Store/Postgres/Outbox.antt =====
-- The transaction of the Postgres repository: its audit trail, its outbox and its tenants.
use mlops.Base.{
  ◌≡◌, refl, ◌∙◌, ap, String, Bool, false, List, [], ◌∷◌, Option, none, some, ◌==◌, ◌&&◌, inl, inr,
  ◌⊎◌, Bool-cases, Option-cases, eq_iff, if◌then◌else◌, All, eq_refl, arith,
}
use mlops.Base.First.{find_first, update_first, find_first-update_first, find_first_passes}
use mlops.Base.Text.{is_empty}
use mlops.Api.Project.{AuditEvent}
use mlops.Store.{returned, Error, Clock, Metadata}
use mlops.Store.Postgres.{
  Row, operation, command, Outgoing, Audited, Db, begin, marshal, put_resource, put_audit,
  put_operation, marshal_command, put_command, commit, Faults, topic_for_action, is_row,
  set_payload, put, Tx, unless, settle, event_of, with_event, with_command, write, rows_of, Codec,
  get, no_faults,
}

-- A call of `write`.
pub record Writing (Json : Type 0) : Type 0 where
  pub tenant : String
  pub faults : Faults
  pub clock : Clock
  pub kind : String
  pub resource_id : String
  pub payload : Json
  pub action : String
  pub actor : String
  pub metadata : Metadata

module _ {Json : Type 0} where
  -- The audit events in the outbox.
  abbrev pub operations : List (Outgoing Json) → List Audited
  operations [] = []
  operations (o ∷ os) = elim o.payload [
    | operation event ↦ record { tenant = o.tenant; event = event } ∷ operations os
    | command _ _ _ _ _ _ _ ↦ operations os
  ]

  unless-cases :
      (fault : Option Error) (db : Db Json) (rest : Tx Json) (out : Db Json)
      → ((e : Error) × (settle db rest ≡ (db, some e))) ⊎ (settle db rest ≡ (out, none))
      → ((e : Error) × (settle db (unless fault rest) ≡ (db, some e)))
        ⊎ (settle db (unless fault rest) ≡ (out, none))
  unless-cases (some e) db rest out h = inl (e, refl)
  unless-cases none db rest out h = h

  abbrev pub row_of : Writing Json → Row Json
  row_of w = record { tenant = w.tenant; kind = w.kind; id = w.resource_id; payload = w.payload }

  -- What a transaction of `write` leaves that commits.
  abbrev pub written : Writing Json → Db Json → Db Json
  written w db =
      let stored =
        with_event w.tenant w.clock (row_of w)
          (event_of w.clock w.kind w.resource_id w.action w.actor w.metadata) db in
      if is_empty (topic_for_action w.action)
      then stored
      else with_command w.tenant w.clock (row_of w)
          (event_of w.clock w.kind w.resource_id w.action w.actor w.metadata)
          (topic_for_action w.action) stored

  abbrev pub performed : Writing Json → Db Json → Db Json × Option Error
  performed w =
      write w.tenant w.faults w.clock w.kind w.resource_id w.payload w.action w.actor w.metadata

  write-cases :
      (w : Writing Json) (db : Db Json)
      → ((e : Error) × (performed w db ≡ (db, some e))) ⊎ (performed w db ≡ (written w db, none))
  unfolding write
  write-cases w db = unless-cases (w.faults begin) db _ (written w db) (
      unless-cases (w.faults marshal) db _ (written w db) (
        unless-cases (w.faults put_resource) db _ (written w db) (
          unless-cases (w.faults put_audit) db _ (written w db) (
            unless-cases (w.faults put_operation) db _ (written w db)
              (elim (Bool-cases (is_empty (topic_for_action w.action))) [
                | inl e ↦ rw e (unless-cases (w.faults commit) db _ _ (inr refl))
                | inr e ↦ rw e (
                    unless-cases (w.faults marshal_command) db _ _ (
                      unless-cases (w.faults put_command) db _ _
                        (unless-cases (w.faults commit) db _ _ (inr refl))))
              ])))))

  abbrev audited : Writing Json → Audited
  audited w = record {
    tenant = w.tenant;
    event = event_of w.clock w.kind w.resource_id w.action w.actor w.metadata;
  }

  with_event-operations :
      (w : Writing Json) (db : Db Json)
      → operations db.outbox ≡ db.audit
      → operations (written w db).outbox ≡ (written w db).audit
  unfolding with_event with_command
  with_event-operations w db h = elim (Bool-cases (is_empty (topic_for_action w.action))) [
    | inl e ↦ rw e (ap (λ xs. audited w ∷ xs) h)
    | inr e ↦ rw e (ap (λ xs. audited w ∷ xs) h)
  ]

  update_first-other :
      (tenant kind : String) (row : Row Json) (rows : List (Row Json))
      → (row.tenant == tenant && row.kind == kind) ≡ false
      → rows_of tenant kind
          (update_first (is_row row.tenant row.kind row.id) (set_payload row.payload) rows)
        ≡ rows_of tenant kind rows
  update_first-other tenant kind row [] h = refl
  update_first-other tenant kind row (x ∷ xs) h = ground (
    arith,
    update_first-other tenant kind row xs h,
    eq_iff x.tenant row.tenant,
    eq_iff x.kind row.kind,
  )

  put-other :
      (tenant kind : String) (row : Row Json) (rows : List (Row Json))
      → (row.tenant == tenant && row.kind == kind) ≡ false
      → rows_of tenant kind (put row rows) ≡ rows_of tenant kind rows
  unfolding put
  put-other tenant kind row rows h =
      elim (Option-cases (find_first (is_row row.tenant row.kind row.id) rows)) [
        | inl f ↦ rw (f, put) (rw h refl)
        | inr (found, f) ↦ rw (f, put) (update_first-other tenant kind row rows h)
      ]

  written-resources :
      (w : Writing Json) (db : Db Json) → (written w db).resources ≡ put (row_of w) db.resources
  unfolding with_event with_command
  written-resources w db = elim (Bool-cases (is_empty (topic_for_action w.action))) [
    | inl e ↦ rw e refl
    | inr e ↦ rw e refl
  ]

  written-audit : (w : Writing Json) (db : Db Json) → (written w db).audit ≡ audited w ∷ db.audit
  unfolding with_event with_command
  written-audit w db = elim (Bool-cases (is_empty (topic_for_action w.action))) [
    | inl e ↦ rw e refl
    | inr e ↦ rw e refl
  ]

  unfoldable pub perform_all : List (Writing Json) → Db Json → Db Json
  perform_all [] db = db
  perform_all (w ∷ ws) db = perform_all ws (performed w db).0

  write-announces :
      (w : Writing Json) (db : Db Json)
      → operations db.outbox ≡ db.audit
      → operations (performed w db).0.outbox ≡ (performed w db).0.audit
  write-announces w db h = elim (write-cases w db) [
    | inl (e, p) ↦ rw p h
    | inr p ↦ rw p (with_event-operations w db h)
  ]

  -- Whatever is written, for whichever tenants, and whichever statements fail: the audit events in the
  -- outbox remain those of the audit trail, in the same order.
  pub write_all-operations :
      (ws : List (Writing Json)) (db : Db Json)
      → operations db.outbox ≡ db.audit
      → operations (perform_all ws db).outbox ≡ (perform_all ws db).audit
  unfolding perform_all
  write_all-operations [] db h = h
  write_all-operations (w ∷ ws) db h =
      write_all-operations ws (performed w db).0 (write-announces w db h)

  write_one-other :
      (tenant kind : String) (w : Writing Json) (db : Db Json)
      → (w.tenant == tenant) ≡ false
      → rows_of tenant kind (performed w db).0.resources ≡ rows_of tenant kind db.resources
  write_one-other tenant kind w db h = elim (write-cases w db) [
    | inl (e, p) ↦ rw p refl
    | inr p ↦ rw p (
        ap (rows_of tenant kind) (written-resources w db)
        ∙ put-other tenant kind (row_of w) db.resources (ground arith))
  ]

  abbrev pub NotOf : String → Writing Json → Type 0
  NotOf tenant w = (w.tenant == tenant) ≡ false

  -- The rows of a tenant stay as they are, whatever other tenants write.
  write_all-other_tenant :
      (tenant kind : String) (ws : List (Writing Json)) (db : Db Json)
      → All (NotOf tenant) ws
      → rows_of tenant kind (perform_all ws db).resources ≡ rows_of tenant kind db.resources
  unfolding perform_all
  write_all-other_tenant tenant kind [] db h = refl
  write_all-other_tenant tenant kind (w ∷ ws) db (h, hs) =
      write_all-other_tenant tenant kind ws (performed w db).0 hs
      ∙ write_one-other tenant kind w db h

  set_payload-find :
      (p : Row Json → Bool) (payload : Json) (rows : List (Row Json)) {row : Row Json}
      → ((r : Row Json) → p (set_payload payload r) ≡ p r)
      → find_first p rows ≡ some row
      → find_first p (update_first p (set_payload payload) rows) ≡ some (set_payload payload row)
  set_payload-find p payload rows {row} same f =
      find_first-update_first p (set_payload payload) rows f (same row ∙ find_first_passes p rows f)

  put-find :
      (row : Row Json) (rows : List (Row Json))
      → (found : Row Json) × (find_first (is_row row.tenant row.kind row.id) (put row rows)
          ≡ some found)
        × (found.payload ≡ row.payload)
  unfolding put
  put-find row rows = elim (Option-cases (find_first (is_row row.tenant row.kind row.id) rows)) [
    | inl f ↦ (row, rw (f, put, eq_refl row.tenant, eq_refl row.kind, eq_refl row.id) refl, refl)
    | inr (old, f) ↦ (
      set_payload row.payload old,
      rw (f, put)
          (set_payload-find (is_row row.tenant row.kind row.id) row.payload rows (λ r. refl) f),
      refl,
    )
  ]

module _ {Json A : Type 0} (codec : Codec Json A) where
  -- A call of `write` with the encoding of a value that fails leaves the database as it was. After one that does not, `get` returns
  -- the value that was written, and the audit trail has one event more, for that resource and action.
  write-get :
      (w : Writing Json) (value : A) (db : Db Json)
      → w.payload ≡ codec.encode value
      → ((e : Error) × (performed w db ≡ (db, some e)))
        ⊎ (((performed w db).1 ≡ none)
            × (get codec w.tenant no_faults w.kind w.resource_id (performed w db).0
                ≡ returned value)
            × ((event : AuditEvent) × ((performed w db).0.audit
                  ≡ record { tenant = w.tenant; event = event } ∷ db.audit)
                × (event.resource_id ≡ w.resource_id)
                × (event.action ≡ w.action)))
  unfolding get
  write-get w value db same = elim (write-cases w db) [
    | inl failure ↦ inl failure
    | inr p ↦
        let (found, f, k) = put-find (row_of w) db.resources in
        inr (
          rw p (
            refl,
            rw (written-resources w db, get, f, k, same, codec.decode-encode value) refl,
            (
              event_of w.clock w.kind w.resource_id w.action w.actor w.metadata,
              written-audit w db,
              refl,
              refl,
            ),
          ))
  ]
