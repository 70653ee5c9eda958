-- ===== src/Store/Outbox.antt =====
-- go/internal/store/outbox.go, and the statements on `outbox_events` of postgres.go: the worker that
-- publishes the events of the outbox.
pub mod Delivered
use mlops.Base.{
  ◌⊎◌, inl, inr, ℕ, zero, suc, ◌+◌, String, Bool, true, false, List, [], ◌∷◌, Option, none, some,
  ◌==◌, ◌&&◌, not, eqb, filter, map, if◌then◌else◌,
}

-- A row of `outbox_events`. `published` is whether `published_at` is set.
pub record OutboxEvent (Json : Type 0) : Type 0 where
  pub tenant : String
  pub sequence : ℕ
  pub id : String
  pub topic : String
  pub key : String
  pub payload : Json
  pub attempts : ℕ
  pub last_error : Option String
  pub published : Bool

-- What the publisher has accepted.
pub record Delivery (Payload : Type 0) : Type 0 where
  pub sequence : ℕ
  pub topic : String
  pub payload : Payload

-- What one call of `Flush` meets: the error of the query, the result of `json.Unmarshal`, the error of
-- the publisher at an event, and those of the two updates at a sequence number.
pub record Service (Json Payload : Type 0) : Type 0 where
  pub query_error : Option String
  pub unmarshal : Json → String ⊎ Payload
  pub publish_error : OutboxEvent Json → Payload → Option String
  pub mark_published_error : ℕ → Option String
  pub mark_failed_error : ℕ → Option String

-- The table, in the order of its sequence numbers, and what has been delivered.
pub record Outbox (Json Payload : Type 0) : Type 0 where
  pub rows : List (OutboxEvent Json)
  pub delivered : List (Delivery Payload)

abbrev pub first_of {ℓ} : {A : Type ℓ} → ℕ → List A → List A
first_of zero xs = []
first_of (suc n) [] = []
first_of (suc n) (x ∷ xs) = x ∷ first_of n xs

module _ {Json Payload : Type 0} (service : Service Json Payload) (tenant : String) where
  -- `PendingOutbox`
  unfoldable pub pending_outbox : ℕ → List (OutboxEvent Json) → List (OutboxEvent Json)
  pending_outbox limit rows =
      first_of limit (filter (λ row. row.tenant == tenant && not row.published) rows)

  abbrev pub at_sequence :
      ℕ → (OutboxEvent Json → OutboxEvent Json) → OutboxEvent Json → OutboxEvent Json
  at_sequence sequence change row =
      if row.tenant == tenant && eqb row.sequence sequence then change row else row

  -- `MarkPublished`, where it gives no error.
  unfoldable pub mark_published : ℕ → List (OutboxEvent Json) → List (OutboxEvent Json)
  mark_published sequence rows =
      map
        (at_sequence sequence
          λ row. record row { published = true; attempts = row.attempts + 1; last_error = none })
        rows

  -- `MarkFailed`, whose own error `Flush` drops.
  unfoldable pub mark_failed : ℕ → String → List (OutboxEvent Json) → List (OutboxEvent Json)
  mark_failed sequence said rows = elim (service.mark_failed_error sequence) [
    | some _ ↦ rows
    | none ↦
        map
          (at_sequence sequence
            λ row. record row { attempts = row.attempts + 1; last_error = some said })
          rows
  ]

  unfoldable pub fail_event : OutboxEvent Json → String → Outbox Json Payload → Outbox Json Payload
  fail_event event said o = record o { rows = mark_failed event.sequence said o.rows }

  unfoldable pub deliver : OutboxEvent Json → Payload → Outbox Json Payload → Outbox Json Payload
  deliver event payload o = record o {
    delivered =
        record { sequence = event.sequence; topic = event.topic; payload = payload } ∷ o.delivered;
  }

  unfoldable pub mark_event : OutboxEvent Json → Outbox Json Payload → Outbox Json Payload
  mark_event event o = record o { rows = mark_published event.sequence o.rows }

  -- The loop of `Flush`.
  unfoldable pub flush_events :
      List (OutboxEvent Json) → Outbox Json Payload → Outbox Json Payload × Option String
  flush_events [] o = (o, none)
  flush_events (event ∷ events) o = elim (service.unmarshal event.payload) [
    | inl e ↦ flush_events events (fail_event event e o)
    | inr payload ↦ elim (service.publish_error event payload) [
      | some e ↦ flush_events events (fail_event event e o)
      | none ↦ elim (service.mark_published_error event.sequence) [
        | some e ↦ (deliver event payload o, some e)
        | none ↦ flush_events events (mark_event event (deliver event payload o))
      ]
    ]
  ]

  -- `Flush`
  unfoldable pub flush : Outbox Json Payload → Outbox Json Payload × Option String
  flush o = elim service.query_error [
    | some e ↦ (o, some e)
    | none ↦ flush_events (pending_outbox 100 o.rows) o
  ]
