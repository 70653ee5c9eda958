-- ===== src/Store/Outbox/Delivered.antt =====
-- What the outbox worker has marked as published, it has delivered.
use mlops.Base.{
  Sum-cases, ◌≡◌, String, Bool, true, List, [], ◌∷◌, ◌==◌, eqb, any, Bool-cases, Option-cases, inl,
  inr, map, All, arith,
}
use mlops.Store.Outbox.{
  OutboxEvent, Delivery, Service, Outbox, pending_outbox, mark_published, mark_failed, fail_event,
  deliver, mark_event, flush_events, flush,
}

module _ {Json Payload : Type 0} where
  abbrev was_delivered : List (Delivery Payload) → OutboxEvent Json → Bool
  was_delivered delivered row = any (λ d. eqb d.sequence row.sequence) delivered

  abbrev Fine : String → List (Delivery Payload) → OutboxEvent Json → Type 0
  Fine tenant delivered row =
      (row.tenant == tenant) ≡ true → row.published ≡ true → was_delivered delivered row ≡ true

  -- Each row of the tenant that is published has been delivered.
  abbrev pub IsDelivered : String → Outbox Json Payload → Type 0
  IsDelivered tenant o = All (Fine tenant o.delivered) o.rows

  All-change :
      (tenant : String) (before after : List (Delivery Payload))
      (change : OutboxEvent Json → OutboxEvent Json) (rows : List (OutboxEvent Json))
      → ((row : OutboxEvent Json) → Fine tenant before row → Fine tenant after (change row))
      → All (Fine tenant before) rows
      → All (Fine tenant after) (map change rows)
  All-change tenant before after change [] keeps h = tt
  All-change tenant before after change (x ∷ xs) keeps (h, hs) =
      (keeps x h, All-change tenant before after change xs keeps hs)

  All-more :
      (tenant : String) (d : Delivery Payload) (delivered : List (Delivery Payload))
      (rows : List (OutboxEvent Json))
      → All (Fine tenant delivered) rows
      → All (Fine tenant (d ∷ delivered)) rows
  All-more tenant d delivered [] h = tt
  All-more tenant d delivered (x ∷ xs) (h, hs) =
      (λ a b. ground (arith, h a b), All-more tenant d delivered xs hs)

  module _ (service : Service Json Payload) (tenant : String) where
    fail-IsDelivered :
        (event : OutboxEvent Json) (said : String) (o : Outbox Json Payload)
        → IsDelivered tenant o
        → IsDelivered tenant (fail_event service tenant event said o)
    unfolding fail_event mark_failed
    fail-IsDelivered event said o h =
        elim (Option-cases (service.mark_failed_error event.sequence)) [
          | inr (e, p) ↦ rw (p, mark_failed) h
          | inl p ↦
              rw (p, mark_failed)
                (All-change tenant o.delivered o.delivered _ o.rows (λ row k a b. ground (arith, k))
                  h)
        ]

    deliver-IsDelivered :
        (event : OutboxEvent Json) (payload : Payload) (o : Outbox Json Payload)
        → IsDelivered tenant o
        → IsDelivered tenant (deliver service tenant event payload o)
    unfolding deliver
    deliver-IsDelivered event payload o h =
        All-more tenant
          (record { sequence = event.sequence; topic = event.topic; payload = payload }) o.delivered
          o.rows h

    mark-IsDelivered :
        (event : OutboxEvent Json) (payload : Payload) (o : Outbox Json Payload)
        → IsDelivered tenant o
        → IsDelivered tenant
            (mark_event service tenant event (deliver service tenant event payload o))
    unfolding deliver mark_event mark_published
    mark-IsDelivered event payload o h =
        All-change tenant o.delivered (deliver service tenant event payload o).delivered _ o.rows
          (λ row k a b. elim (Bool-cases (eqb event.sequence row.sequence)) [
            | inl e ↦ ground arith
            | inr e ↦ ground (arith, k)
          ])
          h

    flush_events-IsDelivered :
        (events : List (OutboxEvent Json)) (o : Outbox Json Payload)
        → IsDelivered tenant o
        → IsDelivered tenant (flush_events service tenant events o).0
    unfolding flush_events
    flush_events-IsDelivered [] o h = h
    flush_events-IsDelivered (event ∷ events) o h =
        elim (Sum-cases (service.unmarshal event.payload)) [
          | inl (e, p) ↦
              rw (p, flush_events)
                (flush_events-IsDelivered events _ (fail-IsDelivered event e o h))
          | inr (payload, p) ↦ elim (Option-cases (service.publish_error event payload)) [
            | inr (e, q) ↦
                rw (p, flush_events, q)
                  (flush_events-IsDelivered events _ (fail-IsDelivered event e o h))
            | inl q ↦ elim (Option-cases (service.mark_published_error event.sequence)) [
              | inr (e, r) ↦ rw (p, flush_events, q, r) (deliver-IsDelivered event payload o h)
              | inl r ↦
                  rw (p, flush_events, q, r)
                    (flush_events-IsDelivered events _ (mark-IsDelivered event payload o h))
            ]
          ]
        ]

    flush-IsDelivered :
        (o : Outbox Json Payload)
        → IsDelivered tenant o
        → IsDelivered tenant (flush service tenant o).0
    unfolding flush
    flush-IsDelivered o h = elim (Option-cases service.query_error) [
      | inr (e, p) ↦ rw (p, flush) h
      | inl p ↦
          rw (p, flush) (flush_events-IsDelivered (pending_outbox service tenant 100 o.rows) o h)
    ]

  unfoldable pub flush_all :
      String → List (Service Json Payload) → Outbox Json Payload → Outbox Json Payload
  flush_all tenant [] o = o
  flush_all tenant (service ∷ services) o = flush_all tenant services (flush service tenant o).0

  -- Whatever the database, the decoding and the publisher do in each of the calls of `Flush`: an
  -- event of the tenant is marked as published only if the publisher has accepted an event with its
  -- sequence number, when this holds at first.
  pub flush_all-IsDelivered :
      (tenant : String) (services : List (Service Json Payload)) (o : Outbox Json Payload)
      → IsDelivered tenant o
      → IsDelivered tenant (flush_all tenant services o)
  unfolding flush_all
  flush_all-IsDelivered tenant [] o h = h
  flush_all-IsDelivered tenant (service ∷ services) o h =
      flush_all-IsDelivered tenant services (flush service tenant o).0
        (flush-IsDelivered service tenant o h)
