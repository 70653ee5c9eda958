-- ===== src/Tests/Outbox.antt =====
-- Two events of a tenant, one of which is delivered twice, as its mark fails at first.
use mlops.Base.{
  ◌≡◌, refl, inl, inr, String, List, [], ◌∷◌, Option, none, some, true, false, ℕ, map, ◌==◌,
  if◌then◌else◌,
}
use mlops.Store.Outbox.{
  OutboxEvent, Service, Outbox, pending_outbox, mark_published, mark_failed, fail_event, deliver,
  mark_event, flush_events, flush,
}
use mlops.Store.Outbox.Delivered.{IsDelivered, flush_all, flush_all-IsDelivered}

abbrev event : String → ℕ → String → OutboxEvent String
event tenant sequence payload = record {
  tenant = tenant;
  sequence = sequence;
  id = "out";
  topic = "mlaiops.audit.operations";
  key = "k";
  payload = payload;
  attempts = 0;
  last_error = none;
  published = false;
}

-- The payload "" is not JSON.
abbrev service : (ℕ → Option String) → Service String String
service mark_error = record {
  query_error = none;
  unmarshal = λ s. if s == "" then inl "unexpected end" else inr s;
  publish_error = λ e payload. none;
  mark_published_error = mark_error;
  mark_failed_error = λ n. none;
}

abbrev start : Outbox String String
start = record {
  rows = event "acme" 1 "{}" ∷ event "other" 2 "{}" ∷ event "acme" 3 "" ∷ [];
  delivered = [];
}

abbrev services : List (Service String String)
services = service (λ n. some "connection reset") ∷ service (λ n. none) ∷ []

flush_code : Unit {0}
unfolding pending_outbox mark_published mark_failed fail_event deliver mark_event flush_events flush
    flush_all
flush_code = tt

flushed :
    (map (λ r. r.published) (flush_all "acme" services start).rows ≡ true ∷ false ∷ false ∷ [])
    × (map (λ r. r.attempts) (flush_all "acme" services start).rows ≡ 1 ∷ 0 ∷ 1 ∷ [])
    × (map (λ d. d.sequence) (flush_all "acme" services start).delivered ≡ 1 ∷ 1 ∷ [])
unfolding flush_code
flushed = (refl, refl, refl)

start-IsDelivered : IsDelivered "acme" start
start-IsDelivered = ((λ a b. cc), ((λ a b. cc), ((λ a b. cc), tt)))

flush_all-IsDelivered_example : IsDelivered "acme" (flush_all "acme" services start)
flush_all-IsDelivered_example = flush_all-IsDelivered "acme" services start start-IsDelivered
