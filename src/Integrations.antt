-- ===== src/Integrations.antt =====
-- go/internal/integrations: what the integration worker makes of the commands of the outbox.
pub mod Dispatcher
