-- ===== src/Http.antt =====
-- go/internal/httpapi: the API server's checks on what a principal may see and how much it may own.
pub mod Access
pub mod Orchestrator
pub mod Handlers
