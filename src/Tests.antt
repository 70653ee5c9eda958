-- ===== src/Tests.antt =====
-- Runs of the modelled code on concrete inputs, and the theorems at such inputs.
mod Runs
mod Auth
mod Access
mod Models
mod Tokens
mod Catalog
mod Definitions
mod Pipelines
mod Projects
mod Functions
mod Blog
mod Agents
mod Postgres
mod Outbox
mod StoredModels
mod Http
mod Handlers
mod Integrations
mod Operator
mod Sessions
mod Admins
