-- ===== src/Api.antt =====
-- The wire contracts of pkg/api, a record for each struct with its fields in their order.
pub mod Value
pub mod Access
pub mod Project
pub mod Pipeline
pub mod Model
pub mod Agent
