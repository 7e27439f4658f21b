-- ===== src/Tests.antt =====
-- Runs at concrete inputs.
mod Variables
mod Query
mod Contexts
mod Models
mod Results
mod Names
mod Introspections
mod Runs
mod Clients
mod Encoding
