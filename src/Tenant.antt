-- ===== src/Tenant.antt =====
-- internal/tenant: tenants, their repository, commands, queries and handlers.
pub mod Repository
pub mod Commands
pub mod Handlers
pub mod Facts
pub mod Trace
pub mod Guarantees
