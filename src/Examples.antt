-- ===== src/Examples.antt =====
-- Runs of the modelled program at concrete inputs.
mod Sample
mod Sessions
mod Accounts
mod Unary
mod Todos
mod Roles
mod Tenants
mod Buses
mod Administration
mod Requests
mod Tokens
mod Debugging
mod Messages
mod Recording
mod Startup
mod Routing
mod Recovery
