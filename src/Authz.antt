-- ===== src/Authz.antt =====
-- internal/authorization: roles and permissions, their repositories, and the casbin policy that is
-- made from them.
pub mod Entity
pub mod Tables
pub mod Repositories
pub mod Casbin
pub mod Policy
pub mod Commands
pub mod Joins
pub mod Synced
pub mod Enforced
pub mod Changes
pub mod Guarantees
pub mod Stale
pub mod Handlers
pub mod Answers
