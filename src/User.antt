-- ===== src/User.antt =====
-- internal/user: the administration of users, over the same table as internal/authentication.
pub mod Repository
pub mod Commands
pub mod Handlers
pub mod Guarantees
