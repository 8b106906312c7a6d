-- ===== src/Auth.antt =====
-- internal/authentication: users, their tokens, and the commands on them.
pub mod Entity
pub mod Tables
pub mod UserRepository
pub mod RefreshTokenRepository
pub mod Crypto
pub mod Commands
pub mod Sessions
pub mod Stable
pub mod Trace
pub mod Handlers
pub mod Answers
