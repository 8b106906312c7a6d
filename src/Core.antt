-- ===== src/Core.antt =====
-- internal/core/domain: what every module of the program builds on.
pub mod Errors
pub mod Entity
pub mod Proc
pub mod Runtime
