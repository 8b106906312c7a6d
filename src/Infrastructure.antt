-- ===== src/Infrastructure.antt =====
-- internal/infrastructure: the adapters that hold state or decide something themselves.
pub mod Debug
pub mod Jwt
