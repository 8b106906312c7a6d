-- ===== src/Shared.antt =====
-- internal/shared: the event bus, the command and query buses, and page numbers.
pub mod Events
pub mod Delivery
pub mod Nats
pub mod Cqrs
pub mod Config
pub mod Pagination
