-- ===== src/Http.antt =====
-- The HTTP side that the modules share: responses, and the middleware before the handlers.
pub mod Response
pub mod Middleware
pub mod Guards
pub mod Requests
pub mod Formatter
pub mod Recording
pub mod Metrics
pub mod Routes
