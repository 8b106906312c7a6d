-- ===== src/Todo.antt =====
-- internal/todo: todos and their repository, the domain service, the commands and queries.
pub mod Entity
pub mod Repository
pub mod Queries
pub mod Service
pub mod Stable
pub mod Trace
pub mod Facts
pub mod Deleted
pub mod Lifecycle
pub mod Guarantees
pub mod Handlers
pub mod Answers
pub mod Paging
