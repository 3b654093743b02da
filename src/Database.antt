-- ===== src/Database.antt =====
-- The persistence layer (src/conversation_agent/database).
pub mod Errors
pub mod Records
pub mod State
pub mod Idempotency
pub mod Execution
pub mod Claims
pub mod UnitOfWork
mod Tests
