-- ===== src/Application.antt =====
-- The application services (src/conversation_agent/application).
pub mod Models
pub mod Mappers
pub mod Idempotent
pub mod Execute
pub mod Transactions
pub mod Atomic
pub mod Durable
pub mod Gateway
pub mod Chat
pub mod Raises
pub mod Replay
mod Tests
