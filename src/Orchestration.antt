-- ===== src/Orchestration.antt =====
-- The coordinator's parts (src/conversation_agent/orchestration).
pub mod TaskRouter
pub mod Words
pub mod Modules
pub mod Reports
pub mod Coordinator
pub mod Run
pub mod Models
mod Tests
