-- ===== src/Policy.antt =====
-- The safety policy (src/conversation_agent/policy).
pub mod Models
pub mod Rules
pub mod Normalization
pub mod Candidates
pub mod Stance
pub mod Resolver
pub mod Engine
mod Tests
