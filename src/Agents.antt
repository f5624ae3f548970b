-- ===== src/Agents.antt =====
-- app/agents
pub mod Messages
pub mod Facts
pub mod ToolLoop
pub mod Escalation
