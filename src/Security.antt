-- ===== src/Security.antt =====
-- app/security
pub mod Authorization
pub mod Authentication
pub mod Patterns
pub mod Answers
pub mod Guardrails
