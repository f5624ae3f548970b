-- ===== src/Policy.antt =====
-- The policy engine: app/policies.
pub mod Types
pub mod Refund
pub mod Cancel
pub mod Escalation
pub mod Loader
