-- ===== src/Observability.antt =====
-- app/observability
pub mod Trace
