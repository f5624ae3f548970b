-- ===== src/Services.antt =====
-- app/services
pub mod OrderSummary
pub mod OrdersSummary
pub mod Tickets
pub mod Chat
pub mod Bus
pub mod Analytics
