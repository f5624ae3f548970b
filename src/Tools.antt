-- ===== src/Tools.antt =====
-- app/tools: the operational tools of the workers, over the tables that they read and write.
pub mod Database
pub mod Lookups
pub mod Rows
pub mod Billing
pub mod Refunds
pub mod Logistics
pub mod Account
pub mod Workers
pub mod Safety
pub mod Writes
