-- ===== src/Delivery.antt =====
-- The notification delivery ledger (apps/api/src/modules/notifications).
pub mod Policy
pub mod Ledger
pub mod Claim
pub mod Complete
pub mod Receipts
pub mod Truth
pub mod Rows
pub mod Same
pub mod Lift
pub mod LiftReceipts
pub mod Advance
pub mod Schedule
pub mod Once
mod Tests
