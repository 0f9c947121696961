-- ===== src/JourneyQueue.antt =====
-- The durable journey queue of the mobile app (apps/mobile-app/src/services/journey-queue-store.ts)
-- and the replay that drains it (journey-replay.ts).
pub mod Store
pub mod Write
pub mod Read
pub mod Lease
pub mod Replay
pub mod Valid
pub mod Bounds
pub mod Log
pub mod Batch
pub mod Select
pub mod Drain
pub mod Delivery
mod Tests
