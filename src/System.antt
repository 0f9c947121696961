-- ===== src/System.antt =====
-- The mobile queue and the server's ingestion, composed over a network that loses messages.
pub mod Network
pub mod Captured
pub mod Keys
pub mod Delivered
mod Tests
