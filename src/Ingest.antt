-- ===== src/Ingest.antt =====
-- The ingestion of location fixes: canonical-chain.ts and `insertFixes` of journey-session.service.ts.
pub mod Envelope
pub mod Fixes
pub mod Service
pub mod Stored
pub mod Verdict
pub mod Chain
pub mod Decode
pub mod Tamper
pub mod Replay
pub mod Keys
mod Tests
