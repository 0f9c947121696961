-- ===== src/Emergency.antt =====
-- Incidents, their access tokens and the journey sessions that they use.
pub mod State
pub mod Tokens
pub mod Aging
pub mod Renewal
pub mod Sessions
mod Tests
pub mod Lifecycle
pub mod Frames
pub mod Closing
pub mod Refusals
pub mod Settled
pub mod Confirm
