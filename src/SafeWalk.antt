-- ===== src/SafeWalk.antt =====
-- SafeWalk: the check on an owner who has not confirmed arrival, and the notice to the guardians.
pub mod Policy
pub mod Escalation
pub mod Steps
pub mod Deadlines
pub mod Guardians
pub mod Pairing
pub mod Inbox
pub mod Grants
pub mod Revoked
pub mod Final
pub mod Dispatch
pub mod Withheld
pub mod Sending
mod Tests
