-- ===== src/Timeline.antt =====
-- The timeline of an incident: incident-timeline.service.ts.
pub mod Json
pub mod Chain
pub mod Canonical
pub mod Sequence
pub mod Append
mod Tests
