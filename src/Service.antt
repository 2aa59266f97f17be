-- ===== src/Service.antt =====
-- The generation service of apps/api/src/generation.ts.
pub mod Message
pub mod Observer
pub mod Events
pub mod Accepted
pub mod Review
pub mod Create
pub mod Sound
pub mod Worker
pub mod Finish
pub mod Steps
pub mod Slot
pub mod Outcomes
mod Samples
mod Decisions
mod Examples
