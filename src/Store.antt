-- ===== src/Store.antt =====
-- The in-memory store of packages/db/src/index.ts.
pub mod State
pub mod Attempts
pub mod Leases
pub mod Steps
pub mod Listing
pub mod Projects
pub mod Revisions
pub mod Artifacts
pub mod Events
pub mod Transaction
pub mod Samples
mod Examples
