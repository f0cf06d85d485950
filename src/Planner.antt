-- ===== src/Planner.antt =====
-- The clone planner of telegram-runtime/runtime/planner: its data, its filters and its plans, with
-- the proofs in the modules named for what they show.
pub mod Model
pub mod Filters
pub mod Planning
pub mod Keys
mod Listing
pub mod Admission
pub mod Authorization
pub mod Routing
