-- ===== src/Storage.antt =====
-- The repositories of telegram-runtime/runtime/storage over their tables, with the proofs in the
-- modules named for what they show.
pub mod Leases
pub mod Fencing
pub mod Acquisition
pub mod Race
pub mod Inbox
pub mod Ingestion
pub mod Jobs
pub mod Claiming
pub mod Maps
pub mod Closing
pub mod Results
pub mod Recording
pub mod Deletion
pub mod Claimed
pub mod Claims
pub mod Reclaim
pub mod Plans
pub mod Drain
pub mod Batches
pub mod Drained
pub mod Pending
