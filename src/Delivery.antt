-- ===== src/Delivery.antt =====
-- The delivery layer of telegram-runtime/runtime/delivery: job states, error classes, the policy gate
-- and the executor, with the proofs in the modules named for what they show.
pub mod Status
pub mod Errors
pub mod Policy
pub mod Executor
pub mod Lifecycle
pub mod Backoff
pub mod Gate
pub mod Effects
