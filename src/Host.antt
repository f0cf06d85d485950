-- ===== src/Host.antt =====
-- The host of a worker's accounts (telegram-runtime/runtime/worker/host.py, the registry of
-- telegram-runtime/runtime/worker/live.py and telegram-runtime/runtime/account/lease_heartbeat.py).
pub mod Registry
pub mod Heartbeat
pub mod State
pub mod Assigning
pub mod Alignment
pub mod Commands
pub mod Once
pub mod Invariant
pub mod Polling
pub mod Ticking
pub mod Departures
pub mod Joining
pub mod Convergence
pub mod Gatekeeping
pub mod Payload
pub mod Rounds
