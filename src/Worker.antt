-- ===== src/Worker.antt =====
-- The per-account runner of telegram-runtime/runtime/worker/runner.py over the storage, the gate and
-- the executor, and the rules of runtime/worker/host.py, with the proofs in the modules named for what they show.
pub mod Outcomes
pub mod Runner
pub mod Legal
pub mod Settled
pub mod Total
pub mod Draining
pub mod Views
pub mod Rules
pub mod Looping
pub mod Progress
pub mod Ending
pub mod Idle
pub mod Idling
