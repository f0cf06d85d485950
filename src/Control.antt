-- ===== src/Control.antt =====
-- The control layer of telegram-runtime/runtime/control: the per-account lifecycle, with the proofs in
-- the modules named for what they show.
pub mod Controller
pub mod Replay
pub mod Transitions
pub mod Takeover
