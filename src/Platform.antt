-- ===== src/Platform.antt =====
-- The platform's Telegram services (telegram-platform/backend/app/tg).
pub mod Store
pub mod Approvals
pub mod Verdicts
pub mod Deciding
pub mod Judging
pub mod Finality
pub mod Commands
pub mod Deliveries
pub mod Interventions
pub mod Replays
pub mod Rules
pub mod Pulling
pub mod Chats
pub mod Publishing
pub mod Published
pub mod Versioning
pub mod Reaching
pub mod Arrival
pub mod InForce
