-- ===== src/Examples.antt =====
-- The theorems at concrete inputs.
mod Data
mod Planning
mod Sending
mod Ingesting
mod Controlling
mod Leasing
mod Storing
mod Running
mod Looping
mod Hosting
mod Deciding
mod Publishing
