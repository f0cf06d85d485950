-- ===== src/Ingest.antt =====
-- The ingest layer of telegram-runtime/runtime/ingest: the normalizer and the album aggregator, with
-- the proofs in the modules named for what they show.
pub mod Normalizer
pub mod Album
pub mod Identity
pub mod Windows
pub mod Emission
pub mod Members
