-- ===== src/Events.antt =====
-- The package events.
pub mod Extractor
pub mod Queue
pub mod Bucket
pub mod Enricher
pub mod Cache
