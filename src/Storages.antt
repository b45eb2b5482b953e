-- ===== src/Storages.antt =====
-- The package storages.
pub mod TableHelper
pub mod Store
pub mod Sync
pub mod Streaming
pub mod Warehouses
