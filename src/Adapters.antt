-- ===== src/Adapters.antt =====
-- The package adapters.
pub mod Table
pub mod Database
pub mod Statements
pub mod Postgres
pub mod Redshift
pub mod Snowflake
pub mod Calls
