-- ===== src/Tests.antt =====
-- Runs of the definitions on concrete inputs, and the theorems applied to such inputs.
mod Fixtures
mod Paths
mod Types
mod Mapping
mod Pipeline
mod Tables
mod Tokens
mod Caches
mod Tasks
mod Reload
mod Databases
mod Stores
mod Pool
mod Streams
mod Files
mod Recognition
