-- ===== src/Model.antt =====
-- The tunnel records of internal/model: their types, validation, defaults, secrets and ownership.
pub mod Types
pub mod Check
pub mod Library
pub mod Validate
pub mod Runs
pub mod Ownership
pub mod Secrets
pub mod Defaults
pub mod Prepare
pub mod Samples
pub mod Tests
