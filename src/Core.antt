-- ===== src/Core.antt =====
-- The control plane of internal/core: the event hub, the set of records and bundle changes.
pub mod Events
pub mod Outcome
pub mod Records
mod Tests
