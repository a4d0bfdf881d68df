-- ===== src/Babel.antt =====
-- The routing daemon of internal/babel, on top of the wire format.
pub mod History
pub mod Source
pub mod Cost
pub mod Queue
pub mod Deadline
pub mod Routes
pub mod Sources
pub mod Delay
mod Tests
