-- ===== src/Proto.antt =====
-- The wire format of Babel packets: internal/babel/proto.
pub mod Types
pub mod Addr
pub mod Result
pub mod Reader
pub mod Value
pub mod Interval
pub mod Decode
pub mod Encode
pub mod Wire
pub mod RoundTrip
pub mod Safety
mod Tests
