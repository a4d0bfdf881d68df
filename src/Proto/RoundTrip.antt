-- ===== src/Proto/RoundTrip.antt =====
-- The decoder reads back what the encoder wrote: addresses and prefixes, single TLVs, whole packets.
pub mod Address
pub mod Prefix
pub mod Spec
pub mod Simple
pub mod Addressed
pub mod Metrics
pub mod Routed
pub mod Updates
pub mod Packets
