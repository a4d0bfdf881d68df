-- ===== src/Proto/Decode.antt =====
-- The decoder of internal/babel/proto/parser.go: addresses, TLVs with their sub-TLVs, packets.
pub mod Fields
pub mod Loop
pub mod Sub
pub mod Values
