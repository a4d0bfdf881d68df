-- ===== src/Proto/Safety.antt =====
-- No input makes the decoder of internal/babel/proto/parser.go panic, and its loops end.
pub mod Address
pub mod Loop
pub mod Values
pub mod Readers
pub mod Packets
