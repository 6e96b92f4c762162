-- ===== src/Wire.antt =====
-- protocol.rs: the wire format.
pub mod Bytes
pub mod Message
pub mod Modmask
