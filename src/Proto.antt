-- ===== src/Proto.antt =====
-- The packet layer of net/proto: limits, validation and the codec of one packet.
pub mod Limits
pub mod Packet
pub mod Validate
pub mod Codec
pub mod Session
pub mod Tests
