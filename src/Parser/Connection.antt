-- ===== src/Parser/Connection.antt =====
-- Connection of net/parser/connection.go: the state of one client and the functions that change it.
pub mod State
pub mod Process
pub mod Serving
pub mod Invariant
pub mod Packets
pub mod Rounds
pub mod Steps
pub mod Closing
pub mod Handshake
