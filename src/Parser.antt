-- ===== src/Parser.antt =====
-- The AGP connections of net/parser: framing, transports, options, the connection manager and the
-- life of one connection.
pub mod Framer
pub mod Transport
pub mod Manager
pub mod Options
pub mod Connection
mod Tests
