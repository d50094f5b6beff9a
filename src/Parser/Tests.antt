-- ===== src/Parser/Tests.antt =====
-- The parsers on concrete input: frames, the manager's indexes and one connection.
mod Framing
mod Managing
mod Serving
mod Transporting
