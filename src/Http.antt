-- ===== src/Http.antt =====
-- The HTTP entry of net/httpactor.
pub mod Options
pub mod Route
pub mod Handler
mod Tests
