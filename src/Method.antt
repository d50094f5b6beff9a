-- ===== src/Method.antt =====
-- The method layer of net/method: the catalog of methods and the adapter of handlers.
pub mod Table
pub mod Invoker
mod Tests
